-- ===== src/Mvcc/Tests.antt =====
-- Runs of engine/src/mvcc.rs, and its theorems at concrete chains.
use dna_db.Prelude.{ℕ, ◌*◌, ◌≡◌, ◌≤◌, refl, min, max, none, some, [], ◌∷◌, arith}
use dna_db.Mvcc.{
  VersionChain, VersionEntry, insert_version, delete, visible_at, version_count,
  compact_for_oldest_snapshot_with_floor,
}
use dna_db.Mvcc.Order.{IsSorted}
use dna_db.Mvcc.Visibility.{insert_delete_lem}
use dna_db.Mvcc.Compaction.{visible_at-compact}

abbrev version : ℕ → VersionEntry ℕ
version n = record { txn_id = n; ts = n * 10; row = some n }

abbrev chain : VersionChain ℕ
chain = record { record_id = 7; versions = version 1 ∷ version 2 ∷ version 3 ∷ version 4 ∷ [] }

deleted_record_is_invisible : visible_at 60 (delete 5 50 chain) ≡ none
unfolding visible_at delete
deleted_record_is_invisible = refl

compaction_keeps_boundary : version_count (compact_for_oldest_snapshot_with_floor 25 1 chain) ≡ 3
unfolding version_count compact_for_oldest_snapshot_with_floor
compaction_keeps_boundary = refl

insert_delete_lem_example :
    IsSorted (insert_version 9 5 25 chain)
    × IsSorted (delete 5 25 chain)
    × (visible_at 27 (insert_version 9 5 25 chain) ≡ some 9)
    × (visible_at 27 (delete 5 25 chain) ≡ none)
insert_delete_lem_example = insert_delete_lem 9 5 25 27 chain (omega arith)

visible_at-compact_example :
    (visible_at 30 (compact_for_oldest_snapshot_with_floor 25 2 chain) ≡ visible_at 30 chain)
    × (min (max 2 1) (version_count chain)
        ≤ version_count (compact_for_oldest_snapshot_with_floor 25 2 chain))
visible_at-compact_example = visible_at-compact 25 2 30 chain (omega arith)
