-- ===== src/Transaction/Reclaim.antt =====
-- engine/src/transaction.rs: compaction of the versions under open transactions.

use dna_db.Prelude.{
  ℕ, ◌≤◌, ◌≡◌, ◌≢◌, refl, ap, sym, ◌∙◌, ◌⊎◌, inl, inr, none, some, [], ◌∷◌, List, unwrap_or, arith,
  ltb, Bool-cases, Option-cases, u64_max, ◌==◌, nat_eq,
}
use dna_db.Prelude.Map.{Map, get, values, get-map_values}
use dna_db.Mvcc.{VersionChain, visible_at, compact_for_oldest_snapshot_with_floor}
use dna_db.Mvcc.Order.{IsBelow}
use dna_db.Mvcc.Visibility.{visible_at_of_below}
use dna_db.Mvcc.Compaction.{visible_at-compact, compact-IsBelow}
use dna_db.Transaction.{
  Transaction, TransactionManager, read, minimum, oldest_active_snapshot,
  compact_versions_with_floor,
}
use dna_db.Transaction.Invariant.{IsValid}
use dna_db.Transaction.Isolation.{after_ops, read-after_ops}

-- The minimum of a list is at most its head, and at most what the minimum of its tail is.
minimum-cons-le :
    (d t u : ℕ) (ts : List ℕ)
    → (t ≤ u) ⊎ ((minimum ts ≢ none) × (unwrap_or (minimum ts) d ≤ u))
    → (minimum (t ∷ ts) ≢ none) × (unwrap_or (minimum (t ∷ ts)) d ≤ u)
minimum-cons-le d t u ts h = elim (Option-cases (minimum ts)) [
  | inl q ↦ rw (q, minimum) (ground arith)
  | inr (v, q) ↦ rw (q, minimum) (ground arith)
]

minimum_le :
    (d id snapshot : ℕ) (active : Map ℕ ℕ)
    → get id active ≡ some snapshot
    → (minimum (values active) ≢ none) × (unwrap_or (minimum (values active)) d ≤ snapshot)
unfolding get values
minimum_le d id snapshot [] e = absurd (cc)
minimum_le d id snapshot ((j, s) ∷ active) e = elim (Bool-cases (j == id)) [
  | inl same ↦ minimum-cons-le d s snapshot (values active) (inl (ground arith))
  | inr other ↦
      minimum-cons-le d s snapshot (values active)
        (inr (minimum_le d id snapshot active (ground arith)))
]

module _ {R : Type 0} where
  -- A chain before and after compaction, for a snapshot that is covered.
  visible_at-covered :
      (oldest floor clock snap : ℕ) (chain : VersionChain R)
      → IsBelow clock chain
      → (oldest ≤ snap) ⊎ (clock ≤ snap)
      → visible_at snap (compact_for_oldest_snapshot_with_floor oldest floor chain)
        ≡ visible_at snap chain
  visible_at-covered oldest floor clock snap chain b h = elim (Bool-cases (ltb snap oldest)) [
    | inr covered ↦ (visible_at-compact oldest floor snap chain (ground arith)).0
    | inl before ↦
        let late : clock ≤ snap = ground arith in
        visible_at_of_below clock snap compacted (compact-IsBelow clock oldest floor chain b) late
        ∙ sym (
            visible_at_of_below clock oldest compacted (compact-IsBelow clock oldest floor chain b)
              (ground arith))
        ∙ (visible_at-compact oldest floor oldest chain (omega arith)).0
        ∙ visible_at_of_below clock oldest chain b (ground arith)
        ∙ sym (visible_at_of_below clock snap chain b late)
  ]
    where
      compacted : VersionChain R
      compacted = compact_for_oldest_snapshot_with_floor oldest floor chain

  -- In a valid manager compaction, with any floor, changes no read of a transaction that is active
  -- with its snapshot, or whose snapshot is not before the clock.
  pub read-compact :
      (floor : ℕ) (m : TransactionManager R) (txn : Transaction R) (id : ℕ)
      → IsValid m
      → (get txn.txn_id m.active_txns ≡ some txn.snapshot_ts) ⊎ (m.clock_ts ≤ txn.snapshot_ts)
      → read (compact_versions_with_floor floor m) txn id ≡ read m txn id
  unfolding compact_versions_with_floor oldest_active_snapshot
  read-compact floor m txn id v h =
      rw (read-after_ops (compact_versions_with_floor floor m) txn id, read-after_ops m txn id)
        (ap (after_ops id txn.write_set) (elim (Option-cases (get id m.chains)) [
          | inl q ↦ rw (get-map_values, q) refl
          | inr (chain, q) ↦
              rw (get-map_values, q)
                (visible_at-covered oldest floor m.clock_ts txn.snapshot_ts chain
                  (v.chains_valid id chain q).1 covered)
        ]))
    where
      oldest : ℕ
      oldest = unwrap_or (oldest_active_snapshot m) u64_max

      covered : (oldest ≤ txn.snapshot_ts) ⊎ (m.clock_ts ≤ txn.snapshot_ts)
      covered = elim h [
        | inl open' ↦ inl (minimum_le u64_max txn.txn_id txn.snapshot_ts m.active_txns open').1
        | inr late ↦ inr late
      ]
