-- ===== src/GroupCommit/Tests.antt =====
-- Runs of engine/src/group_commit.rs, and its theorems at concrete groups.
use dna_db.Prelude.{ℕ, ◌/◌, ◌%◌, ◌≡◌, refl, none, some, List, [], ◌∷◌, max}
use dna_db.GroupCommit.{GroupCommitPolicy, new_group, after_record}
use dna_db.GroupCommit.Bounds.{after_records, syncs_of_batches}

abbrev timed : GroupCommitPolicy
timed = record { max_batch = 100; max_interval = some 50 }

abbrev times : List (ℕ × ℕ)
times = (10, 11) ∷ (20, 21) ∷ (60, 61) ∷ (70, 71) ∷ []

-- The third record finds the group 51 old.
interval_fires : (after_records (new_group timed) times).0 ≡ 1
unfolding after_record
interval_fires = refl

syncs_of_batches_example :
    let r = after_records (new_group (record { max_batch = 3; max_interval = none })) times in
    (r.0 ≡ 4 / max 3 1) × (r.1.pending_since_sync ≡ 4 % max 3 1)
syncs_of_batches_example = syncs_of_batches 3 times
