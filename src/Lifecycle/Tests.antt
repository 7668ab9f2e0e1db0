-- ===== src/Lifecycle/Tests.antt =====
-- Runs of engine/src/lifecycle.rs, and its theorems at concrete strands.
use dna_db.Prelude.{
  ℕ, ◌≡◌, ◌*◌, ◌-◌, refl, false, not, ◌||◌, List, [], ◌∷◌, ltb, retain, list_eq, nat_eq,
  if◌then◌else◌, arith,
}
use dna_db.Model.{Strand, manual, auto_on_read}
use dna_db.Lifecycle.{
  LifecyclePolicy, telomere_opt_in, delete_it, keep, soft_delete, DeletedStrandRecord,
  initialize_telomere_for_new_strand, apply_replication_event, sweep_deleted_pool,
  evaluate_lifecycle_action,
}
use dna_db.Lifecycle.Expiry.{replicate_strand, due, evaluate-replicate}
use dna_db.Lifecycle.Pool.{
  Deletion, recorded, in_grace, signatures, occurrences, sweep_deleted_pool_lem,
}

abbrev strand : Strand
strand = record {
  signature = 1 ∷ 2 ∷ [];
  collection_id = 3;
  codons = [];
  complement = [];
  introns = [];
  telomere = record {
    count = 0;
    immortal = false;
    last_refresh = 0;
    refresh_policy = auto_on_read;
  };
  epigenetic_tags = [];
  version = 1;
  created_at = 100;
  updated_at = 100;
}

abbrev policy : LifecyclePolicy
policy = telomere_opt_in 2 manual delete_it 50

expires :
    evaluate_lifecycle_action
      (replicate_strand 2 (initialize_telomere_for_new_strand strand policy 100))
      policy
      200
    ≡ soft_delete
unfolding evaluate_lifecycle_action initialize_telomere_for_new_strand apply_replication_event
expires = refl

evaluate-replicate_example :
    evaluate_lifecycle_action
      (replicate_strand 2 (initialize_telomere_for_new_strand strand policy 100))
      policy
      200
    ≡ (if ltb 2 2 || ltb (200 - 100) 50 then keep else due policy)
evaluate-replicate_example = evaluate-replicate strand policy 100 200 2 refl

abbrev deleted : ℕ → DeletedStrandRecord
deleted n = record {
  signature = n ∷ [];
  collection_id = 3;
  deleted_at_ns = n;
  purge_after_ns = n * 10;
  reason = "expired";
}

abbrev pool : List DeletedStrandRecord
pool = deleted 3 ∷ deleted 1 ∷ deleted 2 ∷ []

sweeps : sweep_deleted_pool pool 20 ≡ (deleted 3 ∷ [], (1 ∷ []) ∷ (2 ∷ []) ∷ [])
unfolding sweep_deleted_pool
sweeps = refl

abbrev deletion : ℕ → Deletion
deletion n = record {
  strand = strand;
  deleted_at = n;
  cfg = record { grace_period_ns = 10 };
  reason = "expired";
}

abbrev deletions : List Deletion
deletions = deletion 3 ∷ deletion 25 ∷ deletion 12 ∷ []

sweep_deleted_pool_example :
    ((sweep_deleted_pool (recorded deletions) 20).0 ≡ recorded (retain (in_grace 20) deletions))
    × (occurrences (1 ∷ 2 ∷ []) (sweep_deleted_pool (recorded deletions) 20).1
        ≡ occurrences (1 ∷ 2 ∷ []) (signatures (retain (λ d. not (in_grace 20 d)) deletions)))
    × ((sweep_deleted_pool (sweep_deleted_pool (recorded deletions) 20).0 30).0
        ≡ recorded (retain (in_grace 30) deletions))
sweep_deleted_pool_example =
    sweep_deleted_pool_lem deletions 20 30 (1 ∷ 2 ∷ [])
      (omega arith, (omega arith, (omega arith, tt))) (omega arith)
