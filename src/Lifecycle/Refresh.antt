-- ===== src/Lifecycle/Refresh.antt =====
-- engine/src/lifecycle.rs: the refresh of a collection.
use dna_db.Prelude.{
  ℕ, ◌+◌, ◌≤◌, ◌<◌, ◌≡◌, Bool, ◌&&◌, List, [], ◌∷◌, length, retain, map, u64_max,
  saturating_add_fits, if◌then◌else◌, ◌==◌, nat_eq, arith,
}
use dna_db.Model.{Strand}
use dna_db.Lifecycle.{
  LifecyclePolicy, keep, refresh_strand_telomere, refresh_strands, refresh_collection_strands,
  evaluate_lifecycle_action,
}

-- The strands of the collection that the predicate accepts.
abbrev pub selected : ℕ → (Strand → Bool) → Strand → Bool
selected collection_id predicate s = (s.collection_id == collection_id) && predicate s

refresh_strands_lem :
    (strands : List Strand) (collection_id : ℕ) (policy : LifecyclePolicy) (now : ℕ)
    (predicate : Strand → Bool) (refreshed : ℕ)
    → refreshed + length strands ≤ u64_max
    → refresh_strands strands collection_id policy now predicate refreshed ≡ (
      map
          (λ s.
            if selected collection_id predicate s then refresh_strand_telomere s policy now else s)
          strands,
      refreshed + length (retain (selected collection_id predicate) strands),
    )
unfolding refresh_strands
refresh_strands_lem [] collection_id policy now predicate refreshed h = ground arith
refresh_strands_lem (s ∷ ss) collection_id policy now predicate refreshed h = ground (
  arith,
  saturating_add_fits refreshed 1 (omega arith),
  refresh_strands_lem ss collection_id policy now predicate refreshed (omega arith),
  refresh_strands_lem ss collection_id policy now predicate (refreshed + 1) (omega arith),
)

-- A refresh replaces the strands of the collection that the predicate accepts by refreshed ones,
-- leaves all others and the order, and returns the number of the refreshed.
pub refresh_collection_strands_lem :
    (strands : List Strand) (collection_id : ℕ) (policy : LifecyclePolicy) (now : ℕ)
    (predicate : Strand → Bool)
    → length strands ≤ u64_max
    → refresh_collection_strands strands collection_id policy now predicate ≡ (
      map
          (λ s.
            if selected collection_id predicate s then refresh_strand_telomere s policy now else s)
          strands,
      length (retain (selected collection_id predicate) strands),
    )
unfolding refresh_collection_strands
refresh_collection_strands_lem strands collection_id policy now predicate h =
    ground (arith, refresh_strands_lem strands collection_id policy now predicate 0 (omega arith))

-- A strand that was refreshed under a policy with a positive count is kept, at any time.
pub evaluate-refresh :
    (strand : Strand) (policy : LifecyclePolicy) (refreshed now : ℕ)
    → 0 < policy.initial_count
    → evaluate_lifecycle_action (refresh_strand_telomere strand policy refreshed) policy now ≡ keep
unfolding evaluate_lifecycle_action refresh_strand_telomere
evaluate-refresh strand policy refreshed now h = ground arith
