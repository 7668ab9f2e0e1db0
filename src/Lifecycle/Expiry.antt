-- ===== src/Lifecycle/Expiry.antt =====
-- engine/src/lifecycle.rs: when a strand expires.
use dna_db.Prelude.{
  ℕ, zero, suc, ◌-◌, ◌≡◌, refl, true, false, ◌||◌, ltb, if◌then◌else◌, nat_eq, arith,
}
use dna_db.Model.{Strand, manual}
use dna_db.Lifecycle.{
  immortal_mode, telomere_mode, no_action, archive_it, delete_it, LifecyclePolicy,
  LifecycleDecision, keep, needs_manual_refresh, archive, soft_delete, is_immortal,
  initialize_telomere_for_new_strand, apply_replication_event, refresh_strand_telomere,
  evaluate_lifecycle_action,
}

-- `n` events, one after another.
abbrev pub replicate_strand : ℕ → Strand → Strand
replicate_strand zero strand = strand
replicate_strand (suc n) strand = replicate_strand n (apply_replication_event strand)

-- What the policy asks for once a strand has expired.
abbrev pub due : LifecyclePolicy → LifecycleDecision
due policy = elim policy.on_expire [
  | archive_it ↦ archive
  | delete_it ↦ soft_delete
  | no_action ↦ elim policy.refresh_policy [ manual ↦ needs_manual_refresh | _ ↦ keep ]
]

pub evaluate-due :
    (strand : Strand) (policy : LifecyclePolicy) (now_ns : ℕ)
    → evaluate_lifecycle_action strand policy now_ns ≡ (
        if is_immortal policy.mode
          || strand.telomere.immortal
          || ltb 0 strand.telomere.count
          || ltb (now_ns - strand.created_at) policy.minimum_age_ns
        then keep
        else due policy)
unfolding evaluate_lifecycle_action
evaluate-due strand policy now_ns = ground arith

replicate_strand_telomere :
    (n : ℕ) (strand : Strand)
    → strand.telomere.immortal ≡ false
    → ((replicate_strand n strand).telomere.immortal ≡ false)
      × ((replicate_strand n strand).telomere.count ≡ strand.telomere.count - n)
      × ((replicate_strand n strand).created_at ≡ strand.created_at)
unfolding apply_replication_event
replicate_strand_telomere zero strand h = (h, omega arith, refl)
replicate_strand_telomere (suc n) strand h = ground (
  arith,
  h,
  replicate_strand_telomere n
      (record strand { telomere = record strand.telomere { count = strand.telomere.count - 1 } }) h,
)

replicate_strand_immortal :
    (n : ℕ) (strand : Strand) → strand.telomere.immortal ≡ true → replicate_strand n strand ≡ strand
unfolding apply_replication_event
replicate_strand_immortal zero strand h = refl
replicate_strand_immortal (suc n) strand h = ground (arith, h, replicate_strand_immortal n strand h)

-- A new strand under a telomere policy is kept until it was replicated as often as the policy's
-- initial count says and has the policy's minimum age. From then on the decision is what the policy
-- asks for: archive or deletion, or else a manual refresh where the refresh policy is manual.
pub evaluate-replicate :
    (strand : Strand) (policy : LifecyclePolicy) (created now_ns n : ℕ)
    → policy.mode ≡ telomere_mode
    → evaluate_lifecycle_action
        (replicate_strand n (initialize_telomere_for_new_strand strand policy created))
        policy
        now_ns
      ≡ (if ltb n policy.initial_count || ltb (now_ns - strand.created_at) policy.minimum_age_ns
          then keep
          else due policy)
unfolding initialize_telomere_for_new_strand
evaluate-replicate strand policy created now_ns n h =
    let fresh = initialize_telomere_for_new_strand strand policy created in
    let (mortal, count, age) = replicate_strand_telomere n fresh (ground (arith, h)) in
    ground (arith, evaluate-due (replicate_strand n fresh) policy now_ns, mortal, count, age, h)

-- A new strand under an immortal policy is kept for ever: after any number of replications, whatever
-- policy it is later evaluated or refreshed under.
pub immortal_is_kept :
    (strand : Strand) (policy later : LifecyclePolicy) (created refreshed now_ns n : ℕ)
    → policy.mode ≡ immortal_mode
    → let replicated =
        replicate_strand n (initialize_telomere_for_new_strand strand policy created) in
      (evaluate_lifecycle_action replicated later now_ns ≡ keep)
      × (evaluate_lifecycle_action (refresh_strand_telomere replicated later refreshed) later now_ns
          ≡ keep)
unfolding initialize_telomere_for_new_strand evaluate_lifecycle_action refresh_strand_telomere
immortal_is_kept strand policy later created refreshed now_ns n h =
    let fresh = initialize_telomere_for_new_strand strand policy created in
    let same : replicate_strand n fresh ≡ fresh =
      replicate_strand_immortal n fresh (ground (arith, h)) in
    (ground (arith, same, h), ground (arith, same, h))
