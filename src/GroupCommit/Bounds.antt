-- ===== src/GroupCommit/Bounds.antt =====
-- engine/src/group_commit.rs: how many records wait for a sync.
use dna_db.Prelude.{
  ℕ, ◌+◌, ◌*◌, ◌<◌, ◌≡◌, refl, sym, ◌/◌, ◌%◌, ap, ◌∙◌, subst, none, List, [], ◌∷◌, length, is_some,
  ltb, max, if◌then◌else◌, arith,
}
use native.Mathlib.Nat.{div-eq_of_lt-le, mod-eq_of_lt, mul-add-mod_self_right, add-mul, zero-add}
use dna_db.GroupCommit.{GroupCommit, GroupCommitPolicy, new_group, after_record, has_pending}

-- The records of a writer, each with the two readings of the clock, and the number of syncs.
abbrev pub after_records : GroupCommit → List (ℕ × ℕ) → ℕ × GroupCommit
after_records g [] = (0, g)
after_records g ((now, later) ∷ times) =
    let step = after_record g now later in
    let rest = after_records step.1 times in ((if step.0 then 1 else 0) + rest.0, rest.1)

-- The state between two records.
pub record IsWaiting (policy : GroupCommitPolicy) (g : GroupCommit) : Type 0 where
  pub same : g.policy ≡ policy
  pub bounded : g.pending_since_sync < max policy.max_batch 1
  pub dated : is_some g.unsynced_since ≡ ltb 0 g.pending_since_sync

after_record-IsWaiting :
    (policy : GroupCommitPolicy) (g : GroupCommit) (now later : ℕ)
    → IsWaiting policy g
    → IsWaiting policy (after_record g now later).1
unfolding after_record
after_record-IsWaiting policy g now later w = record {
  same = ground (arith, w.same);
  bounded = ground (arith, w.same, w.bounded);
  dated = ground (arith, w.dated);
}

after_records-IsWaiting :
    (policy : GroupCommitPolicy) (g : GroupCommit) (times : List (ℕ × ℕ))
    → IsWaiting policy g
    → IsWaiting policy (after_records g times).1
after_records-IsWaiting policy g [] w = w
after_records-IsWaiting policy g ((now, later) ∷ times) w =
    after_records-IsWaiting policy (after_record g now later).1 times
      (after_record-IsWaiting policy g now later w)

-- Whatever the clock says, after each record fewer than `max_batch` records wait, or none where
-- `max_batch` is zero; and the start of the group is known exactly while records wait.
pub after_records_lem :
    (policy : GroupCommitPolicy) (times : List (ℕ × ℕ))
    → let g = (after_records (new_group policy) times).1 in
      (g.pending_since_sync < max policy.max_batch 1) × (is_some g.unsynced_since ≡ has_pending g)
unfolding has_pending
after_records_lem policy times =
    let w =
      after_records-IsWaiting policy (new_group policy) times
        (record { same = refl; bounded = omega arith; dated = refl }) in
    (w.bounded, w.dated)

after_record_batch :
    (g : GroupCommit) (now later : ℕ)
    → g.policy.max_interval ≡ none
    → g.pending_since_sync < max g.policy.max_batch 1
    → let r = after_record g now later in
      (r.1.policy ≡ g.policy)
      × (r.1.pending_since_sync < max g.policy.max_batch 1)
      × ((if r.0 then max g.policy.max_batch 1 else 0) + r.1.pending_since_sync
          ≡ g.pending_since_sync + 1)
unfolding after_record
after_record_batch g now later h b = ground (arith, h, b)

after_records_batch :
    (g : GroupCommit) (times : List (ℕ × ℕ))
    → g.policy.max_interval ≡ none
    → g.pending_since_sync < max g.policy.max_batch 1
    → let r = after_records g times in
      r.0 * max g.policy.max_batch 1 + r.1.pending_since_sync ≡ g.pending_since_sync + length times
after_records_batch g [] h b = omega arith
after_records_batch g ((now, later) ∷ times) h b =
    let r = after_record g now later in
    let (same, bound, count) = after_record_batch g now later h b in
    let ih =
      after_records_batch r.1 times (ap (λ (q : GroupCommitPolicy). q.max_interval) same ∙ h)
        (rw same bound) in
    let ih' : (after_records r.1 times).0 * max g.policy.max_batch 1
          + (after_records r.1 times).1.pending_since_sync
        ≡ r.1.pending_since_sync + length times =
      subst
        (λ (q : GroupCommitPolicy).
          (after_records r.1 times).0 * max q.max_batch 1
            + (after_records r.1 times).1.pending_since_sync
          ≡ r.1.pending_since_sync + length times)
        same ih in
    grind (arith, ih', count)

-- Quotient and remainder are the only numbers that divide.
divided : (d q r n : ℕ) → r < d → q * d + r ≡ n → (q ≡ n / d) × (r ≡ n % d)
divided d q r n h e = (
  sym (div-eq_of_lt-le d (omega (arith, e)) (omega (arith, h, e, add-mul q 1 d))),
  sym (mod-eq_of_lt h) ∙ sym (mul-add-mod_self_right q d r) ∙ ap (λ k. k % d) e,
)

-- With no interval exactly the full batches are synced: the syncs are the records divided by the batch
-- size, which counts as one where it is zero, and the records that wait are the remainder.
pub syncs_of_batches :
    (max_batch : ℕ) (times : List (ℕ × ℕ))
    → let r =
        after_records (new_group (record { max_batch = max_batch; max_interval = none })) times in
      (r.0 ≡ length times / max max_batch 1)
      × (r.1.pending_since_sync ≡ length times % max max_batch 1)
syncs_of_batches max_batch times =
    let policy : GroupCommitPolicy = record { max_batch = max_batch; max_interval = none } in
    divided (max max_batch 1) (after_records (new_group policy) times).0
      (after_records (new_group policy) times).1.pending_since_sync (length times)
      (after_records_lem policy times).0
      (after_records_batch (new_group policy) times refl (omega arith) ∙ zero-add (length times))
