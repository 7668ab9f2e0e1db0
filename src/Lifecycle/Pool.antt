-- ===== src/Lifecycle/Pool.antt =====
-- engine/src/lifecycle.rs: the pool of deleted strands.
use dna_db.Prelude.{
  ℕ, ◌+◌, ◌≤◌, ◌≡◌, refl, ap, ◌∙◌, not, List, [], ◌∷◌, retain, map, ltb, u64_max,
  saturating_add_fits, ◌==◌, nat_eq, list_eq, arith, String, Bool, All, length, if◌then◌else◌,
}
use dna_db.Model.{Strand}
use dna_db.Lifecycle.{
  DeletedStrandRecord, DeleteConfig, soft_delete_record_for_strand, sweep_records,
  sweep_deleted_pool, insert_sorted, sort_unstable,
}

-- How often a signature is in the list.
abbrev pub occurrences : List ℕ → List (List ℕ) → ℕ
occurrences t ss = length (retain (λ s. s == t) ss)

occurrences-insert_sorted :
    (s t : List ℕ) (ss : List (List ℕ))
    → occurrences t (insert_sorted s ss) ≡ (if s == t then 1 else 0) + occurrences t ss
occurrences-insert_sorted s t [] = ground arith
occurrences-insert_sorted s t (u ∷ us) = ground (arith, occurrences-insert_sorted s t us)

occurrences-sort :
    (t : List ℕ) (ss : List (List ℕ)) → occurrences t (sort_unstable ss) ≡ occurrences t ss
occurrences-sort t [] = refl
occurrences-sort t (s ∷ ss) =
    ground (arith, occurrences-insert_sorted s t (sort_unstable ss), occurrences-sort t ss)

-- A deletion of a strand.
pub record Deletion : Type 0 where
  pub strand : Strand
  pub deleted_at : ℕ
  pub cfg : DeleteConfig
  pub reason : String

-- The end of the grace period is a `u64`.
abbrev pub Fits : Deletion → Type 0
Fits d = d.deleted_at + d.cfg.grace_period_ns ≤ u64_max

-- The grace period has not ended.
abbrev pub in_grace : ℕ → Deletion → Bool
in_grace now d = ltb now (d.deleted_at + d.cfg.grace_period_ns)

-- The pool after the deletions.
abbrev pub recorded : List Deletion → List DeletedStrandRecord
recorded ds =
    map (λ (d : Deletion). soft_delete_record_for_strand d.strand d.deleted_at d.cfg d.reason) ds

abbrev pub signatures : List Deletion → List (List ℕ)
signatures ds = map (λ (d : Deletion). d.strand.signature) ds

sweep_records-recorded :
    (ds : List Deletion) (now : ℕ)
    → All Fits ds
    → sweep_records (recorded ds) now
      ≡ (recorded (retain (in_grace now) ds), signatures (retain (λ d. not (in_grace now d)) ds))
unfolding sweep_records soft_delete_record_for_strand
sweep_records-recorded [] now h = refl
sweep_records-recorded (d ∷ ds) now h = ground (
  arith,
  sweep_records-recorded ds now h.1,
  saturating_add_fits d.deleted_at d.cfg.grace_period_ns h.0,
)

retain-Fits : (now : ℕ) (ds : List Deletion) → All Fits ds → All Fits (retain (in_grace now) ds)
retain-Fits now [] h = tt
retain-Fits now (d ∷ ds) h = ground (arith, retain-Fits now ds h.1)

retain_later :
    (ds : List Deletion) (now later : ℕ)
    → now ≤ later
    → retain (in_grace later) (retain (in_grace now) ds) ≡ retain (in_grace later) ds
retain_later [] now later h = refl
retain_later (d ∷ ds) now later h = ground (arith, retain_later ds now later h)

kept :
    (ds : List Deletion) (now : ℕ)
    → All Fits ds
    → (sweep_records (recorded ds) now).0 ≡ recorded (retain (in_grace now) ds)
kept ds now h = ap (λ x. x.0) (sweep_records-recorded ds now h)

-- Of a pool of soft deletes a sweep keeps, in order, the records of exactly the deletions whose grace
-- period, counted from the deletion, has not ended. It reports each signature as often as
-- a deletion whose period has ended has it. A later sweep then leaves exactly what it would leave without the
-- first one. The ends of the periods are `u64`s.
pub sweep_deleted_pool_lem :
    (ds : List Deletion) (now later : ℕ) (signature : List ℕ)
    → All Fits ds
    → now ≤ later
    → ((sweep_deleted_pool (recorded ds) now).0 ≡ recorded (retain (in_grace now) ds))
      × (occurrences signature (sweep_deleted_pool (recorded ds) now).1
          ≡ occurrences signature (signatures (retain (λ d. not (in_grace now d)) ds)))
      × ((sweep_deleted_pool (sweep_deleted_pool (recorded ds) now).0 later).0
          ≡ recorded (retain (in_grace later) ds))
unfolding sweep_deleted_pool
sweep_deleted_pool_lem ds now later signature h le = (
  kept ds now h,
  occurrences-sort signature (sweep_records (recorded ds) now).1
      ∙ ap (λ x. occurrences signature x.1) (sweep_records-recorded ds now h),
  ap (λ (p : List DeletedStrandRecord). (sweep_records p later).0) (kept ds now h)
      ∙ kept (retain (in_grace now) ds) later (retain-Fits now ds h)
      ∙ ap recorded (retain_later ds now later le),
)
