-- ===== src/Complement/Pairing.antt =====
-- engine/src/complement.rs: which pairs of strands are a valid pairing.
use dna_db.Prelude.{
  ℕ, suc, ◌-◌, ◌≡◌, refl, ◌↔◌, true, some, List, [], ◌∷◌, ◌++◌, All, length, arith,
}
use dna_db.Model.{Codon, IsBase4}
use dna_db.Complement.{
  complement_codon, generate_complement, check_codon, scan_pairs, is_valid_pairing, is_empty,
}

-- A codon of base-4 symbols has a complement, and it is the one that passes the three checks.
check_codon_iff :
    (idx : ℕ) (s c : Codon)
    → IsBase4 s
    → IsBase4 c
    → (check_codon idx s c ≡ []) ↔ (complement_codon s ≡ some c)
unfolding check_codon complement_codon
check_codon_iff idx s c hs hc = (λ h. ground arith, λ h. ground arith)

abbrev mirror : Codon → Codon
mirror s = record { first = 3 - s.first; second = 3 - s.second; third = 3 - s.third }

-- The complement of a codon is there, is in base 4, and has the codon for its own complement.
complement_codon-mirror :
    (s : Codon)
    → IsBase4 s
    → (complement_codon s ≡ some (mirror s))
      × IsBase4 (mirror s)
      × (complement_codon (mirror s) ≡ some s)
unfolding complement_codon
complement_codon-mirror s h = (ground arith, omega arith, ground arith)

append-eq-nil {ℓ} : {A : Type ℓ} (xs ys : List A) → (xs ++ ys ≡ []) ↔ ((xs ≡ []) × (ys ≡ []))
append-eq-nil [] ys = (λ h. (refl, h), λ h. h.1)
append-eq-nil (x ∷ xs) ys = (λ h. absurd (cc h), λ h. absurd (cc (h.0)))

-- From any index on, no report and equal lengths mean that the second strand is the complement.
scan_pairs_iff :
    (idx : ℕ) (ss cs : List Codon)
    → All IsBase4 ss
    → All IsBase4 cs
    → ((length ss ≡ length cs) × (scan_pairs idx ss cs ≡ [])) ↔ (generate_complement ss ≡ some cs)
unfolding scan_pairs generate_complement
scan_pairs_iff idx [] [] hs hc = (λ h. refl, λ h. (refl, refl))
scan_pairs_iff idx [] (c ∷ cs) hs hc = (λ h. absurd (omega arith), λ h. absurd (ground arith))
scan_pairs_iff idx (s ∷ ss) [] hs hc = (λ h. absurd (omega arith), λ h. ground arith)
scan_pairs_iff idx (s ∷ ss) (c ∷ cs) hs hc = ground (
  arith,
  check_codon_iff idx s c hs.0 hc.0,
  append-eq-nil (check_codon idx s c) (scan_pairs (suc idx) ss cs),
  scan_pairs_iff (suc idx) ss cs hs.1 hc.1,
)

is_empty_iff {ℓ} : {A : Type ℓ} (xs : List A) → (is_empty xs ≡ true) ↔ (xs ≡ [])
is_empty_iff [] = ground arith
is_empty_iff (x ∷ xs) = ground arith

-- For strands of base-4 symbols, `is_valid_pairing` accepts exactly the strand that
-- `generate_complement` makes of the first.
pub is_valid_pairing_iff :
    (strand complement : List Codon)
    → All IsBase4 strand
    → All IsBase4 complement
    → (is_valid_pairing strand complement ≡ true) ↔ (generate_complement strand ≡ some complement)
unfolding is_valid_pairing
is_valid_pairing_iff strand complement hs hc =
    ground (
      arith,
      is_empty_iff (scan_pairs 0 strand complement),
      scan_pairs_iff 0 strand complement hs hc,
    )

-- On a strand of base-4 symbols `generate_complement` does not panic; the complement is in base 4,
-- has the strand's length, and its own complement is the strand.
pub generate_complement_involutive :
    (strand : List Codon)
    → All IsBase4 strand
    → (complement : List Codon) × (generate_complement strand ≡ some complement)
      × All IsBase4 complement
      × (length complement ≡ length strand)
      × (generate_complement complement ≡ some strand)
unfolding generate_complement
generate_complement_involutive [] h = ([], refl, tt, refl, refl)
generate_complement_involutive (s ∷ ss) h =
    let (cs, there, base4, len, back) = generate_complement_involutive ss h.1 in
    let (m, b, m') = complement_codon-mirror s h.0 in
    (mirror s ∷ cs, rw (m, there) refl, (b, base4), omega arith, rw (m', back) refl)
