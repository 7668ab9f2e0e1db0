-- ===== src/Storage/Meta.antt =====
-- engine/src/storage.rs: the scan of the meta file, for the last byte that is not zero.
use dna_db.Prelude.{
  ℕ, zero, suc, ◌+◌, ◌-◌, ◌≤◌, ◌≡◌, ◌≢◌, refl, ap, ◌∙◌, List, [], ◌∷◌, ◌++◌, length, take, arith,
  nat_eq,
}
use dna_db.Storage.{scan_meta_tail}
use dna_db.Storage.Maps.{zeros}

scan_meta-zeros : (n : ℕ) → scan_meta_tail (zeros n) ≡ 0
unfolding scan_meta_tail zeros
scan_meta-zeros zero = refl
scan_meta-zeros (suc n) = ground (arith, scan_meta-zeros n)

-- Zeros at the end are passed over.
pub scan_meta-append-zeros :
    (bytes : List ℕ) (n : ℕ) → scan_meta_tail (bytes ++ zeros n) ≡ scan_meta_tail bytes
unfolding scan_meta_tail
scan_meta-append-zeros [] n = scan_meta-zeros n
scan_meta-append-zeros (b ∷ bytes) n = ground (arith, scan_meta-append-zeros bytes n)

pub scan_meta_bounded : (bytes : List ℕ) → scan_meta_tail bytes ≤ length bytes
unfolding scan_meta_tail
scan_meta_bounded [] = omega arith
scan_meta_bounded (b ∷ bytes) = ground (arith, scan_meta_bounded bytes)

-- What ends with a byte that is not zero may stand behind anything.
pub scan_meta-append :
    (front back : List ℕ)
    → scan_meta_tail back ≢ 0
    → scan_meta_tail (front ++ back) ≡ length front + scan_meta_tail back
unfolding scan_meta_tail
scan_meta-append [] back h = omega arith
scan_meta-append (b ∷ front) back h = ground (arith, scan_meta-append front back h)

-- Where what stands behind is zeros, nothing of it is found.
pub scan_meta-append_zero :
    (front back : List ℕ)
    → scan_meta_tail back ≡ 0
    → scan_meta_tail (front ++ back) ≡ scan_meta_tail front
unfolding scan_meta_tail
scan_meta-append_zero [] back h = h
scan_meta-append_zero (b ∷ front) back h = ground (arith, scan_meta-append_zero front back h)

pub scan_meta_empty : (bytes : List ℕ) → scan_meta_tail bytes ≡ 0 → bytes ≡ zeros (length bytes)
unfolding scan_meta_tail zeros
scan_meta_empty [] e = refl
scan_meta_empty (b ∷ bytes) e =
    let rest : scan_meta_tail bytes ≡ 0 = ground arith in
    let head : b ≡ 0 = ground arith in
    rw head (ap (λ (r : List ℕ). 0 ∷ r) (scan_meta_empty bytes rest))

scan_meta_trims_at :
    (bytes : List ℕ) (k : ℕ)
    → scan_meta_tail bytes ≡ k
    → bytes ≡ take k bytes ++ zeros (length bytes - k)
unfolding scan_meta_tail
scan_meta_trims_at bytes zero e = scan_meta_empty bytes e ∙ ap zeros (omega arith)
scan_meta_trims_at [] (suc k) e = absurd (omega arith)
scan_meta_trims_at (b ∷ bytes) (suc k) e =
    let rest : scan_meta_tail bytes ≡ k = ground arith in
    ap (λ (r : List ℕ). b ∷ r)
      (scan_meta_trims_at bytes k rest ∙ ap (λ n. take k bytes ++ zeros n) (omega arith))

-- What is cut off is zeros.
pub scan_meta_trims :
    (bytes : List ℕ)
    → bytes ≡ take (scan_meta_tail bytes) bytes ++ zeros (length bytes - scan_meta_tail bytes)
scan_meta_trims bytes = scan_meta_trims_at bytes (scan_meta_tail bytes) refl
