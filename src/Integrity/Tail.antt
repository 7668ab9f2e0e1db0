-- ===== src/Integrity/Tail.antt =====
-- engine/src/integrity.rs: what `scan_meta_tail` of storage.rs finds of checksum entries.
use dna_db.Prelude.{
  ℕ, zero, suc, ◌+◌, ◌%◌, ◌/◌, ◌^◌, ◌≤◌, ◌<◌, ◌≡◌, ◌≢◌, refl, sym, ap, ◌∙◌, List, [], ◌∷◌, ◌++◌,
  length, take, arith, ltb, to_le_bytes, from_le_bytes, nat_eq, ◌==◌, length-to_le_bytes,
  from_le_bytes-to_le_bytes, Bool-cases, inl, inr, ltb→lt, ◌⊎◌,
}
use dna_db.Storage.{scan_meta_tail}
use dna_db.Storage.Maps.{zeros}
use dna_db.Storage.Meta.{
  scan_meta-append-zeros, scan_meta_bounded, scan_meta_empty, scan_meta-append,
  scan_meta-append_zero,
}
use dna_db.Integrity.{encode_crc_entry, decode_entries_from, decode_crc_entries}
use dna_db.Integrity.Layout.{Entry, Fits, entries}

from_le_bytes-zeros : (n : ℕ) → from_le_bytes (zeros n) ≡ 0
unfolding from_le_bytes zeros
from_le_bytes-zeros zero = refl
from_le_bytes-zeros (suc n) = omega (arith, from_le_bytes-zeros n)

-- A sequence that is not zero has a byte that is not zero.
sequence_seen :
    (sequence : ℕ) → sequence < 2 ^ 64 → sequence ≢ 0 → scan_meta_tail (to_le_bytes 8 sequence) ≢ 0
sequence_seen sequence fits h e = h (
    sym (from_le_bytes-to_le_bytes 8 sequence fits)
    ∙ ap from_le_bytes (scan_meta_empty (to_le_bytes 8 sequence) e)
    ∙ from_le_bytes-zeros (length (to_le_bytes 8 sequence)))

scan_meta_one : (b : ℕ) → b ≢ 0 → scan_meta_tail (b ∷ []) ≡ 1
unfolding scan_meta_tail
scan_meta_one b h = ground arith

scan_meta_one_zero : (b : ℕ) → b ≡ 0 → scan_meta_tail (b ∷ []) ≡ 0
unfolding scan_meta_tail
scan_meta_one_zero b h = ground arith

-- The last byte of a checksum is found exactly where it is not zero.
crc_tail :
    (crc : ℕ)
    → crc < 2 ^ 32
    → ((crc < 2 ^ 24) × (scan_meta_tail (to_le_bytes 4 crc) ≤ 3))
      ⊎ ((2 ^ 24 ≤ crc) × (scan_meta_tail (to_le_bytes 4 crc) ≡ 4))
crc_tail crc h =
    let high = crc / 256 / 256 / 256 % 256 in
    let low : List ℕ = crc % 256 ∷ crc / 256 % 256 ∷ crc / 256 / 256 % 256 ∷ [] in
    let bytes : to_le_bytes 4 crc ≡ low ++ (high ∷ []) = unfold to_le_bytes in refl in
    elim (Bool-cases (ltb crc (2 ^ 24))) [
      | inl e ↦
          let none_found =
            scan_meta-append_zero low (high ∷ [])
              (scan_meta_one_zero high (omega (arith, ltb→lt crc (2 ^ 24) e))) in
          inl (ltb→lt crc (2 ^ 24) e, rw (bytes, none_found) (scan_meta_bounded low))
      | inr e ↦
          let large : 2 ^ 24 ≤ crc = ground arith in
          let found = scan_meta_one high (λ z. absurd (omega arith)) in
          inr (
            large,
            rw (bytes, scan_meta-append low (high ∷ []) (λ z. absurd (omega arith)), found) refl,
          )
    ]

-- What is found of two parts, the first of which holds a byte that is not zero.
two_parts :
    (front back : List ℕ)
    → scan_meta_tail front ≢ 0
    → ((scan_meta_tail back ≡ 0)
        × (0 < scan_meta_tail (front ++ back))
        × (scan_meta_tail (front ++ back) ≤ length front))
      ⊎ (scan_meta_tail (front ++ back) ≡ length front + scan_meta_tail back)
two_parts front back h = elim (Bool-cases (scan_meta_tail back == 0)) [
  | inl e ↦
      let z : scan_meta_tail back ≡ 0 = ground arith in
      inl (
        z,
        rw (scan_meta-append_zero front back z) (omega arith),
        rw (scan_meta-append_zero front back z) (scan_meta_bounded front),
      )
  | inr e ↦ inr (scan_meta-append front back (λ z. ground arith))
]

-- How many bytes of the last entry are found: all of them exactly where its checksum has a high byte.
pub entry_tail :
    (e : Entry)
    → Fits e
    → e.0 ≢ 0
    → ((e.1 < 2 ^ 24)
        × (scan_meta_tail (encode_crc_entry e.0 e.1) < 12)
        × (0 < scan_meta_tail (encode_crc_entry e.0 e.1)))
      ⊎ ((2 ^ 24 ≤ e.1) × (scan_meta_tail (encode_crc_entry e.0 e.1) ≡ 12))
unfolding encode_crc_entry
entry_tail e fits h =
    let parts = two_parts (to_le_bytes 8 e.0) (to_le_bytes 4 e.1) (sequence_seen e.0 fits.0 h) in
    grind (arith, parts, crc_tail e.1 fits.1, length-to_le_bytes 8 e.0)

pub take-append_short : (xs ys : List ℕ) (n : ℕ) → n ≤ length xs → take n (xs ++ ys) ≡ take n xs
take-append_short xs ys zero h = refl
take-append_short [] ys (suc n) h = absurd (omega arith)
take-append_short (x ∷ xs) ys (suc n) h =
    ap (λ (r : List ℕ). x ∷ r) (take-append_short xs ys n (omega arith))

take-append_more :
    (xs ys : List ℕ) (n k : ℕ) → length xs + n ≡ k → take k (xs ++ ys) ≡ xs ++ take n ys
take-append_more [] ys n k e = ap (λ m. take m ys) (omega arith)
take-append_more (x ∷ xs) ys n zero e = absurd (omega arith)
take-append_more (x ∷ xs) ys n (suc k) e =
    ap (λ (r : List ℕ). x ∷ r) (take-append_more xs ys n k (omega arith))

-- What is left of the meta file when the zeros at its end are cut off.
pub cut_file :
    (es : List Entry) (e : Entry) (n : ℕ)
    → Fits e
    → e.0 ≢ 0
    → decode_crc_entries (entries es ++ (encode_crc_entry e.0 e.1 ++ zeros n))
      ≡ decode_entries_from
          (suc (length (entries es) + scan_meta_tail (encode_crc_entry e.0 e.1)))
          (entries es
            ++ take
                (scan_meta_tail (encode_crc_entry e.0 e.1))
                (encode_crc_entry e.0 e.1 ++ zeros n))
          []
unfolding decode_crc_entries
cut_file es e n fits h =
    let last = encode_crc_entry e.0 e.1 in
    let found : scan_meta_tail (last ++ zeros n) ≡ scan_meta_tail last =
      scan_meta-append-zeros last n in
    let some_found : scan_meta_tail (last ++ zeros n) ≢ 0 =
      λ z. omega (arith, entry_tail e fits h) in
    let total : scan_meta_tail (entries es ++ (last ++ zeros n))
        ≡ length (entries es) + scan_meta_tail last =
      scan_meta-append (entries es) (last ++ zeros n) some_found
      ∙ ap (λ k. length (entries es) + k) found in
    rw
      (
        total,
        take-append_more (entries es) (last ++ zeros n) (scan_meta_tail last)
            (length (entries es) + scan_meta_tail last) refl,
      )
      refl
