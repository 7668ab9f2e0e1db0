-- ===== src/Storage/Blobs.antt =====
-- engine/src/storage.rs: the scan of the complement file, which holds blobs of codons with their
-- lengths.
use dna_db.Prelude.{
  ℕ, zero, suc, ◌+◌, ◌^◌, ◌≤◌, ◌<◌, ◌≡◌, refl, sym, ◌∙◌, none, some, List, [], ◌∷◌, ◌++◌, length,
  take, drop, All, arith, length-append, take-append, drop-append, to_le_bytes, from_le_bytes,
  length-to_le_bytes, from_le_bytes-to_le_bytes, drop-drop,
}
use mathlib.Core.List.{append_assoc}
use dna_db.Model.{Codon}
use dna_db.Codec.{Bincode}
use dna_db.Storage.{scan_complement_from, scan_complement_tail}
use dna_db.Storage.Maps.{zeros}

-- What the processor writes of the bytes of one complement.
abbrev pub blob : List ℕ → List ℕ
blob inner = to_le_bytes 4 (length inner) ++ inner

abbrev pub blobs : List (List ℕ) → List ℕ
blobs [] = []
blobs (inner ∷ rest) = blob inner ++ blobs rest

-- bincode reads codons from the bytes, and their length is a `u32`.
abbrev pub IsBlob : Bincode → List ℕ → Type 0
IsBlob bincode inner =
    ((codons : List Codon) × (bincode.deserialize_codons inner ≡ some codons))
    × (length inner < 2 ^ 32)

pub length-blob : (inner : List ℕ) → length (blob inner) ≡ 4 + length inner
length-blob inner =
    omega (
      arith,
      length-append (to_le_bytes 4 (length inner)) inner,
      length-to_le_bytes 4 (length inner),
    )

-- The bytes behind the length of a blob.
drop-blob :
    (inner rest : List ℕ)
    → (take 4 (blob inner ++ rest) ≡ to_le_bytes 4 (length inner))
      × (drop 4 (blob inner ++ rest) ≡ inner ++ rest)
      × (drop (4 + length inner) (blob inner ++ rest) ≡ rest)
unfolding to_le_bytes
drop-blob inner rest = (
  refl,
  refl,
  sym (drop-drop (length inner) 4 (4 + length inner) (blob inner ++ rest) refl)
      ∙ drop-append inner rest,
)

scan_complement-blob :
    (bincode : Bincode) (fuel pos : ℕ) (inner rest : List ℕ)
    → IsBlob bincode inner
    → scan_complement_from bincode (suc fuel) (blob inner ++ rest) pos
      ≡ scan_complement_from bincode fuel rest (pos + (4 + length inner))
unfolding scan_complement_from
scan_complement-blob bincode fuel pos inner rest h = ground (
  arith,
  (drop-blob inner rest).0,
  (drop-blob inner rest).1,
  (drop-blob inner rest).2,
  length-append (blob inner) rest,
  length-blob inner,
  from_le_bytes-to_le_bytes 4 (length inner) h.1,
  take-append inner rest,
  h.0.1,
)

-- Zeros read as a blob without bytes, and bincode needs bytes for a vector.
scan_complement-zeros :
    (bincode : Bincode) (fuel n pos : ℕ)
    → bincode.deserialize_codons [] ≡ none
    → scan_complement_from bincode (suc fuel) (zeros n) pos ≡ pos
unfolding scan_complement_from zeros from_le_bytes
scan_complement-zeros bincode fuel zero pos e = refl
scan_complement-zeros bincode fuel (suc zero) pos e = refl
scan_complement-zeros bincode fuel (suc (suc zero)) pos e = refl
scan_complement-zeros bincode fuel (suc (suc (suc zero))) pos e = refl
scan_complement-zeros bincode fuel (suc (suc (suc (suc n)))) pos e = ground (arith, e)

scan_complement-blobs :
    (bincode : Bincode) (fuel n pos : ℕ) (inners : List (List ℕ))
    → bincode.deserialize_codons [] ≡ none
    → All (IsBlob bincode) inners
    → length inners < fuel
    → scan_complement_from bincode fuel (blobs inners ++ zeros n) pos ≡ pos + length (blobs inners)
scan_complement-blobs bincode zero n pos inners e r f = absurd (omega arith)
scan_complement-blobs bincode (suc fuel) n pos [] e r f =
    scan_complement-zeros bincode fuel n pos e ∙ omega arith
scan_complement-blobs bincode (suc fuel) n pos (inner ∷ rest) e r f =
    rw
      (
        append_assoc (blob inner) (blobs rest) (zeros n),
        scan_complement-blob bincode fuel pos inner (blobs rest ++ zeros n) r.0,
        scan_complement-blobs bincode fuel n (pos + (4 + length inner)) rest e r.1 (omega arith),
      )
      (omega (arith, length-append (blob inner) (blobs rest), length-blob inner))

blobs_long : (inners : List (List ℕ)) → length inners ≤ length (blobs inners)
blobs_long [] = omega arith
blobs_long (inner ∷ rest) =
    omega (arith, blobs_long rest, length-append (blob inner) (blobs rest), length-blob inner)

pub scan_complement_tail-blobs :
    (bincode : Bincode) (n : ℕ) (inners : List (List ℕ))
    → bincode.deserialize_codons [] ≡ none
    → All (IsBlob bincode) inners
    → scan_complement_tail bincode (blobs inners ++ zeros n) ≡ length (blobs inners)
unfolding scan_complement_tail
scan_complement_tail-blobs bincode n inners e r =
    scan_complement-blobs bincode (suc (length (blobs inners ++ zeros n))) n 0 inners e r
      (omega (arith, blobs_long inners, length-append (blobs inners) (zeros n)))
    ∙ omega arith
