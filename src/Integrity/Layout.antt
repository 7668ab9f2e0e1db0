-- ===== src/Integrity/Layout.antt =====
-- engine/src/integrity.rs: the bytes of checksum entries, and what a round of their decoding reads.
use dna_db.Prelude.{
  ℕ, zero, suc, ◌*◌, ◌^◌, ◌≤◌, ◌<◌, ◌≡◌, refl, sym, ap, ◌∙◌, List, [], ◌∷◌, ◌++◌, length, take,
  drop, All, arith, length-append, to_le_bytes, nat_eq, from_le_bytes-to_le_bytes,
}
use mathlib.Core.List.{append_assoc, append-nil}
use dna_db.Prelude.Map.{Map, insert}
use dna_db.Integrity.{encode_crc_entry, decode_entries_from}

-- A sequence and its checksum.
abbrev pub Entry : Type 0
Entry = ℕ × ℕ

abbrev pub Fits : Entry → Type 0
Fits e = (e.0 < 2 ^ 64) × (e.1 < 2 ^ 32)

abbrev pub entries : List Entry → List ℕ
entries [] = []
entries (e ∷ es) = encode_crc_entry e.0 e.1 ++ entries es

abbrev pub inserted : List Entry → Map ℕ ℕ → Map ℕ ℕ
inserted [] out = out
inserted (e ∷ es) out = inserted es (insert e.0 e.1 out)

pub length-entry : (e : Entry) → length (encode_crc_entry e.0 e.1) ≡ 12
unfolding encode_crc_entry to_le_bytes
length-entry e = refl

entry_parts :
    (e : Entry) (rest : List ℕ)
    → (take 8 (encode_crc_entry e.0 e.1 ++ rest) ≡ to_le_bytes 8 e.0)
      × (take 4 (drop 8 (encode_crc_entry e.0 e.1 ++ rest)) ≡ to_le_bytes 4 e.1)
      × (drop 12 (encode_crc_entry e.0 e.1 ++ rest) ≡ rest)
unfolding encode_crc_entry to_le_bytes
entry_parts e rest = (refl, refl, refl)

decode_entries-entry :
    (fuel : ℕ) (e : Entry) (rest : List ℕ) (out : Map ℕ ℕ)
    → Fits e
    → decode_entries_from (suc fuel) (encode_crc_entry e.0 e.1 ++ rest) out
      ≡ decode_entries_from fuel rest (insert e.0 e.1 out)
unfolding decode_entries_from
decode_entries-entry fuel e rest out fits = ground (
  arith,
  (entry_parts e rest).0,
  (entry_parts e rest).1,
  (entry_parts e rest).2,
  length-append (encode_crc_entry e.0 e.1) rest,
  length-entry e,
  from_le_bytes-to_le_bytes 8 e.0 fits.0,
  from_le_bytes-to_le_bytes 4 e.1 fits.1,
)

decode_entries_short :
    (fuel : ℕ) (tail : List ℕ) (out : Map ℕ ℕ)
    → length tail < 12
    → decode_entries_from fuel tail out ≡ out
unfolding decode_entries_from
decode_entries_short zero tail out h = refl
decode_entries_short (suc fuel) tail out h = ground arith

pub decode_entries-entries :
    (fuel : ℕ) (es : List Entry) (tail : List ℕ) (out : Map ℕ ℕ)
    → All Fits es
    → length tail < 12
    → length es ≤ fuel
    → decode_entries_from fuel (entries es ++ tail) out ≡ inserted es out
decode_entries-entries fuel [] tail out fits short f = decode_entries_short fuel tail out short
decode_entries-entries zero (e ∷ es) tail out fits short f = absurd (omega arith)
decode_entries-entries (suc fuel) (e ∷ es) tail out fits short f =
    rw
      (
        append_assoc (encode_crc_entry e.0 e.1) (entries es) tail,
        decode_entries-entry fuel e (entries es ++ tail) out fits.0,
        decode_entries-entries fuel es tail (insert e.0 e.1 out) fits.1 short (omega arith),
      )
      refl

pub length-entries : (es : List Entry) → length (entries es) ≡ 12 * length es
length-entries [] = omega arith
length-entries (e ∷ es) = omega (
  arith,
  length-append (encode_crc_entry e.0 e.1) (entries es),
  length-entry e,
  length-entries es,
)

pub entries-append :
    (es : List Entry) (e : Entry)
    → entries (es ++ (e ∷ [])) ≡ entries es ++ encode_crc_entry e.0 e.1
entries-append [] e = append-nil (encode_crc_entry e.0 e.1)
entries-append (d ∷ es) e =
    ap (◌++◌ (encode_crc_entry d.0 d.1)) (entries-append es e)
    ∙ sym (append_assoc (encode_crc_entry d.0 d.1) (entries es) (encode_crc_entry e.0 e.1))

pub inserted-append :
    (es : List Entry) (e : Entry) (out : Map ℕ ℕ)
    → inserted (es ++ (e ∷ [])) out ≡ insert e.0 e.1 (inserted es out)
inserted-append [] e out = refl
inserted-append (d ∷ es) e out = inserted-append es e (insert d.0 d.1 out)
