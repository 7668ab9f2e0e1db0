-- ===== src/Storage/Rounds.antt =====
-- engine/src/storage.rs: the scans of a start end by themselves, on any bytes.
use dna_db.Prelude.{
  ℕ, zero, suc, ◌+◌, ◌≤◌, ◌<◌, ◌≡◌, ◌≢◌, List, length, take, drop, arith, length-drop,
  from_le_bytes, inl, inr, max, nat_eq, list_eq,
}
use dna_db.Prelude.Results.{ok, err, Result-cases}
use dna_db.Model.{Strand}
use dna_db.Codec.{Bincode, out_of_fuel, decode_strand, decode_strand_with_len}
use dna_db.Storage.{
  scan_strands_from, scan_strands_tail, scan_complement_from, scan_complement_tail,
}

decode_strand_ends :
    (bincode : Bincode) (bytes : List ℕ) → decode_strand bincode bytes ≢ err out_of_fuel
unfolding decode_strand
decode_strand_ends bincode bytes e = ground arith

with_len_ends :
    (bincode : Bincode) (bytes : List ℕ) → decode_strand_with_len bincode bytes ≢ err out_of_fuel
unfolding decode_strand_with_len
with_len_ends bincode bytes e = ground (arith, decode_strand_ends bincode bytes)

with_len_long :
    (bincode : Bincode) (bytes : List ℕ) (strand : Strand) (len : ℕ)
    → decode_strand_with_len bincode bytes ≡ ok (strand, len)
    → 6 ≤ len
unfolding decode_strand_with_len
with_len_long bincode bytes strand len e = ground arith

-- The loop has as many rounds as it takes.
scan_strands_ends :
    (bincode : Bincode) (fuel : ℕ) (bytes : List ℕ) (pos m : ℕ)
    → length bytes < fuel
    → scan_strands_from bincode fuel bytes pos m ≢ err out_of_fuel
unfolding scan_strands_from
scan_strands_ends bincode zero bytes pos m h e = absurd (omega arith)
scan_strands_ends bincode (suc fuel) bytes pos m h e =
    elim (Result-cases (decode_strand_with_len bincode bytes)) [
      | inl ((strand, len), q) ↦ ground (
        arith,
        q,
        e,
        with_len_long bincode bytes strand len q,
        length-drop len bytes,
        scan_strands_ends bincode fuel (drop len bytes) (pos + len) (max m strand.version),
      )
      | inr (x, q) ↦ ground (arith, q, e, with_len_ends bincode bytes)
    ]

-- On any bytes the scan of the strand file ends: it never runs out of rounds.
pub scan_strands_tail_ends :
    (bincode : Bincode) (bytes : List ℕ) → scan_strands_tail bincode bytes ≢ err out_of_fuel
unfolding scan_strands_tail
scan_strands_tail_ends bincode bytes =
    scan_strands_ends bincode (suc (length bytes)) bytes 0 0 (omega arith)

-- More rounds than the bytes need change nothing.
scan_complement_rounds :
    (bincode : Bincode) (fuel more : ℕ) (bytes : List ℕ) (pos : ℕ)
    → length bytes < fuel
    → length bytes < more
    → scan_complement_from bincode fuel bytes pos ≡ scan_complement_from bincode more bytes pos
unfolding scan_complement_from
scan_complement_rounds bincode zero more bytes pos h k = absurd (omega arith)
scan_complement_rounds bincode (suc fuel) zero bytes pos h k = absurd (omega arith)
scan_complement_rounds bincode (suc fuel) (suc more) bytes pos h k =
    let len = from_le_bytes (take 4 bytes) in
    ground (
      arith,
      length-drop (4 + len) bytes,
      scan_complement_rounds bincode fuel more (drop (4 + len) bytes) (pos + (4 + len)),
    )

pub scan_complement_tail_rounds :
    (bincode : Bincode) (fuel : ℕ) (bytes : List ℕ)
    → length bytes < fuel
    → scan_complement_from bincode fuel bytes 0 ≡ scan_complement_tail bincode bytes
unfolding scan_complement_tail
scan_complement_tail_rounds bincode fuel bytes h =
    scan_complement_rounds bincode fuel (suc (length bytes)) bytes 0 h (omega arith)
