-- ===== src/Wal/Frames.antt =====
-- engine/src/wal.rs: reading back the frames that `append` writes.
use dna_db.Prelude.{
  ℕ, zero, suc, ◌*◌, ◌^◌, ◌≤◌, ◌<◌, ◌≡◌, refl, List, [], ◌∷◌, ◌++◌, length, All, arith, u32_max,
  length-append, to_le_bytes, length-to_le_bytes, from_le_bytes-to_le_bytes, read_exact-append,
  read_exact_short, ap, ◌∙◌,
}
use mathlib.Core.List.{append_assoc}
use dna_db.Wal.{WalEntry, ok, frame, read_body, read_entries, scan_entries, ◌>>=◌}

-- An entry whose sequence is a `u64` and whose length is a `u32`.
abbrev pub Fits : WalEntry → Type 0
Fits e = (e.sequence < 2 ^ 64) × (length e.payload ≤ u32_max)

abbrev pub frames : List WalEntry → List ℕ
frames [] = []
frames (e ∷ es) = frame e ++ frames es

read_body-frame :
    (payload rest : List ℕ)
    → length payload ≤ u32_max
    → read_body (to_le_bytes 4 (length payload) ++ (payload ++ rest)) ≡ ok (payload, rest)
unfolding read_body
read_body-frame payload rest h =
    rw
      (
        read_exact-append 4 (to_le_bytes 4 (length payload)) (payload ++ rest)
            (length-to_le_bytes 4 _),
        from_le_bytes-to_le_bytes 4 (length payload) (omega arith),
        read_exact-append (length payload) payload rest refl,
      )
      refl

-- The frame and what follows it, as the reads take them.
frame-append :
    (e : WalEntry) (rest : List ℕ)
    → frame e ++ rest
      ≡ to_le_bytes 8 e.sequence ++ (to_le_bytes 4 (length e.payload) ++ (e.payload ++ rest))
unfolding frame
frame-append e rest =
    append_assoc (to_le_bytes 8 e.sequence) _ rest
    ∙ ap (◌++◌ (to_le_bytes 8 e.sequence))
        (append_assoc (to_le_bytes 4 (length e.payload)) e.payload rest)

pub read_entries-frame :
    (fuel : ℕ) (e : WalEntry) (rest : List ℕ)
    → Fits e
    → read_entries (suc fuel) (frame e ++ rest)
      ≡ (read_entries fuel rest >>= λ entries. ok (e ∷ entries))
unfolding read_entries
read_entries-frame fuel e rest h = ground (
  arith,
  frame-append e rest,
  read_exact-append 8 (to_le_bytes 8 e.sequence)
      (to_le_bytes 4 (length e.payload) ++ (e.payload ++ rest)) (length-to_le_bytes 8 e.sequence),
  read_body-frame e.payload rest h.1,
  from_le_bytes-to_le_bytes 8 e.sequence h.0,
)

pub scan_entries-frame :
    (fuel last : ℕ) (e : WalEntry) (rest : List ℕ)
    → Fits e
    → scan_entries (suc fuel) (frame e ++ rest) last ≡ scan_entries fuel rest e.sequence
unfolding scan_entries
scan_entries-frame fuel last e rest h = ground (
  arith,
  frame-append e rest,
  read_exact-append 8 (to_le_bytes 8 e.sequence)
      (to_le_bytes 4 (length e.payload) ++ (e.payload ++ rest)) (length-to_le_bytes 8 e.sequence),
  read_body-frame e.payload rest h.1,
  from_le_bytes-to_le_bytes 8 e.sequence h.0,
)

frame_long : (e : WalEntry) → 12 ≤ length (frame e)
unfolding frame
frame_long e =
    rw
      (
        length-append (to_le_bytes 8 e.sequence) _,
        length-append (to_le_bytes 4 (length e.payload)) e.payload,
        length-to_le_bytes 8 e.sequence,
        length-to_le_bytes 4 (length e.payload),
      )
      (omega arith)

pub length-frames : (entries : List WalEntry) → 12 * length entries ≤ length (frames entries)
length-frames [] = omega arith
length-frames (e ∷ es) =
    omega (arith, length-append (frame e) (frames es), frame_long e, length-frames es)

read_entries_short :
    (fuel : ℕ) (rest : List ℕ) → length rest < 8 → read_entries (suc fuel) rest ≡ ok []
unfolding read_entries
read_entries_short fuel rest short = ground (arith, read_exact_short 8 rest short)

scan_entries_short :
    (fuel last : ℕ) (rest : List ℕ) → length rest < 8 → scan_entries (suc fuel) rest last ≡ ok last
unfolding scan_entries
scan_entries_short fuel last rest short = ground (arith, read_exact_short 8 rest short)

-- The entries are read back, and fewer than eight bytes behind them are passed over.
pub read_entries-frames :
    (fuel : ℕ) (entries : List WalEntry) (rest : List ℕ)
    → All Fits entries
    → length rest < 8
    → length entries < fuel
    → read_entries fuel (frames entries ++ rest) ≡ ok entries
read_entries-frames zero entries rest h short f = absurd (omega arith)
read_entries-frames (suc fuel) [] rest h short f = read_entries_short fuel rest short
read_entries-frames (suc fuel) (e ∷ es) rest h short f =
    rw
      (
        append_assoc (frame e) (frames es) rest,
        read_entries-frame fuel e (frames es ++ rest) h.0,
        read_entries-frames fuel es rest h.1 short (omega arith),
      )
      refl

-- The sequence of the last entry, or `last` where there is none.
abbrev pub last_sequence_of : ℕ → List WalEntry → ℕ
last_sequence_of last [] = last
last_sequence_of last (e ∷ es) = last_sequence_of e.sequence es

pub scan_entries-frames :
    (fuel last : ℕ) (entries : List WalEntry) (rest : List ℕ)
    → All Fits entries
    → length rest < 8
    → length entries < fuel
    → scan_entries fuel (frames entries ++ rest) last ≡ ok (last_sequence_of last entries)
scan_entries-frames zero last entries rest h short f = absurd (omega arith)
scan_entries-frames (suc fuel) last [] rest h short f = scan_entries_short fuel last rest short
scan_entries-frames (suc fuel) last (e ∷ es) rest h short f =
    rw
      (
        append_assoc (frame e) (frames es) rest,
        scan_entries-frame fuel last e (frames es ++ rest) h.0,
        scan_entries-frames fuel e.sequence es rest h.1 short (omega arith),
      )
      refl
