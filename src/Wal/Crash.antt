-- ===== src/Wal/Crash.antt =====
-- engine/src/wal.rs: files that are torn within a frame.
use dna_db.Prelude.{
  ℕ, zero, suc, ◌+◌, ◌%◌, ◌^◌, ◌≤◌, ◌<◌, ◌≡◌, ap, ◌∙◌, Option, List, [], ◌∷◌, ◌++◌, length, All,
  arith, u32_max, length-append, to_le_bytes, read_exact-append, read_exact_short,
  length-to_le_bytes, from_le_bytes-to_le_bytes,
}
use dna_db.Wal.Log.{opened, open-torn, scan_file-header, initialize_and_scan_full}
use mathlib.Core.List.{append_assoc}
use dna_db.Wal.{
  Wal, WalEntry, WalError, truncated_entry, Result, ok, err, ◌>>=◌, read_body, read_entries,
  scan_entries, frame, header, open_or_create, initialize_and_scan, scan_file,
}
use dna_db.Wal.Frames.{
  Fits, frames, last_sequence_of, scan_entries-frame, read_entries-frame, length-frames,
}

-- The reads of a body that is torn in its length, or in its payload.
read_body_torn :
    (payload part : List ℕ)
    → length payload ≤ u32_max
    → (length part < 4 → read_body part ≡ err truncated_entry)
      × (length part < length payload
          → read_body (to_le_bytes 4 (length payload) ++ part) ≡ err truncated_entry)
unfolding read_body
read_body_torn payload part h = (
  (λ short. ground (arith, read_exact_short 4 part short)),
  (λ short. ground (
    arith,
    read_exact-append 4 (to_le_bytes 4 (length payload)) part
        (length-to_le_bytes 4 (length payload)),
    from_le_bytes-to_le_bytes 4 (length payload) (omega arith),
    read_exact_short (length payload) part short,
  )),
)

torn_now :
    (fuel last seq : ℕ) (body : List ℕ)
    → read_body body ≡ err truncated_entry
    → (scan_entries (suc fuel) (to_le_bytes 8 seq ++ body) last ≡ err truncated_entry)
      × (read_entries (suc fuel) (to_le_bytes 8 seq ++ body) ≡ err truncated_entry)
unfolding scan_entries read_entries
torn_now fuel last seq body b =
    let read = read_exact-append 8 (to_le_bytes 8 seq) body (length-to_le_bytes 8 seq) in
    (ground (arith, read, b), ground (arith, read, b))

-- Behind whole frames and a whole sequence, the scan ends as the read of the body does.
scan_entries-torn :
    (entries : List WalEntry) (fuel last : ℕ) (seq : ℕ) (body : List ℕ)
    → All Fits entries
    → length entries < fuel
    → read_body body ≡ err truncated_entry
    → (scan_entries fuel (frames entries ++ (to_le_bytes 8 seq ++ body)) last ≡ err truncated_entry)
      × (read_entries fuel (frames entries ++ (to_le_bytes 8 seq ++ body)) ≡ err truncated_entry)
scan_entries-torn [] zero last seq body h f b = absurd (omega arith)
scan_entries-torn [] (suc fuel) last seq body h f b = torn_now fuel last seq body b
scan_entries-torn (e ∷ es) zero last seq body h f b = absurd (omega arith)
scan_entries-torn (e ∷ es) (suc fuel) last seq body h f b =
    let next = scan_entries-torn es fuel e.sequence seq body h.1 (omega arith) b in
    let tail = frames es ++ (to_le_bytes 8 seq ++ body) in
    (
      ap (λ bytes. scan_entries (suc fuel) bytes last) (append_assoc (frame e) (frames es) _)
          ∙ scan_entries-frame fuel last e tail h.0
          ∙ next.0,
      ap (λ bytes. read_entries (suc fuel) bytes) (append_assoc (frame e) (frames es) _)
          ∙ read_entries-frame fuel e tail h.0
          ∙ ap (λ r. r >>= λ entries. ok (e ∷ entries)) next.1,
    )

open-err :
    (bytes : List ℕ) (hint : Option ℕ) (e : WalError)
    → scan_entries (suc (length (header ++ bytes))) bytes 0 ≡ err e
    → open_or_create (record { bytes = header ++ bytes; next_sequence_hint = hint }) ≡ err e
unfolding open_or_create
open-err bytes hint e q =
    let scanned : scan_file (header ++ bytes) ≡ err e =
      scan_file-header bytes ∙ ap (λ (r : Result ℕ). r >>= λ last. ok ((last + 1) % 2 ^ 64)) q in
    let initialized : initialize_and_scan (header ++ bytes) ≡ err e =
      initialize_and_scan_full bytes
      ∙ ap (λ (r : Result ℕ). r >>= λ next. ok (header ++ bytes, next)) scanned in
    ap (λ (r : Result (List ℕ × ℕ)). r >>= λ x. ok (opened x.0 hint x.1)) initialized

open-Torn_body :
    (entries : List WalEntry) (seq : ℕ) (body : List ℕ) (hint : Option ℕ)
    → All Fits entries
    → read_body body ≡ err truncated_entry
    → open_or_create (record {
      bytes = header ++ (frames entries ++ (to_le_bytes 8 seq ++ body));
      next_sequence_hint = hint;
    })
      ≡ err truncated_entry
open-Torn_body entries seq body hint h b =
    let tail = to_le_bytes 8 seq ++ body in
    let enough : length entries < suc (length (header ++ (frames entries ++ tail))) = omega (
      arith,
      length-frames entries,
      length-append header (frames entries ++ tail),
      length-append (frames entries) tail,
    ) in
    open-err (frames entries ++ tail) hint truncated_entry
      (scan_entries-torn entries _ 0 seq body h enough b).0

-- A frame of `entry`, torn in one of the three writes of `append`: the sequence, the length, the payload.
pub data Torn (entry : WalEntry) : List ℕ → Type 0 where
  in_sequence : (part : List ℕ) → length part < 8 → Torn entry part
  in_length : (part : List ℕ) → length part < 4 → Torn entry (to_le_bytes 8 entry.sequence ++ part)
  in_payload :
      (part : List ℕ)
      → length part < length entry.payload
      → Torn entry (to_le_bytes 8 entry.sequence ++ (to_le_bytes 4 (length entry.payload) ++ part))

-- What a start does with a file that ends in a torn frame: it passes over a torn sequence, and
-- refuses any other.
abbrev pub start :
    (entry : WalEntry) (tail : List ℕ) → Torn entry tail → List WalEntry → Option ℕ → Result Wal
start entry tail (in_sequence part h) entries hint =
    ok (opened (header ++ (frames entries ++ part)) hint (last_sequence_of 0 entries + 1))
start entry tail (in_length part h) entries hint = err truncated_entry
start entry tail (in_payload part h) entries hint = err truncated_entry

-- Opening a file that a crash cut within the last frame: with the cut in the sequence the log opens
-- with the entries before it, and the cut bytes stay in the file; with the cut behind the sequence
-- the start fails with `TruncatedEntry`.
pub open-Torn :
    (entries : List WalEntry) (entry : WalEntry) (tail : List ℕ) (hint : Option ℕ)
    → All Fits entries
    → Fits entry
    → last_sequence_of 0 entries + 1 < 2 ^ 64
    → (torn : Torn entry tail)
    → open_or_create
        (record { bytes = header ++ (frames entries ++ tail); next_sequence_hint = hint })
      ≡ start entry tail torn entries hint
open-Torn entries entry tail hint h fits bound (in_sequence part short) =
    open-torn entries part hint h short bound
open-Torn entries entry tail hint h fits bound (in_length part short) =
    open-Torn_body entries entry.sequence part hint h
      ((read_body_torn entry.payload part fits.1).0 short)
open-Torn entries entry tail hint h fits bound (in_payload part short) =
    open-Torn_body entries entry.sequence (to_le_bytes 4 (length entry.payload) ++ part) hint h
      ((read_body_torn entry.payload part fits.1).1 short)
