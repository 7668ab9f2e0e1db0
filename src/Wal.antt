-- ===== src/Wal.antt =====
-- engine/src/wal.rs: the write-ahead log as the bytes of its file. The files are in the model; an
-- operation of the operating system on them succeeds, but for a read past the end.
pub mod Frames
pub mod Log
pub mod Crash
pub mod Rounds
pub mod Refinement
mod Tests
use dna_db.Prelude.{
  ℕ, zero, suc, ◌+◌, ◌%◌, ◌^◌, Bool, Option, none, some, List, [], ◌∷◌, ◌++◌, length, take, drop,
  retain, unwrap_or, max, ltb, leb, u32_max, ◌==◌, nat_eq, list_eq, if◌then◌else◌, to_le_bytes,
  from_le_bytes, read_exact,
}

-- *b"DWAL"
abbrev pub wal_magic : List ℕ
wal_magic = 68 ∷ 87 ∷ 65 ∷ 76 ∷ []

abbrev pub wal_version : ℕ
wal_version = 1

abbrev pub wal_header_size : ℕ
wal_header_size = 6

pub record WalEntry : Type 0 where
  pub sequence : ℕ
  pub payload : List ℕ

-- `unexpected_eof` is `Io` with that kind. `out_of_fuel` is no value of the source: a loop of the
-- model ran out of rounds.
pub data WalError : Type 0 where
  unexpected_eof invalid_magic truncated_entry out_of_fuel : WalError
  unsupported_version payload_too_large : ℕ → WalError

pub data Result {ℓ} (A : Type ℓ) : Type ℓ where
  ok : A → Result A
  err : WalError → Result A

infixl 5 ◌>>=◌
abbrev pub ◌>>=◌ {ℓ κ} : {A : Type ℓ} {B : Type κ} → Result A → (A → Result B) → Result B
ok a >>= f = f a
err e >>= f = err e

-- `read_exact(..)?`, where the end of the file is the error `e`.
abbrev pub or_error {ℓ} : {A : Type ℓ} → Option A → WalError → Result A
or_error none e = err e
or_error (some a) e = ok a

-- The two files of a log: the log itself, and what the text of the sidecar `*.wal.nextseq` parses to
-- (`none` where there is no such file, or its text is no `u64`).
pub record Disk : Type 0 where
  pub bytes : List ℕ
  pub next_sequence_hint : Option ℕ

pub record Wal : Type 0 where
  pub disk : Disk
  pub next_sequence : ℕ

abbrev pub header : List ℕ
header = wal_magic ++ to_le_bytes 2 wal_version

-- The three writes of `append`.
unfoldable pub frame : WalEntry → List ℕ
frame e = to_le_bytes 8 e.sequence ++ (to_le_bytes 4 (length e.payload) ++ e.payload)

-- The reads of one round behind the sequence: length and payload, and the bytes that are left.
unfoldable pub read_body : List ℕ → Result (List ℕ × List ℕ)
read_body bytes = do
  (len_buf, rest) ← or_error (read_exact 4 bytes) truncated_entry
  or_error (read_exact (from_le_bytes len_buf) rest) truncated_entry

-- The loop of `read_all_entries`. A round takes 12 bytes at least.
unfoldable pub read_entries : ℕ → List ℕ → Result (List WalEntry)
read_entries zero bytes = err out_of_fuel
read_entries (suc fuel) bytes = elim (read_exact 8 bytes) [
  | none ↦ ok []
  | some (seq_buf, rest) ↦ do
    (payload, left) ← read_body rest
    entries ← read_entries fuel left
    ok ((record { sequence = from_le_bytes seq_buf; payload = payload }) ∷ entries)
]

unfoldable pub read_all_entries : Wal → Result (List WalEntry)
unfolding read_entries read_body
read_all_entries wal =
    read_entries (suc (length wal.disk.bytes)) (drop wal_header_size wal.disk.bytes)

abbrev pub truncated : Option ℕ → List WalEntry → List WalEntry
truncated none entries = entries
truncated (some max') entries = take max' entries

unfoldable pub read_entries_from : Wal → ℕ → Option ℕ → Result (List WalEntry)
unfolding read_all_entries
read_entries_from wal from_sequence limit = do
  entries ← read_all_entries wal
  ok (truncated limit (retain (λ e. leb from_sequence e.sequence) entries))

-- The loop of `initialize_and_scan`.
unfoldable pub scan_entries : ℕ → List ℕ → ℕ → Result ℕ
scan_entries zero bytes last_sequence = err out_of_fuel
scan_entries (suc fuel) bytes last_sequence = elim (read_exact 8 bytes) [
  | none ↦ ok last_sequence
  | some (seq_buf, rest) ↦ do
    (discard, left) ← read_body rest
    scan_entries fuel left (from_le_bytes seq_buf)
]

-- The checks of `initialize_and_scan` on a file that is not empty, and the scan; `+ 1` is of a `u64`.
unfoldable pub scan_file : List ℕ → Result ℕ
unfolding scan_entries read_body
scan_file bytes = do
  (magic, rest) ← or_error (read_exact 4 bytes) unexpected_eof
  if magic == wal_magic
      then (do
        (version_buf, entries) ← or_error (read_exact 2 rest) unexpected_eof
        let version = from_le_bytes version_buf
        if version == wal_version
            then (do
              last_sequence ← scan_entries (suc (length bytes)) entries 0
              ok ((last_sequence + 1) % 2 ^ 64))
            else err (unsupported_version version))
      else err invalid_magic

-- The file after it, and the next sequence that it finds.
unfoldable pub initialize_and_scan : List ℕ → Result (List ℕ × ℕ)
unfolding scan_file
initialize_and_scan bytes =
    if length bytes == 0 then ok (header, 1) else do scanned ← scan_file bytes; ok (bytes, scanned)

unfoldable pub open_or_create : Disk → Result Wal
unfolding initialize_and_scan
open_or_create disk = do
  (bytes, scanned_next_sequence) ← initialize_and_scan disk.bytes
  ok (record {
    disk = record disk { bytes = bytes };
    next_sequence = max scanned_next_sequence (unwrap_or disk.next_sequence_hint 1);
  })

-- The sequence of the new entry, and the log.
unfoldable pub append : Wal → List ℕ → Result (ℕ × Wal)
unfolding frame
append wal payload =
    if ltb u32_max (length payload)
    then err (payload_too_large (length payload))
    else let sequence = wal.next_sequence in
      let entry : WalEntry = record { sequence = sequence; payload = payload } in
      ok (
        sequence,
        record {
          disk = record wal.disk { bytes = wal.disk.bytes ++ frame entry };
          next_sequence = (sequence + 1) % 2 ^ 64;
        },
      )

unfoldable pub truncate_preserve_next_sequence : Wal → Wal
truncate_preserve_next_sequence wal =
    let keep_next = max wal.next_sequence 1 in
    record {
      disk = record { bytes = header; next_sequence_hint = some keep_next };
      next_sequence = keep_next;
    }
