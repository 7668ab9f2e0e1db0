-- ===== src/Wal/Tests.antt =====
-- Runs of engine/src/wal.rs, and its theorems at concrete logs.
use dna_db.Prelude.{
  ◌≡◌, refl, none, some, List, [], ◌∷◌, ◌++◌, to_le_bytes, from_le_bytes, read_exact, arith,
}
use dna_db.Wal.{
  Wal, Disk, WalEntry, truncated_entry, Result, ok, err, ◌>>=◌, header, append, open_or_create,
  read_all_entries, read_entries, initialize_and_scan, scan_file, scan_entries, read_body, frame,
}
use dna_db.Wal.Frames.{frames}
use dna_db.Wal.Refinement.{LogOp, append_entry, truncate, restart, run, run-refines}
use dna_db.Wal.Crash.{open-Torn, in_payload}

abbrev entry : WalEntry
entry = record { sequence = 1; payload = 42 ∷ 43 ∷ [] }

-- One byte of a sequence that a crash left behind the first frame.
abbrev torn_disk : Disk
torn_disk = record { bytes = header ++ (frame entry ++ (2 ∷ [])); next_sequence_hint = none }

abbrev reopened : Result (List WalEntry)
reopened = open_or_create torn_disk >>= read_all_entries

abbrev appended : Result (List WalEntry)
appended = do
  wal ← open_or_create torn_disk
  (sequence, wal') ← append wal (7 ∷ [])
  read_all_entries wal'

-- The log opens, and reads its entry.
torn_log_opens : reopened ≡ ok (entry ∷ [])
unfolding open_or_create initialize_and_scan scan_file scan_entries read_body frame to_le_bytes
    from_le_bytes read_exact read_all_entries read_entries
torn_log_opens = refl

-- The entry that is then appended, and reported as written, makes the log unreadable.
append_behind_torn_bytes : appended ≡ err truncated_entry
unfolding open_or_create initialize_and_scan scan_file scan_entries read_body frame to_le_bytes
    from_le_bytes read_exact read_all_entries read_entries append
append_behind_torn_bytes = refl

abbrev ops : List LogOp
ops = append_entry (7 ∷ []) ∷ truncate ∷ append_entry (8 ∷ 9 ∷ []) ∷ restart ∷ []

run-refines_example :
    (wal : Wal) × ((open_or_create (record { bytes = []; next_sequence_hint = some 5 }) >>= run ops)
      ≡ ok wal)
    × (read_all_entries wal ≡ ok ((record { sequence = 6; payload = 8 ∷ 9 ∷ [] }) ∷ []))
    × (wal.next_sequence ≡ 7)
run-refines_example = run-refines (some 5) ops (omega arith, (omega arith, tt)) (omega arith)

open-Torn_example :
    open_or_create (record {
      bytes = header ++ (frames (entry ∷ []) ++ (to_le_bytes 8 2 ++ (to_le_bytes 4 2 ++ (9 ∷ []))));
      next_sequence_hint = none;
    })
    ≡ err truncated_entry
open-Torn_example =
    open-Torn (entry ∷ []) (record { sequence = 2; payload = 9 ∷ 9 ∷ [] }) _ none
      ((omega arith, omega arith), tt) (omega arith, omega arith) (omega arith)
      (in_payload (9 ∷ []) (omega arith))
