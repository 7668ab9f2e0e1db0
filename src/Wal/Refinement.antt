-- ===== src/Wal/Refinement.antt =====
-- engine/src/wal.rs: the log against its abstract view, a list of entries and the next sequence.
use dna_db.Prelude.{
  ℕ, ◌+◌, ◌^◌, ◌≤◌, ◌<◌, ◌≡◌, refl, ap, ◌∙◌, Option, List, [], ◌∷◌, ◌++◌, length, arith, subst,
  unwrap_or, max, u32_max,
}
use dna_db.Wal.{
  Wal, WalEntry, Result, ok, ◌>>=◌, append, truncate_preserve_next_sequence, open_or_create,
  read_all_entries,
}
use dna_db.Wal.Log.{
  IsLog, open_empty-IsLog, reopen-IsLog, append-IsLog, truncate-IsLog, read_all-IsLog,
}

-- What the engine does with a log. `restart` drops the `Wal` and opens its files again.
pub data LogOp : Type 0 where
  append_entry : List ℕ → LogOp
  truncate restart : LogOp

unfoldable pub step : LogOp → Wal → Result Wal
step (append_entry payload) wal = do (sequence, wal') ← append wal payload; ok wal'
step truncate wal = ok (truncate_preserve_next_sequence wal)
step restart wal = open_or_create wal.disk

unfoldable pub run : List LogOp → Wal → Result Wal
run [] wal = ok wal
run (op ∷ ops) wal = step op wal >>= run ops

-- The abstract view.
pub record AbstractLog : Type 0 where
  pub entries : List WalEntry
  pub next : ℕ

abbrev pub abstract_step : LogOp → AbstractLog → AbstractLog
abstract_step (append_entry payload) log = record {
  entries = log.entries ++ (record { sequence = log.next; payload = payload } ∷ []);
  next = log.next + 1;
}
abstract_step truncate log = record { entries = []; next = log.next }
abstract_step restart log = log

abbrev pub abstract_run : List LogOp → AbstractLog → AbstractLog
abstract_run [] log = log
abstract_run (op ∷ ops) log = abstract_run ops (abstract_step op log)

-- Every payload's length is a `u32`.
abbrev pub SmallPayloads : List LogOp → Type 0
SmallPayloads [] = Unit {0}
SmallPayloads (append_entry payload ∷ ops) = (length payload ≤ u32_max) × SmallPayloads ops
SmallPayloads (truncate ∷ ops) = SmallPayloads ops
SmallPayloads (restart ∷ ops) = SmallPayloads ops

-- The log holds what the abstract one holds.
abbrev Shows : AbstractLog → Wal → Type 0
Shows log wal = IsLog wal log.entries × (wal.next_sequence ≡ log.next)

run-Shows :
    (ops : List LogOp) (wal : Wal) (log : AbstractLog)
    → Shows log wal
    → SmallPayloads ops
    → log.next + length ops < 2 ^ 64
    → (wal' : Wal) × (run ops wal ≡ ok wal') × Shows (abstract_run ops log) wal'
unfolding run step truncate_preserve_next_sequence
run-Shows [] wal log s small room = (wal, refl, s)
run-Shows (append_entry payload ∷ ops) wal log s small room =
    let (wal', done, grown, next) =
      append-IsLog wal log.entries payload s.0 small.0 (omega (arith, s.1)) in
    let (final, rest_done, shown) =
      run-Shows ops wal' (abstract_step (append_entry payload) log)
        (
          subst
              (λ (n : ℕ).
                IsLog wal' (log.entries ++ (record { sequence = n; payload = payload } ∷ [])))
              s.1 grown,
          omega (arith, next, s.1),
        )
        small.1 (omega arith) in
    (final, ground (arith, done, rest_done), shown)
run-Shows (truncate ∷ ops) wal log s small room =
    run-Shows ops (truncate_preserve_next_sequence wal) (abstract_step truncate log)
      (truncate-IsLog wal log.entries s.0, omega (arith, s.1, s.0.next)) small (omega arith)
run-Shows (restart ∷ ops) wal log s small room =
    let (wal', done, shown) = run-Shows ops wal log s small (omega arith) in
    (wal', ap (λ r. r >>= run ops) (reopen-IsLog wal log.entries s.0) ∙ done, shown)

-- From an empty file, with any sidecar: appends, truncations and restarts in any order and number
-- succeed, what the log then reads back is the list of the entries appended since the last
-- truncation, with their sequences, and the next sequence is one above all that were ever given out.
-- The payloads' lengths are `u32`s, and the sequences stay `u64`s.
pub run-refines :
    (hint : Option ℕ) (ops : List LogOp)
    → SmallPayloads ops
    → unwrap_or hint 1 + length ops + 1 < 2 ^ 64
    → let log = abstract_run ops (record { entries = []; next = max 1 (unwrap_or hint 1) }) in
      (wal : Wal) × ((open_or_create (record { bytes = []; next_sequence_hint = hint }) >>= run ops)
        ≡ ok wal)
      × (read_all_entries wal ≡ ok log.entries)
      × (wal.next_sequence ≡ log.next)
run-refines hint ops small room =
    let (start, opened, empty, next) = open_empty-IsLog hint (omega arith) in
    let log : AbstractLog = record { entries = []; next = max 1 (unwrap_or hint 1) } in
    let (wal, done, shown) = run-Shows ops start log (empty, next) small (omega arith) in
    (
      wal,
      ap (λ r. r >>= run ops) opened ∙ done,
      read_all-IsLog wal (abstract_run ops log).entries shown.0,
      shown.1,
    )
