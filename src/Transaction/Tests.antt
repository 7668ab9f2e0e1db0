-- ===== src/Transaction/Tests.antt =====
-- Runs of engine/src/transaction.rs, and its theorems at concrete managers.
use dna_db.Prelude.{saturating_add, ℕ, ◌≡◌, refl, inr, List, [], ◌∷◌, arith}
use dna_db.Prelude.Map.{get, insert, remove}
use dna_db.Mvcc.{insert_version, latest_ts, new}
use dna_db.Transaction.{
  upsert_op, active, Transaction, TransactionManager, new_manager, begin, upsert, commit,
  commit_state, read, err, ok, write_write_conflict, compact_versions_with_floor, committed,
}
use dna_db.Transaction.Invariant.{
  IsValid, Call, begins, commits, compacts, run, step, run-new-IsValid,
}
use dna_db.Transaction.Commit.{first_committer_wins, read_after_commit}
use dna_db.Transaction.Reclaim.{read-compact}
use dna_db.Transaction.Snapshot.{IsOpen, run-read}

-- A manager in which transaction 1 has written the number 10 to record 77.
abbrev seeded : List (Call ℕ)
seeded = begins ∷ commits (upsert (begin (new_manager {R = ℕ})).0 77 10) ∷ []

abbrev manager : TransactionManager ℕ
manager = run new_manager seeded

abbrev writer : ℕ → ℕ → Transaction ℕ
writer id value = record {
  txn_id = id;
  snapshot_ts = 1;
  write_set = upsert_op 77 value ∷ [];
  status = active;
}

abbrev closed : ℕ → Transaction ℕ
closed id = record { txn_id = id; snapshot_ts = 1; write_set = []; status = committed }

writer_commits : commit manager (writer 2 20) ≡ ok (2, commit_state manager (writer 2 20), closed 2)
unfolding run step begin upsert new_manager commit get insert saturating_add insert_version
    latest_ts new
writer_commits = refl

clock_of_manager : manager.clock_ts ≡ 1
unfolding run step begin upsert new_manager commit get saturating_add
clock_of_manager = refl

run-new-IsValid_example : IsValid manager
run-new-IsValid_example = run-new-IsValid seeded

first_committer_wins_example :
    commit (commit_state manager (writer 2 20)) (writer 3 30) ≡ err write_write_conflict
first_committer_wins_example =
    first_committer_wins manager (commit_state manager (writer 2 20)) (writer 2 20) (closed 2)
      (writer 3 30) 2 77 (run-new-IsValid seeded) (omega (arith, clock_of_manager)) writer_commits
      (omega (arith, clock_of_manager)) refl refl refl

read_after_commit_example :
    read
      (begin (commit_state manager (writer 2 20))).1
      (begin (commit_state manager (writer 2 20))).0
      77
    ≡ read manager (writer 2 20) 77
read_after_commit_example =
    read_after_commit manager (commit_state manager (writer 2 20)) (writer 2 20) (closed 2) 2 77
      (run-new-IsValid seeded) writer_commits

read-compact_example :
    read (compact_versions_with_floor 1 manager) (writer 2 20) 77 ≡ read manager (writer 2 20) 77
read-compact_example =
    read-compact 1 manager (writer 2 20) 77 (run-new-IsValid seeded)
      (inr (omega (arith, clock_of_manager)))

-- Transaction 2 reads, and stays open.
abbrev reader : Transaction ℕ
reader = record { txn_id = 2; snapshot_ts = 1; write_set = []; status = active }

abbrev seeded_and_reader : List (Call ℕ)
seeded_and_reader = begins ∷ commits (upsert (begin (new_manager {R = ℕ})).0 77 10) ∷ begins ∷ []

abbrev with_reader : TransactionManager ℕ
with_reader = run new_manager seeded_and_reader

abbrev others : List (Call ℕ)
others = begins ∷ commits (writer 3 30) ∷ compacts 1 ∷ []

reader-IsOpen : IsOpen reader 3 with_reader
unfolding run step begin upsert new_manager commit get insert remove saturating_add
reader-IsOpen = record {
  valid = run-new-IsValid seeded_and_reader;
  listed = refl;
  issued = omega arith;
  room_for_ids = omega arith;
  room_for_clock = omega arith;
}

run-read_example : read (run with_reader others) reader 77 ≡ read with_reader reader 77
run-read_example = run-read reader with_reader others 77 reader-IsOpen (tt, (omega arith, (tt, tt)))
