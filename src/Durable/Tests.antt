-- ===== src/Durable/Tests.antt =====
-- The theorems on engine/src/transaction_durable.rs for one commit in a new store.
use dna_db.Prelude.{
  ℕ, zero, suc, ◌≡◌, refl, subst, ap, ◌∙◌, false, Option, none, some, List, [], ◌∷◌, arith,
}
use dna_db.Prelude.Results.{ok}
use dna_db.Wal.{Wal, append, ok as wal_ok}
use dna_db.Wal.Log.{IsLog, open_empty-IsLog, append-IsLog}
use dna_db.Storage.{CollectionStorage}
use dna_db.Transaction.{
  Transaction, TransactionManager, WriteOp, upsert_op, active, begin, new_manager, can_commit,
  commit, ok as txn_ok,
}
use dna_db.Transaction.Invariant.{IsValid-new, IsValid-begin}
use dna_db.Transaction.Replayed.{
  latest_row, latest_row-new, begun_row, single-commit, single-can_commit, first_transaction,
}
use dna_db.Processor.{process_wal_entry_with_mode}
use dna_db.Processor.Sample.{cpu, payload, compute_crc32, clock, codec, empty, one_strand}
use dna_db.Durable.{
  DurableTransactionStore, DurableOpPayload, upsert_payload, delete_payload, OpJson,
  replay_wal_to_mvcc, commit_inner, log_and_publish, publish, log_ops, log_op, log_payload,
  materialize, durable_payload_from_write_op,
}
use dna_db.Durable.Restart.{IsRead, IsDurable, commit_inner-IsDurable, replay-IsDurable}

-- Rows are numbers, and an operation is written as four numbers or three.
abbrev write : DurableOpPayload ℕ → Option (List ℕ)
write (upsert_payload txn id row) = some (0 ∷ txn ∷ id ∷ row ∷ [])
write (delete_payload txn id) = some (1 ∷ txn ∷ id ∷ [])

abbrev read_back : List ℕ → Option (DurableOpPayload ℕ)
read_back (zero ∷ txn ∷ id ∷ row ∷ []) = some (upsert_payload txn id row)
read_back (suc k ∷ txn ∷ id ∷ []) = some (delete_payload txn id)
read_back _ = none

abbrev json : OpJson ℕ
json = record { to_vec = write; from_slice = read_back }

abbrev op : WriteOp ℕ
op = upsert_op 5 9

op-IsRead : IsRead json 1 op
op-IsRead bytes q =
    let same : 0 ∷ 1 ∷ 5 ∷ 9 ∷ [] ≡ bytes = cc q in
    subst (λ b. read_back b ≡ some (upsert_payload 1 5 9)) same refl

abbrev txn : Transaction ℕ
txn = record { txn_id = 1; snapshot_ts = 0; write_set = op ∷ []; status = active }

new_log : (log : Wal) × IsLog log [] × (log.next_sequence ≡ 1)
new_log =
    let (log, opened, is_log, next) = open_empty-IsLog none (omega arith) in
    (log, is_log, omega (arith, next))

abbrev store : DurableTransactionStore ℕ
store = record {
  tx_manager = (begin new_manager).1;
  wal = new_log.0;
  storage = empty;
  collection_id = 1;
  pending_deferred_storage_sync = false;
}

store-IsDurable : IsDurable json store []
store-IsDurable = record {
  entries = [];
  is_log = new_log.1;
  logs = tt;
  rows =
      (IsValid-begin new_manager IsValid-new, λ id. begun_row new_manager id ∙ latest_row-new id);
}

-- The commit, where the log and the files take the entry.
commits_at :
    (log : Wal) (files : CollectionStorage) (ts : ℕ) (m : TransactionManager ℕ)
    (txn' : Transaction ℕ)
    → append store.wal payload ≡ wal_ok (1, log)
    → process_wal_entry_with_mode cpu compute_crc32 codec 5 empty 1 1 payload ≡ (files, ok tt)
    → can_commit (begin new_manager).1 txn ≡ txn_ok tt
    → commit (begin new_manager).1 txn ≡ txn_ok (ts, m, txn')
    → commit_inner json cpu compute_crc32 codec clock store txn false
      ≡ ((record store { tx_manager = m; wal = log; storage = files }, txn'), ok ts)
unfolding commit_inner log_and_publish publish log_ops log_op log_payload materialize
    durable_payload_from_write_op
commits_at log files ts m txn' e1 e2 e3 e4 = ground (arith, e1, e2, e3, e4)

committed :
    (store' : DurableTransactionStore ℕ) × (txn' : Transaction ℕ) × (ts : ℕ) × (commit_inner json
        cpu compute_crc32 codec clock store txn false
      ≡ ((store', txn'), ok ts))
committed =
    let (log, logged, has_entry, after) =
      append-IsLog new_log.0 [] payload new_log.1 (omega arith) (omega (arith, new_log.2)) in
    let (files, done, stored) = one_strand in
    let (m, ts, txn', commits, valid, rows) = single-commit new_manager op IsValid-new in
    let same = first_transaction op in
    (
      record store { tx_manager = m; wal = log; storage = files },
      txn',
      ts,
      commits_at log files ts m txn' (logged ∙ ap (λ n. wal_ok (n, log)) new_log.2) done
          (subst (λ t. can_commit (begin new_manager).1 t ≡ txn_ok tt) same
            (single-can_commit new_manager op IsValid-new))
          (subst (λ t. commit (begin new_manager).1 t ≡ txn_ok (ts, m, txn')) same commits),
    )

commit_inner-IsDurable_example : IsDurable json committed.0 (op ∷ [])
commit_inner-IsDurable_example =
    commit_inner-IsDurable json cpu compute_crc32 codec clock store committed.0 txn committed.1
      false committed.2 [] (op-IsRead, tt) store-IsDurable committed.3 (omega (arith, new_log.2))

replay-IsDurable_example :
    (store' : DurableTransactionStore ℕ) × (replay_wal_to_mvcc json
        (record committed.0 { tx_manager = new_manager })
      ≡ ok store')
    × IsDurable json store' (op ∷ [])
    × ((id : ℕ) → latest_row store'.tx_manager id ≡ latest_row committed.0.tx_manager id)
replay-IsDurable_example = replay-IsDurable json committed.0 (op ∷ []) (
    commit_inner-IsDurable json cpu compute_crc32 codec clock store committed.0 txn committed.1
      false committed.2 [] (op-IsRead, tt) store-IsDurable committed.3 (omega (arith, new_log.2)))
