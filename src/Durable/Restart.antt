-- ===== src/Durable/Restart.antt =====
-- engine/src/transaction_durable.rs: what was committed is there after a restart.
use dna_db.Prelude.{
  ℕ, ◌+◌, ◌^◌, ◌<◌, ◌≡◌, refl, sym, ap, ◌∙◌, subst, Bool, none, some, List, [], ◌∷◌, ◌++◌, length,
  arith, All,
}
use mathlib.Core.List.{append_assoc, append-nil}
use dna_db.Prelude.Results.{Result, ok, attempt, and_then, attempt-eq-ok, and_then-eq-ok}
use dna_db.Encoding.{Cpu}
use dna_db.Codec.{Bincode}
use dna_db.Wal.{WalEntry}
use dna_db.Wal.Log.{IsLog, read_all-IsLog}
use dna_db.Transaction.{
  Transaction, TransactionManager, WriteOp, new_manager, can_commit, commit, ok as txn_ok,
  err as txn_err, Result as TxnResult,
}
use dna_db.Transaction.Invariant.{IsValid-new}
use dna_db.Transaction.Isolation.{after_ops}
use dna_db.Transaction.Replayed.{
  latest_row, latest_row-commit, latest_row-new, after_ops-append, commit-IsValid,
}
use dna_db.Durable.{
  DurableTransactionStore, DurableTxnError, OpJson, payload_of, of_txn, with_txn, log_ops, log_op,
  publish, log_and_publish, commit_inner, replay_wal_to_mvcc, replay_entries,
}
use dna_db.Durable.Replay.{Logs, Rows, replay_entries-Rows}
use dna_db.Durable.Log.{log_op-eq-ok, appended-IsLog}

of_txn-eq-ok : {A : Type 0} (r : TxnResult A) {a : A} → of_txn r ≡ ok a → r ≡ txn_ok a
of_txn-eq-ok (txn_ok b) q = let same : b ≡ _ = cc q in ap (λ x. txn_ok x) same
of_txn-eq-ok (txn_err e) q = cc q

with_txn-eq-ok :
    {R A : Type 0} (txn txn' : Transaction R)
    (run : DurableTransactionStore R × Result DurableTxnError A) {store : DurableTransactionStore R}
    {a : A}
    → with_txn txn run ≡ ((store, txn'), ok a)
    → (run ≡ (store, ok a)) × (txn ≡ txn')
with_txn-eq-ok txn txn' (s, outcome) q =
    let stores : s ≡ _ = ap (λ r. r.0.0) q in
    let txns : txn ≡ txn' = ap (λ r. r.0.1) q in
    let outcomes : outcome ≡ ok _ = ap (λ r. r.1) q in (cc (stores, outcomes), txns)

module _ {R : Type 0} (json : OpJson R) where
  -- serde_json reads back what it writes of an operation.
  abbrev pub IsRead : ℕ → WriteOp R → Type 0
  IsRead txn_id op =
      (bytes : List ℕ)
      → json.to_vec (payload_of json txn_id op) ≡ some bytes
      → json.from_slice bytes ≡ some (payload_of json txn_id op)

  Logs-append :
      (front back : List WalEntry) (ops more : List (WriteOp R))
      → Logs json front ops
      → Logs json back more
      → Logs json (front ++ back) (ops ++ more)
  Logs-append [] back [] more l k = k
  Logs-append [] back (op ∷ ops) more l k = absurd l
  Logs-append (e ∷ front) back [] more l k = absurd l
  Logs-append (e ∷ front) back (op ∷ ops) more l k = (l.0, Logs-append front back ops more l.1 k)

  -- The log holds the operations, and the rows are what they make of an empty store.
  pub record IsDurable (store : DurableTransactionStore R) (ops : List (WriteOp R)) : Type 0 where
    pub entries : List WalEntry
    pub is_log : IsLog store.wal entries
    pub logs : Logs json entries ops
    pub rows : Rows json store.tx_manager ops (λ id. none)

  module _ (cpu : Cpu) (compute_crc32 : List ℕ → ℕ) (bincode : Bincode) (clock : ℕ → ℕ) where
    log_none_is :
        (store : DurableTransactionStore R) (txn_id : ℕ)
        → (store, ok tt) ≡ log_ops json cpu compute_crc32 bincode clock store txn_id []
    unfolding log_ops
    log_none_is store txn_id = refl

    log_ops_is :
        (store : DurableTransactionStore R) (txn_id : ℕ) (op : WriteOp R) (ops : List (WriteOp R))
        → and_then
            (log_op json cpu compute_crc32 bincode clock store txn_id op)
            (λ e. e)
            (λ s d. log_ops json cpu compute_crc32 bincode clock s txn_id ops)
          ≡ log_ops json cpu compute_crc32 bincode clock store txn_id (op ∷ ops)
    unfolding log_ops
    log_ops_is store txn_id op ops = refl

    -- What the loop of a commit logs.
    log_ops-IsLog :
        (store store' : DurableTransactionStore R) (txn_id : ℕ) (ops : List (WriteOp R))
        (entries : List WalEntry)
        → All (IsRead txn_id) ops
        → log_ops json cpu compute_crc32 bincode clock store txn_id ops ≡ (store', ok tt)
        → IsLog store.wal entries
        → store.wal.next_sequence + length ops < 2 ^ 64
        → (new : List WalEntry) × IsLog store'.wal (entries ++ new)
          × Logs json new ops
          × (store'.tx_manager ≡ store.tx_manager)
    log_ops-IsLog store store' txn_id [] entries h q l room =
        let same : store ≡ store' = ap (λ r. r.0) (log_none_is store txn_id ∙ q) in
        (
          [],
          subst (λ (s : DurableTransactionStore R). IsLog s.wal (entries ++ [])) same
              (subst (IsLog store.wal) (sym (append-nil entries)) l),
          tt,
          ap (λ (s : DurableTransactionStore R). s.tx_manager) (sym same),
        )
    log_ops-IsLog store store' txn_id (op ∷ ops) entries h q l room =
        let (mid, done, first, q') =
          and_then-eq-ok (log_op json cpu compute_crc32 bincode clock store txn_id op) (λ e. e)
            (λ s d. log_ops json cpu compute_crc32 bincode clock s txn_id ops)
            (log_ops_is store txn_id op ops ∙ q) in
        let (payload, seq, written, appended, same) =
          log_op-eq-ok json cpu compute_crc32 bincode clock store mid txn_id op first in
        let (is_log, next) =
          appended-IsLog store.wal mid.wal entries payload seq l (omega arith) appended in
        let entry : WalEntry = record { sequence = store.wal.next_sequence; payload = payload } in
        let (new, is_log', logs, same') =
          log_ops-IsLog mid store' txn_id ops (entries ++ (entry ∷ [])) h.1 q' is_log
            (omega (arith, next)) in
        (
          entry ∷ new,
          subst (λ es. IsLog store'.wal es) (append_assoc entries (entry ∷ []) new) is_log',
          ((txn_id, h.0 payload written), logs),
          same' ∙ same,
        )

    commit_inner_is :
        (store : DurableTransactionStore R) (txn : Transaction R) (defer : Bool)
        → attempt
            (of_txn (can_commit store.tx_manager txn))
            (store, txn)
            (log_and_publish json cpu compute_crc32 bincode clock store txn defer)
          ≡ commit_inner json cpu compute_crc32 bincode clock store txn defer
    unfolding commit_inner
    commit_inner_is store txn defer = refl

    log_and_publish_is :
        (store : DurableTransactionStore R) (txn : Transaction R) (defer : Bool)
        (checked : Unit {0})
        → and_then
            (with_txn txn
              (log_ops json cpu compute_crc32 bincode clock store txn.txn_id txn.write_set))
            (λ e. e)
            (publish json cpu compute_crc32 bincode clock defer)
          ≡ log_and_publish json cpu compute_crc32 bincode clock store txn defer checked
    unfolding log_and_publish
    log_and_publish_is store txn defer checked = refl

    publish-eq-ok :
        (store store' : DurableTransactionStore R) (txn txn' : Transaction R) (defer : Bool)
        (ts : ℕ)
        → publish json cpu compute_crc32 bincode clock defer (store, txn) tt
          ≡ ((store', txn'), ok ts)
        → (ended : ℕ × TransactionManager R × Transaction R) × (commit store.tx_manager txn
            ≡ txn_ok ended)
          × (store'.tx_manager ≡ ended.1)
          × (store'.wal ≡ store.wal)
    unfolding publish
    publish-eq-ok store store' txn txn' defer ts q =
        let synced = record store { pending_deferred_storage_sync = defer } in
        let (ended, done, rest) =
          attempt-eq-ok (of_txn (commit store.tx_manager txn)) (synced, txn)
            (λ committed.
              ((record synced { tx_manager = committed.1 }, committed.2), ok committed.0))
            q in
        let same : record synced { tx_manager = ended.1 } ≡ store' = ap (λ r. r.0.0) rest in
        (
          ended,
          of_txn-eq-ok (commit store.tx_manager txn) done,
          ap (λ (s : DurableTransactionStore R). s.tx_manager) (sym same),
          ap (λ (s : DurableTransactionStore R). s.wal) (sym same),
        )

    -- A commit that ends well keeps the log and the rows in step: the writes of the transaction follow
    -- the operations in the log, and each record has the row that all of them make of an empty store.
    -- serde_json reads back what it writes of these writes, and the sequences stay `u64`s.
    pub commit_inner-IsDurable :
        (store store' : DurableTransactionStore R) (txn txn' : Transaction R)
        (defer_storage_fsync : Bool) (ts : ℕ) (ops : List (WriteOp R))
        → All (IsRead txn.txn_id) txn.write_set
        → IsDurable store ops
        → commit_inner json cpu compute_crc32 bincode clock store txn defer_storage_fsync
          ≡ ((store', txn'), ok ts)
        → store.wal.next_sequence + length txn.write_set < 2 ^ 64
        → IsDurable store' (ops ++ txn.write_set)
    commit_inner-IsDurable store store' txn txn' defer ts ops h d q room =
        let (checked, can, q1) =
          attempt-eq-ok (of_txn (can_commit store.tx_manager txn)) (store, txn)
            (log_and_publish json cpu compute_crc32 bincode clock store txn defer)
            (commit_inner_is store txn defer ∙ q) in
        let (mid, done, ran, q2) =
          and_then-eq-ok
            (with_txn txn
              (log_ops json cpu compute_crc32 bincode clock store txn.txn_id txn.write_set))
            (λ e. e) (publish json cpu compute_crc32 bincode clock defer)
            (log_and_publish_is store txn defer checked ∙ q1) in
        let (logged, same_txn) =
          with_txn-eq-ok txn mid.1
            (log_ops json cpu compute_crc32 bincode clock store txn.txn_id txn.write_set) ran in
        let (new, is_log, logs, same) =
          log_ops-IsLog store mid.0 txn.txn_id txn.write_set d.entries h logged d.is_log room in
        let (ended, committed, manager, log) = publish-eq-ok mid.0 store' mid.1 txn' defer ts q2 in
        let commits : commit store.tx_manager txn ≡ txn_ok ended =
          ap (λ (m : TransactionManager R). commit m txn) (sym same)
          ∙ ap (commit mid.0.tx_manager) same_txn
          ∙ committed in
        record {
          entries = d.entries ++ new;
          is_log = rw log is_log;
          logs = Logs-append d.entries new ops txn.write_set d.logs logs;
          rows = rw manager (
            commit-IsValid store.tx_manager ended.1 txn ended.2 ended.0 d.rows.0 commits,
            λ id.
                latest_row-commit store.tx_manager ended.1 txn ended.2 ended.0 id d.rows.0 commits
                ∙ ap (after_ops id txn.write_set) (d.rows.1 id)
                ∙ sym (after_ops-append id ops txn.write_set none),
          );
        }

  -- A restart: replaying the log into a new manager succeeds, and each record has the row that it had
  -- before.
  pub replay-IsDurable :
      (store : DurableTransactionStore R) (ops : List (WriteOp R))
      → IsDurable store ops
      → (store' : DurableTransactionStore R) × (replay_wal_to_mvcc json
            (record store { tx_manager = new_manager })
          ≡ ok store')
        × IsDurable store' ops
        × ((id : ℕ) → latest_row store'.tx_manager id ≡ latest_row store.tx_manager id)
  replay-IsDurable store ops d =
      let (valid, rows) = replay_entries-Rows json new_manager d.entries ops IsValid-new d.logs in
      let replayed = replay_entries json new_manager d.entries in
      let same : (id : ℕ) → latest_row replayed id ≡ after_ops id ops none =
        λ id. rows id ∙ ap (after_ops id ops) (latest_row-new id) in
      (
        record store { tx_manager = replayed },
        (unfold replay_wal_to_mvcc in ground (arith, read_all-IsLog store.wal d.entries d.is_log)),
        record { entries = d.entries; is_log = d.is_log; logs = d.logs; rows = (valid, same) },
        λ id. same id ∙ sym (d.rows.1 id),
      )
