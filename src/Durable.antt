-- ===== src/Durable.antt =====
-- engine/src/transaction_durable.rs: commits that are logged and materialized before they are visible,
-- and the replay of the log into a new manager. Of the store its manager, log, files and flag are
-- modelled, of its commits those that leave the indexes to a later rebuild. The text of an operation
-- is the crate serde_json's, a parameter.
pub mod Log
pub mod Replay
pub mod Restart
mod Tests
use dna_db.Prelude.{ℕ, Bool, true, false, Option, none, some, List, [], ◌∷◌, max}
use dna_db.Prelude.Results.{Result, ok, err, attempt, and_then, ok_or, map_err}
use dna_db.Encoding.{Cpu}
use dna_db.Codec.{Bincode}
use dna_db.Wal.{
  Wal, WalEntry, WalError, append, read_all_entries, ok as wal_ok, err as wal_err,
  Result as WalResult,
}
use dna_db.Storage.{CollectionStorage}
use dna_db.Processor.{ProcessorError, process_wal_entry_with_mode}
use dna_db.Transaction.{
  Transaction, TransactionManager, WriteOp, upsert_op, delete_op, TxnError, begin, upsert,
  delete_record, can_commit, commit, compact_versions_with_floor, ok as txn_ok, err as txn_err,
  Result as TxnResult,
}

-- The transaction, the record, and the row of an upsert.
pub data DurableOpPayload (R : Type 0) : Type 0 where
  upsert_payload : ℕ → ℕ → R → DurableOpPayload R
  delete_payload : ℕ → ℕ → DurableOpPayload R

-- What the store calls of serde_json. `none` is its error.
pub record OpJson (R : Type 0) : Type 0 where
  pub to_vec : DurableOpPayload R → Option (List ℕ)
  pub from_slice : List ℕ → Option (DurableOpPayload R)

pub data DurableTxnError : Type 0 where
  wal_error : WalError → DurableTxnError
  processor_error : ProcessorError → DurableTxnError
  serde_json : DurableTxnError
  transaction : TxnError → DurableTxnError

pub record DurableTransactionStore (R : Type 0) : Type 0 where
  pub tx_manager : TransactionManager R
  pub wal : Wal
  pub storage : CollectionStorage
  pub collection_id : ℕ
  pub pending_deferred_storage_sync : Bool

abbrev pub of_wal {ℓ} : {A : Type ℓ} → WalResult A → Result DurableTxnError A
of_wal (wal_ok a) = ok a
of_wal (wal_err e) = err (wal_error e)

abbrev pub of_txn {ℓ} : {A : Type ℓ} → TxnResult A → Result DurableTxnError A
of_txn (txn_ok a) = ok a
of_txn (txn_err e) = err (transaction e)

-- `let _ = txm.commit(..)`
abbrev pub committed_or :
    {R : Type 0}
    → TransactionManager R
    → TxnResult (ℕ × TransactionManager R × Transaction R)
    → TransactionManager R
committed_or m (txn_ok (ts, m', txn)) = m'
committed_or m (txn_err e) = m

-- What processing an entry leaves: the log holds the entry whether it fails or not.
abbrev pub materialized :
    {R : Type 0}
    → DurableTransactionStore R
    → Wal
    → CollectionStorage × Result ProcessorError (Unit {0})
    → DurableTransactionStore R × Result DurableTxnError (Unit {0})
materialized store log (files, ok done) = (record store { wal = log; storage = files }, ok tt)
materialized store log (files, err e) =
    (record store { wal = log; storage = files }, err (processor_error e))

abbrev pub with_txn :
    {R A : Type 0}
    → Transaction R
    → DurableTransactionStore R × Result DurableTxnError A
    → (DurableTransactionStore R × Transaction R) × Result DurableTxnError A
with_txn txn (store, outcome) = ((store, txn), outcome)

module _ {R : Type 0} (json : OpJson R) where
  abbrev pub payload_of : ℕ → WriteOp R → DurableOpPayload R
  payload_of txn_id (upsert_op record_id row) = upsert_payload txn_id record_id row
  payload_of txn_id (delete_op record_id) = delete_payload txn_id record_id

  unfoldable pub durable_payload_from_write_op : ℕ → WriteOp R → Result DurableTxnError (List ℕ)
  durable_payload_from_write_op txn_id op = ok_or (json.to_vec (payload_of txn_id op)) serde_json

  unfoldable pub apply_replayed_op :
      TransactionManager R → DurableOpPayload R → TransactionManager R
  apply_replayed_op txm (upsert_payload txn_id record_id row) =
      let (tx, begun) = begin txm in committed_or begun (commit begun (upsert tx record_id row))
  apply_replayed_op txm (delete_payload txn_id record_id) =
      let (tx, begun) = begin txm in committed_or begun (commit begun (delete_record tx record_id))

  -- The loop of `replay_wal_to_mvcc`: an entry that is no operation is passed over.
  unfoldable pub replay_entries : TransactionManager R → List WalEntry → TransactionManager R
  unfolding apply_replayed_op
  replay_entries txm [] = txm
  replay_entries txm (e ∷ entries) = elim (json.from_slice e.payload) [
    | none ↦ replay_entries txm entries
    | some op ↦ replay_entries (apply_replayed_op txm op) entries
  ]

  unfoldable pub replay_wal_to_mvcc :
      DurableTransactionStore R → Result DurableTxnError (DurableTransactionStore R)
  unfolding replay_entries
  replay_wal_to_mvcc store = elim (read_all_entries store.wal) [
    | wal_err e ↦ err (wal_error e)
    | wal_ok entries ↦ ok (record store { tx_manager = replay_entries store.tx_manager entries })
  ]

  -- The minimum is one at least.
  unfoldable pub run_version_compaction : DurableTransactionStore R → ℕ → DurableTransactionStore R
  run_version_compaction store min_versions_to_keep = record store {
    tx_manager = compact_versions_with_floor (max min_versions_to_keep 1) store.tx_manager;
  }

  -- `clock` reads the time at which a sequence is processed.
  module _ (cpu : Cpu) (compute_crc32 : List ℕ → ℕ) (bincode : Bincode) (clock : ℕ → ℕ) where
    -- One round of the loop of `commit_inner`, from its end: the entry is materialized, after it was
    -- logged, after its payload was made.
    unfoldable pub materialize :
        DurableTransactionStore R
        → List ℕ
        → ℕ × Wal
        → DurableTransactionStore R × Result DurableTxnError (Unit {0})
    materialize store payload (seq, log) = materialized store log (
        process_wal_entry_with_mode cpu compute_crc32 bincode (clock seq) store.storage
          store.collection_id seq payload)

    unfoldable pub log_payload :
        DurableTransactionStore R
        → List ℕ
        → DurableTransactionStore R × Result DurableTxnError (Unit {0})
    unfolding materialize
    log_payload store payload =
        attempt (of_wal (append store.wal payload)) store (materialize store payload)

    unfoldable pub log_op :
        DurableTransactionStore R
        → ℕ
        → WriteOp R
        → DurableTransactionStore R × Result DurableTxnError (Unit {0})
    unfolding durable_payload_from_write_op log_payload
    log_op store txn_id op =
        attempt (durable_payload_from_write_op txn_id op) store (log_payload store)

    unfoldable pub log_ops :
        DurableTransactionStore R
        → ℕ
        → List (WriteOp R)
        → DurableTransactionStore R × Result DurableTxnError (Unit {0})
    unfolding log_op
    log_ops store txn_id [] = (store, ok tt)
    log_ops store txn_id (op ∷ ops) =
        and_then (log_op store txn_id op) (λ e. e) (λ store' done. log_ops store' txn_id ops)

    -- The end of `commit_inner`, when the writes are logged: the files are synced, or that is left for
    -- later, and the writes get visible.
    unfoldable pub publish :
        Bool
        → DurableTransactionStore R × Transaction R
        → Unit {0}
        → (DurableTransactionStore R × Transaction R) × Result DurableTxnError ℕ
    publish defer_storage_fsync (store, txn) logged =
        let synced = record store { pending_deferred_storage_sync = defer_storage_fsync } in
        attempt (of_txn (commit store.tx_manager txn)) (synced, txn)
          (λ committed. ((record synced { tx_manager = committed.1 }, committed.2), ok committed.0))

    unfoldable pub log_and_publish :
        DurableTransactionStore R
        → Transaction R
        → Bool
        → Unit {0}
        → (DurableTransactionStore R × Transaction R) × Result DurableTxnError ℕ
    unfolding log_ops publish
    log_and_publish store txn defer_storage_fsync checked =
        and_then (with_txn txn (log_ops store txn.txn_id txn.write_set)) (λ e. e)
          (publish defer_storage_fsync)

    -- `commit_inner` without the incremental updates of the indexes. An error leaves in the log and in
    -- the files what was written before it.
    unfoldable pub commit_inner :
        DurableTransactionStore R
        → Transaction R
        → Bool
        → (DurableTransactionStore R × Transaction R) × Result DurableTxnError ℕ
    unfolding log_and_publish
    commit_inner store txn defer_storage_fsync =
        attempt (of_txn (can_commit store.tx_manager txn)) (store, txn)
          (log_and_publish store txn defer_storage_fsync)
