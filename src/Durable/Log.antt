-- ===== src/Durable/Log.antt =====
-- engine/src/transaction_durable.rs: what a commit leaves in the log.
use dna_db.Prelude.{
  ℕ, ◌+◌, ◌^◌, ◌≤◌, ◌<◌, ◌≡◌, refl, sym, ap, ◌∙◌, subst, Option, none, some, List, [], ◌∷◌, ◌++◌,
  length, arith, u32_max,
}
use dna_db.Prelude.Results.{Result, ok, err, ok_or, attempt, attempt-eq-ok}
use dna_db.Encoding.{Cpu}
use dna_db.Codec.{Bincode}
use dna_db.Wal.{Wal, WalEntry, append, ok as wal_ok, err as wal_err, Result as WalResult}
use dna_db.Wal.Log.{IsLog, append-IsLog}
use dna_db.Storage.{CollectionStorage}
use dna_db.Processor.{ProcessorError}
use dna_db.Transaction.{WriteOp}
use dna_db.Durable.{
  DurableTransactionStore, OpJson, payload_of, of_wal, processor_error, materialized, materialize,
  log_payload, log_op, serde_json, durable_payload_from_write_op,
}

ok_or-eq-ok : {E A : Type 0} (o : Option A) (e : E) {a : A} → ok_or o e ≡ ok a → o ≡ some a
ok_or-eq-ok none e q = cc q
ok_or-eq-ok (some b) e q = let same : b ≡ _ = cc q in ap (λ x. some x) same

of_wal-eq-ok : {A : Type 0} (r : WalResult A) {a : A} → of_wal r ≡ ok a → r ≡ wal_ok a
of_wal-eq-ok (wal_ok b) q = let same : b ≡ _ = cc q in ap (λ x. wal_ok x) same
of_wal-eq-ok (wal_err e) q = cc q

wal_ok_injective : {A : Type 0} {a b : A} → wal_ok a ≡ wal_ok b → a ≡ b
wal_ok_injective q = cc q

-- An append that succeeds had a payload of at most a `u32`.
appended_small :
    (log log' : Wal) (payload : List ℕ) (seq : ℕ)
    → append log payload ≡ wal_ok (seq, log')
    → length payload ≤ u32_max
unfolding append
appended_small log log' payload seq q = ground (arith, q)

pub appended-IsLog :
    (log log' : Wal) (entries : List WalEntry) (payload : List ℕ) (seq : ℕ)
    → IsLog log entries
    → log.next_sequence + 1 < 2 ^ 64
    → append log payload ≡ wal_ok (seq, log')
    → IsLog log' (entries ++ (record { sequence = log.next_sequence; payload = payload } ∷ []))
      × (log'.next_sequence ≡ log.next_sequence + 1)
appended-IsLog log log' entries payload seq l room q =
    let (made, done, is_log, next) =
      append-IsLog log entries payload l (appended_small log log' payload seq q) room in
    let pair : (log.next_sequence, made) ≡ (seq, log') = wal_ok_injective (sym done ∙ q) in
    let same : made ≡ log' = ap (λ p. p.1) pair in
    subst
      (λ w.
        IsLog w (entries ++ (record { sequence = log.next_sequence; payload = payload } ∷ []))
        × (w.next_sequence ≡ log.next_sequence + 1))
      same (is_log, next)

materialized-eq-ok :
    {R : Type 0} (store : DurableTransactionStore R) (log : Wal)
    (run : CollectionStorage × Result ProcessorError (Unit {0}))
    {store' : DurableTransactionStore R}
    → materialized store log run ≡ (store', ok tt)
    → (store'.wal ≡ log) × (store'.tx_manager ≡ store.tx_manager)
materialized-eq-ok store log (files, ok done) q =
    let same : record store { wal = log; storage = files } ≡ _ = ap (λ r. r.0) q in
    (
      sym (ap (λ (s : DurableTransactionStore _). s.wal) same),
      sym (ap (λ (s : DurableTransactionStore _). s.tx_manager) same),
    )
materialized-eq-ok store log (files, err e) q =
    let wrong : err (processor_error e) ≡ ok tt = ap (λ r. r.1) q in absurd (cc wrong)

module _ {R : Type 0} (json : OpJson R) (cpu : Cpu) (compute_crc32 : List ℕ → ℕ) (bincode : Bincode)
    (clock : ℕ → ℕ) where
  payload_written :
      (txn_id : ℕ) (op : WriteOp R) (payload : List ℕ)
      → durable_payload_from_write_op json txn_id op ≡ ok payload
      → json.to_vec (payload_of json txn_id op) ≡ some payload
  unfolding durable_payload_from_write_op
  payload_written txn_id op payload q = ok_or-eq-ok _ serde_json q

  log_op_is :
      (store : DurableTransactionStore R) (txn_id : ℕ) (op : WriteOp R)
      → attempt
          (durable_payload_from_write_op json txn_id op)
          store
          (log_payload json cpu compute_crc32 bincode clock store)
        ≡ log_op json cpu compute_crc32 bincode clock store txn_id op
  unfolding log_op
  log_op_is store txn_id op = refl

  log_payload_is :
      (store : DurableTransactionStore R) (payload : List ℕ)
      → attempt
          (of_wal (append store.wal payload))
          store
          (materialize json cpu compute_crc32 bincode clock store payload)
        ≡ log_payload json cpu compute_crc32 bincode clock store payload
  unfolding log_payload
  log_payload_is store payload = refl

  materialize_ok :
      (store : DurableTransactionStore R) (payload : List ℕ) (appended : ℕ × Wal)
      {store' : DurableTransactionStore R}
      → materialize json cpu compute_crc32 bincode clock store payload appended ≡ (store', ok tt)
      → (store'.wal ≡ appended.1) × (store'.tx_manager ≡ store.tx_manager)
  unfolding materialize
  materialize_ok store payload (seq, log) q = materialized-eq-ok store log _ q

  -- The log got one entry, with the operation, and the manager is the same.
  pub log_op-eq-ok :
      (store store' : DurableTransactionStore R) (txn_id : ℕ) (op : WriteOp R)
      → log_op json cpu compute_crc32 bincode clock store txn_id op ≡ (store', ok tt)
      → (payload : List ℕ) × (seq : ℕ) × (json.to_vec (payload_of json txn_id op) ≡ some payload)
        × (append store.wal payload ≡ wal_ok (seq, store'.wal))
        × (store'.tx_manager ≡ store.tx_manager)
  log_op-eq-ok store store' txn_id op q =
      let (payload, written, q1) =
        attempt-eq-ok (durable_payload_from_write_op json txn_id op) store
          (log_payload json cpu compute_crc32 bincode clock store)
          (log_op_is store txn_id op ∙ q) in
      let (appended, logged, q2) =
        attempt-eq-ok (of_wal (append store.wal payload)) store
          (materialize json cpu compute_crc32 bincode clock store payload)
          (log_payload_is store payload ∙ q1) in
      let (same_log, same_manager) = materialize_ok store payload appended q2 in
      (
        payload,
        appended.0,
        payload_written txn_id op payload written,
        of_wal-eq-ok (append store.wal payload) logged
            ∙ ap (λ w. wal_ok (appended.0, w)) (sym same_log),
        same_manager,
      )
