-- ===== src/Durable/Replay.antt =====
-- engine/src/transaction_durable.rs: the rows that the replay of a log leaves.
use dna_db.Prelude.{ℕ, ◌≡◌, refl, sym, ap, ◌∙◌, subst, Option, some, List, [], ◌∷◌, arith}
use dna_db.Wal.{WalEntry}
use dna_db.Transaction.{TransactionManager, WriteOp, upsert_op, delete_op, begin, commit}
use dna_db.Transaction.Invariant.{IsValid}
use dna_db.Transaction.Isolation.{after_ops}
use dna_db.Transaction.Replayed.{latest_row, single, single-commit, upsert_in_new, delete_in_new}
use dna_db.Durable.{
  DurableOpPayload, OpJson, payload_of, apply_replayed_op, committed_or, replay_entries,
}

module _ {R : Type 0} (json : OpJson R) where
  replayed_by :
      (m : TransactionManager R) (txn_id : ℕ) (op : WriteOp R)
      → apply_replayed_op json m (payload_of json txn_id op)
        ≡ committed_or (begin m).1 (commit (begin m).1 (single m op))
  unfolding apply_replayed_op
  replayed_by m txn_id (upsert_op id row) =
      ap (λ txn. committed_or (begin m).1 (commit (begin m).1 txn)) (upsert_in_new m id row)
  replayed_by m txn_id (delete_op id) =
      ap (λ txn. committed_or (begin m).1 (commit (begin m).1 txn)) (delete_in_new m id)

  -- A manager that is valid, with the rows that the writes make of others.
  abbrev pub Rows : TransactionManager R → List (WriteOp R) → (ℕ → Option R) → Type 0
  Rows m ops old = IsValid m × ((id : ℕ) → latest_row m id ≡ after_ops id ops (old id))

  apply_replayed-Rows :
      (m : TransactionManager R) (txn_id : ℕ) (op : WriteOp R)
      → IsValid m
      → Rows (apply_replayed_op json m (payload_of json txn_id op)) (op ∷ []) (latest_row m)
  apply_replayed-Rows m txn_id op v =
      let (m', ts, txn', done, v', rows) = single-commit m op v in
      let made : apply_replayed_op json m (payload_of json txn_id op) ≡ m' =
        replayed_by m txn_id op ∙ ap (committed_or (begin m).1) done in
      subst (λ r. Rows r (op ∷ []) (latest_row m)) (sym made) (v', rows)

  -- The entries hold the operations, each with some transaction.
  abbrev pub Logs : List WalEntry → List (WriteOp R) → Type 0
  Logs [] [] = Unit
  Logs (e ∷ entries) (op ∷ ops) =
      ((txn_id : ℕ) × (json.from_slice e.payload ≡ some (payload_of json txn_id op)))
      × Logs entries ops
  Logs [] (op ∷ ops) = ⊥
  Logs (e ∷ entries) [] = ⊥

  replay_one :
      (m : TransactionManager R) (e : WalEntry) (entries : List WalEntry) (op : DurableOpPayload R)
      → json.from_slice e.payload ≡ some op
      → replay_entries json m (e ∷ entries)
        ≡ replay_entries json (apply_replayed_op json m op) entries
  replay_one m e entries op h = unfold replay_entries in ground (arith, h)

  -- The replay of the entries leaves in each record what the operations, in their order, make of it.
  pub replay_entries-Rows :
      (m : TransactionManager R) (entries : List WalEntry) (ops : List (WriteOp R))
      → IsValid m
      → Logs entries ops
      → Rows (replay_entries json m entries) ops (latest_row m)
  replay_entries-Rows m [] [] v l = unfold replay_entries in (v, λ id. refl)
  replay_entries-Rows m [] (op ∷ ops) v l = absurd l
  replay_entries-Rows m (e ∷ entries) [] v l = absurd l
  replay_entries-Rows m (e ∷ entries) (op ∷ ops) v l =
      let (txn_id, read) = l.0 in
      let (v1, rows1) = apply_replayed-Rows m txn_id op v in
      let (v2, rows2) =
        replay_entries-Rows (apply_replayed_op json m (payload_of json txn_id op)) entries ops v1
          l.1 in
      subst (λ r. Rows r (op ∷ ops) (latest_row m))
        (sym (replay_one m e entries (payload_of json txn_id op) read))
        (v2, λ id. rows2 id ∙ ap (after_ops id ops) (rows1 id))
