-- ===== src/Transaction/Replayed.antt =====
-- engine/src/transaction.rs: one write after another, each in a transaction of its own.
use dna_db.Prelude.{
  ℕ, ◌≤◌, ◌≡◌, refl, sym, ap, ◌∙◌, false, Option, none, List, [], ◌∷◌, ◌++◌, arith, Bool-cases,
  Option-cases, inl, inr, nat_eq, saturating_add,
}
use dna_db.Prelude.Map.{get}
use dna_db.Mvcc.{latest_ts}
use dna_db.Mvcc.Latest.{latest_of_below}
use dna_db.Transaction.{
  Transaction, TransactionManager, WriteOp, upsert_op, delete_op, op_record_id, active, committed,
  check_ops, can_commit, commit, commit_state, begin, read, upsert, delete_record, updated_since,
  ok, new_manager,
}
use dna_db.Transaction.Invariant.{IsValid, IsValid-begin, IsValid-commit}
use dna_db.Transaction.Isolation.{after_ops, read-after_ops}
use dna_db.Transaction.Commit.{
  writes, commit_ok, read_after_commit, after_ops_of_writes, after_ops_of_none,
}

module _ {R : Type 0} where
  -- What a transaction that begins now reads of the record.
  abbrev pub latest_row : TransactionManager R → ℕ → Option R
  latest_row m id = read (begin m).1 (begin m).0 id

  -- A commit leaves in every record what its writes make of the row before.
  pub latest_row-commit :
      (m m' : TransactionManager R) (txn txn' : Transaction R) (ts id : ℕ)
      → IsValid m
      → commit m txn ≡ ok (ts, m', txn')
      → latest_row m' id ≡ after_ops id txn.write_set (latest_row m id)
  latest_row-commit m m' txn txn' ts id v e =
      read_after_commit m m' txn txn' ts id v e ∙ elim (Bool-cases (writes id txn.write_set)) [
        | inl written ↦
            rw (written, read-after_ops m txn id) (after_ops_of_writes id txn.write_set _ _ written)
        | inr other ↦ rw other (sym (after_ops_of_none id txn.write_set _ other))
      ]

  pub after_ops-append :
      (id : ℕ) (xs ys : List (WriteOp R)) (old : Option R)
      → after_ops id (xs ++ ys) old ≡ after_ops id ys (after_ops id xs old)
  after_ops-append id [] ys old = refl
  after_ops-append id (op ∷ xs) ys old = after_ops-append id xs ys _

  not_later :
      (m : TransactionManager R) (id : ℕ)
      → IsValid m
      → updated_since m.clock_ts (get id m.chains) ≡ false
  not_later m id v = elim (Option-cases (get id m.chains)) [
    | inl q ↦ rw q refl
    | inr (chain, q) ↦ elim (Option-cases (latest_ts chain)) [
      | inl e ↦ rw (q, e) refl
      | inr (ts, e) ↦
          let old : ts ≤ m.clock_ts =
            latest_of_below m.clock_ts ts chain (v.chains_valid id chain q).1 e in
          ground (arith, q, e, old)
    ]
  ]

  -- A transaction that began just now with one write commits.
  abbrev pub single : TransactionManager R → WriteOp R → Transaction R
  single m op = record (begin m).0 { write_set = op ∷ [] }

  pub single-can_commit :
      (m : TransactionManager R) (op : WriteOp R)
      → IsValid m
      → can_commit (begin m).1 (single m op) ≡ ok tt
  unfolding can_commit check_ops begin
  single-can_commit m op v = ground (arith, not_later m (op_record_id op) v)

  single_commits :
      (m : TransactionManager R) (op : WriteOp R)
      → IsValid m
      → commit (begin m).1 (single m op)
        ≡ ok (
          saturating_add m.clock_ts 1,
          commit_state (begin m).1 (single m op),
          record (single m op) { write_set = []; status = committed },
        )
  unfolding commit can_commit check_ops begin
  single_commits m op v = ground (arith, not_later m (op_record_id op) v)

  pub upsert_in_new :
      (m : TransactionManager R) (id : ℕ) (row : R)
      → upsert (begin m).0 id row ≡ single m (upsert_op id row)
  unfolding upsert begin
  upsert_in_new m id row = refl

  pub delete_in_new :
      (m : TransactionManager R) (id : ℕ) → delete_record (begin m).0 id ≡ single m (delete_op id)
  unfolding delete_record begin
  delete_in_new m id = refl

  pub begun_row : (m : TransactionManager R) (id : ℕ) → latest_row (begin m).1 id ≡ latest_row m id
  unfolding begin read
  begun_row m id = refl

  -- The write of one record in a transaction of its own is not refused, and is seen from then on.
  pub single-commit :
      (m : TransactionManager R) (op : WriteOp R)
      → IsValid m
      → (m' : TransactionManager R) × (ts : ℕ) × (txn' : Transaction R) × (commit
            (begin m).1
            (single m op)
          ≡ ok (ts, m', txn'))
        × IsValid m'
        × ((id : ℕ) → latest_row m' id ≡ after_ops id (op ∷ []) (latest_row m id))
  single-commit m op v =
      let m' = commit_state (begin m).1 (single m op) in
      let done = single_commits m op v in
      (
        m',
        saturating_add m.clock_ts 1,
        record (single m op) { write_set = []; status = committed },
        done,
        IsValid-commit (begin m).1 (single m op) (IsValid-begin m v),
        λ id.
            latest_row-commit (begin m).1 m' (single m op) _ _ id (IsValid-begin m v) done
            ∙ ap (after_ops id (op ∷ [])) (begun_row m id),
      )

  pub latest_row-new : (id : ℕ) → latest_row new_manager id ≡ none
  unfolding begin read new_manager get
  latest_row-new id = refl

  pub commit-IsValid :
      (m m' : TransactionManager R) (txn txn' : Transaction R) (ts : ℕ)
      → IsValid m
      → commit m txn ≡ ok (ts, m', txn')
      → IsValid m'
  commit-IsValid m m' txn txn' ts v e = rw (commit_ok m m' txn txn' ts e) (IsValid-commit m txn v)

  -- The first transaction of a new manager.
  pub first_transaction :
      (op : WriteOp R)
      → single new_manager op
        ≡ record { txn_id = 1; snapshot_ts = 0; write_set = op ∷ []; status = active }
  unfolding begin new_manager saturating_add
  first_transaction op = refl
