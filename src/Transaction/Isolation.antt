-- ===== src/Transaction/Isolation.antt =====
-- engine/src/transaction.rs: what a commit does to the reads of each snapshot.
use mathlib.Core.List.{reverse, reverse-cons}
use dna_db.Prelude.{
  ap, find-append, saturating_add_lem, ℕ, ◌≤◌, ◌<◌, ◌≡◌, refl, Option, none, some, List, [], ◌∷◌,
  find, unwrap_or, arith, leb, saturating_add, saturating_add_fits, u64_max, ◌==◌, nat_eq,
  if◌then◌else◌,
}
use dna_db.Prelude.Map.{Map, get, insert, remove, get-insert}
use dna_db.Mvcc.{VersionChain, new, visible_at}
use dna_db.Mvcc.Visibility.{
  visible_at-insert_version, visible_at-delete, visible_at-new, superseded_of_below, seen_after,
}
use dna_db.Transaction.{
  Transaction, TransactionManager, WriteOp, upsert_op, delete_op, visible_in, op_record_id, op_row,
  read, apply_op, apply_ops, commit_state, begin,
}
use dna_db.Transaction.Invariant.{
  AreChains-later, IsValid, AreChains, entry-IsChain, apply_op-AreChains,
}

module _ {R : Type 0} where
  visible_in-entry :
      (snap id : ℕ) (chains : Map ℕ (VersionChain R))
      → visible_at snap (unwrap_or (get id chains) (new id)) ≡ visible_in snap (get id chains)
  visible_in-entry snap id chains = ground (arith, visible_at-new {R = R} snap id)

  -- One write, as a snapshot sees it: nothing before the commit's timestamp, the row from it on.
  abbrev seen_of_op : ℕ → ℕ → ℕ → WriteOp R → Option R → Option R
  seen_of_op ts snap id op old =
      if leb ts snap then (if op_record_id op == id then op_row op else old) else old

  visible_in-insert :
      (ts snap id j : ℕ) (r : Option R) (d : VersionChain R) (chains : Map ℕ (VersionChain R))
      → AreChains ts chains
      → visible_at snap d ≡ seen_after ts snap (unwrap_or (get id chains) (new id)) r
      → visible_in snap (get j (insert id d chains)) ≡ (
          if leb ts snap
          then (if id == j then r else visible_in snap (get j chains))
          else visible_in snap (get j chains))
  visible_in-insert ts snap id j r d chains a e = ground (
    arith,
    e,
    get-insert id j d chains,
    visible_in-entry snap id chains,
    superseded_of_below ts snap (unwrap_or (get id chains) (new id)).versions
        (entry-IsChain ts id chains a).1,
  )

  visible_in-apply_op :
      (txn_id ts snap id : ℕ) (op : WriteOp R) (chains : Map ℕ (VersionChain R))
      → AreChains ts chains
      → visible_in snap (get id (apply_op txn_id ts chains op)) ≡ (
          if leb ts snap
          then (if op_record_id op == id then op_row op else visible_in snap (get id chains))
          else visible_in snap (get id chains))
  unfolding apply_op
  visible_in-apply_op txn_id ts snap id (upsert_op j row) chains a =
      visible_in-insert ts snap j id (some row) _ chains a
        (visible_at-insert_version row txn_id ts snap _ (entry-IsChain ts j chains a).0)
  visible_in-apply_op txn_id ts snap id (delete_op j) chains a =
      visible_in-insert ts snap j id none _ chains a
        (visible_at-delete txn_id ts snap _ (entry-IsChain ts j chains a).0)

  -- What a list of writes makes of a row.
  abbrev pub after_ops : ℕ → List (WriteOp R) → Option R → Option R
  after_ops id [] old = old
  after_ops id (op ∷ ops) old = after_ops id ops (if op_record_id op == id then op_row op else old)

  pub visible_in-apply_ops :
      (txn_id ts snap id : ℕ) (ops : List (WriteOp R)) (chains : Map ℕ (VersionChain R))
      → AreChains ts chains
      → visible_in snap (get id (apply_ops txn_id ts chains ops)) ≡ (
          if leb ts snap
          then after_ops id ops (visible_in snap (get id chains))
          else visible_in snap (get id chains))
  unfolding apply_ops
  visible_in-apply_ops txn_id ts snap id [] chains a = ground arith
  visible_in-apply_ops txn_id ts snap id (op ∷ ops) chains a = ground (
    arith,
    visible_in-apply_op txn_id ts snap id op chains a,
    visible_in-apply_ops txn_id ts snap id ops (apply_op txn_id ts chains op)
        (apply_op-AreChains ts txn_id ts chains op (omega arith) a),
  )

  abbrev own_or_old : Option (WriteOp R) → Option R → Option R
  own_or_old none old = old
  own_or_old (some op) old = op_row op

  own_or_old_lem :
      (id : ℕ) (ops : List (WriteOp R)) (old : Option R)
      → own_or_old (find (λ op. op_record_id op == id) (reverse ops)) old ≡ after_ops id ops old
  own_or_old_lem id [] old = refl
  own_or_old_lem id (op ∷ ops) old =
      rw (reverse-cons op ops, find-append _ (reverse ops) (op ∷ []))
        (ground (arith, own_or_old_lem id ops (if op_record_id op == id then op_row op else old)))

  -- A read is the effect of the transaction's own writes on what its snapshot sees.
  pub read-after_ops :
      (m : TransactionManager R) (txn : Transaction R) (id : ℕ)
      → read m txn id ≡ after_ops id txn.write_set (visible_in txn.snapshot_ts (get id m.chains))
  unfolding read
  read-after_ops m txn id =
      ground (arith, own_or_old_lem id txn.write_set (visible_in txn.snapshot_ts (get id m.chains)))

  -- A commit at a clock that is not saturated does not change what any transaction reads whose
  -- snapshot was taken before it.
  pub read-commit_state :
      (m : TransactionManager R) (writer reader : Transaction R) (id : ℕ)
      → IsValid m
      → reader.snapshot_ts ≤ m.clock_ts
      → m.clock_ts < u64_max
      → read (commit_state m writer) reader id ≡ read m reader id
  unfolding commit_state
  read-commit_state m writer reader id v past room =
      rw (read-after_ops, read-after_ops m reader id)
        (ap (after_ops id reader.write_set) (
          ground (
            arith,
            saturating_add_fits m.clock_ts 1,
            visible_in-apply_ops writer.txn_id (saturating_add m.clock_ts 1) reader.snapshot_ts id
                writer.write_set m.chains (AreChains-later _ _ m.chains later v.chains_valid),
          )))
    where
      later : m.clock_ts ≤ saturating_add m.clock_ts 1
      later = (saturating_add_lem m.clock_ts 1).1 v.clock_fits

  -- A read looks at the chains alone.
  pub read-begin :
      (m : TransactionManager R) (reader : Transaction R) (id : ℕ)
      → read (begin m).1 reader id ≡ read m reader id
  unfolding read begin
  read-begin m reader id = refl

  pub read-remove :
      (m : TransactionManager R) (reader : Transaction R) (j id : ℕ)
      → read (record m { active_txns = remove j m.active_txns }) reader id ≡ read m reader id
  unfolding read
  read-remove m reader j id = refl
