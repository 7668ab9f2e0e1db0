-- ===== src/Transaction.antt =====
-- engine/src/transaction.rs: transactions over version chains, with optimistic conflict checks.
pub mod Invariant
pub mod Isolation
pub mod Commit
pub mod Reclaim
pub mod Snapshot
pub mod Replayed
mod Tests
use mathlib.Core.List.{reverse}
use dna_db.Prelude.{
  ℕ, ◌+◌, Bool, true, false, Option, none, some, List, [], ◌∷◌, ◌++◌, find, unwrap_or, min, ltb,
  saturating_add, u64_max, ◌==◌, nat_eq, if◌then◌else◌,
}
use dna_db.Prelude.Map.{Map, get, insert, remove, map_values, values, contains_key}
use dna_db.Mvcc.{
  VersionChain, new, insert_version, delete, visible_at, latest_ts, version_count,
  compact_for_oldest_snapshot_with_floor,
}

pub data TxnStatus : Type 0 where
  active committed rolled_back : TxnStatus

pub data WriteOp (R : Type 0) : Type 0 where
  upsert_op : ℕ → R → WriteOp R
  delete_op : ℕ → WriteOp R

pub record Transaction (R : Type 0) : Type 0 where
  pub txn_id : ℕ
  pub snapshot_ts : ℕ
  pub write_set : List (WriteOp R)
  pub status : TxnStatus

pub record TransactionManager (R : Type 0) : Type 0 where
  pub chains : Map ℕ (VersionChain R)
  pub active_txns : Map ℕ ℕ
  pub next_txn_id : ℕ
  pub clock_ts : ℕ

-- The two messages that the source returns as `&'static str`.
pub data TxnError : Type 0 where
  not_active write_write_conflict : TxnError

pub data Result {ℓ} (A : Type ℓ) : Type ℓ where
  ok : A → Result A
  err : TxnError → Result A

infixl 5 ◌>>=◌ ◌>>◌
abbrev ◌>>=◌ {ℓ κ} : {A : Type ℓ} {B : Type κ} → Result A → (A → Result B) → Result B
ok a >>= f = f a
err e >>= f = err e

abbrev ◌>>◌ {ℓ} : {B : Type ℓ} → Result (Unit {0}) → Result B → Result B
m >> k = m >>= λ _. k

abbrev pub is_active : TxnStatus → Bool
is_active active = true
is_active committed = false
is_active rolled_back = false

-- `chain.latest_ts().is_some_and(|ts| ts > snapshot)`
abbrev is_later : ℕ → Option ℕ → Bool
is_later snapshot_ts none = false
is_later snapshot_ts (some ts) = ltb snapshot_ts ts

abbrev pub minimum : List ℕ → Option ℕ
minimum [] = none
minimum (t ∷ ts) = elim (minimum ts) [ none ↦ some t | some u ↦ some (min t u) ]

module _ {R : Type 0} where
  -- TransactionManager::new
  unfoldable pub new_manager : TransactionManager R
  new_manager = record { chains = []; active_txns = []; next_txn_id = 0; clock_ts = 0 }

  pub begin : TransactionManager R → Transaction R × TransactionManager R
  begin m =
      let txn_id = saturating_add m.next_txn_id 1 in
      (
        record { txn_id = txn_id; snapshot_ts = m.clock_ts; write_set = []; status = active },
        record m { next_txn_id = txn_id; active_txns = insert txn_id m.clock_ts m.active_txns },
      )

  abbrev pub op_record_id : WriteOp R → ℕ
  op_record_id (upsert_op id row) = id
  op_record_id (delete_op id) = id

  abbrev pub op_row : WriteOp R → Option R
  op_row (upsert_op id row) = some row
  op_row (delete_op id) = none

  abbrev pub visible_in : ℕ → Option (VersionChain R) → Option R
  visible_in snapshot_ts none = none
  visible_in snapshot_ts (some chain) = visible_at snapshot_ts chain

  -- The transaction's own last write to the record, or what its snapshot sees.
  pub read : TransactionManager R → Transaction R → ℕ → Option R
  read m txn record_id = elim (find (λ op. op_record_id op == record_id) (reverse txn.write_set)) [
    | some op ↦ op_row op
    | none ↦ visible_in txn.snapshot_ts (get record_id m.chains)
  ]

  -- The loop over the chains: ids and records that the snapshot sees.
  visible_of : ℕ → Map ℕ (VersionChain R) → List (ℕ × R)
  visible_of snapshot_ts [] = []
  visible_of snapshot_ts ((record_id, chain) ∷ rest) =
      let others = visible_of snapshot_ts rest in
      elim (visible_at snapshot_ts chain) [ none ↦ others | some row ↦ (record_id, row) ∷ others ]

  pub visible_records : TransactionManager R → Transaction R → List (ℕ × R)
  unfolding visible_of
  visible_records m txn = visible_of txn.snapshot_ts m.chains

  pub upsert : Transaction R → ℕ → R → Transaction R
  upsert txn record_id row = record txn {
    write_set = txn.write_set ++ upsert_op record_id row ∷ [];
  }

  pub delete_record : Transaction R → ℕ → Transaction R
  delete_record txn record_id = record txn { write_set = txn.write_set ++ delete_op record_id ∷ [] }

  abbrev pub updated_since : ℕ → Option (VersionChain R) → Bool
  updated_since snapshot_ts none = false
  updated_since snapshot_ts (some chain) = is_later snapshot_ts (latest_ts chain)

  -- The loop of the conflict check.
  pub check_ops : Map ℕ (VersionChain R) → ℕ → List (WriteOp R) → Result (Unit {0})
  check_ops chains snapshot_ts [] = ok tt
  check_ops chains snapshot_ts (op ∷ ops) =
      if updated_since snapshot_ts (get (op_record_id op) chains)
      then err write_write_conflict
      else check_ops chains snapshot_ts ops

  pub can_commit : TransactionManager R → Transaction R → Result (Unit {0})
  unfolding check_ops
  can_commit m txn =
      if is_active txn.status
      then check_ops m.chains txn.snapshot_ts txn.write_set
      else err not_active

  -- `entry(record_id).or_insert_with(..)` and the call on the chain.
  pub apply_op : ℕ → ℕ → Map ℕ (VersionChain R) → WriteOp R → Map ℕ (VersionChain R)
  apply_op txn_id commit_ts chains (upsert_op id row) =
      insert id (insert_version row txn_id commit_ts (unwrap_or (get id chains) (new id))) chains
  apply_op txn_id commit_ts chains (delete_op id) =
      insert id (delete txn_id commit_ts (unwrap_or (get id chains) (new id))) chains

  pub apply_ops : ℕ → ℕ → Map ℕ (VersionChain R) → List (WriteOp R) → Map ℕ (VersionChain R)
  unfolding apply_op
  apply_ops txn_id commit_ts chains [] = chains
  apply_ops txn_id commit_ts chains (op ∷ ops) =
      apply_ops txn_id commit_ts (apply_op txn_id commit_ts chains op) ops

  -- The manager and the transaction once the check has passed.
  pub commit_state : TransactionManager R → Transaction R → TransactionManager R
  unfolding apply_ops
  commit_state m txn =
      let commit_ts = saturating_add m.clock_ts 1 in
      record m {
        clock_ts = commit_ts;
        chains = apply_ops txn.txn_id commit_ts m.chains txn.write_set;
        active_txns = remove txn.txn_id m.active_txns;
      }

  -- A failing commit leaves the manager and the transaction as they were.
  pub commit :
      TransactionManager R → Transaction R → Result (ℕ × TransactionManager R × Transaction R)
  unfolding can_commit commit_state
  commit m txn = do
    can_commit m txn
    ok (
      saturating_add m.clock_ts 1,
      commit_state m txn,
      record txn { write_set = []; status = committed },
    )

  pub rollback :
      TransactionManager R → Transaction R → Result (TransactionManager R × Transaction R)
  rollback m txn =
      if is_active txn.status
      then ok (
        record m { active_txns = remove txn.txn_id m.active_txns },
        record txn { write_set = []; status = rolled_back },
      )
      else err not_active

  pub oldest_active_snapshot : TransactionManager R → Option ℕ
  oldest_active_snapshot m = minimum (values m.active_txns)

  pub compact_versions_with_floor : ℕ → TransactionManager R → TransactionManager R
  compact_versions_with_floor min_versions_to_keep m =
      let oldest = unwrap_or (oldest_active_snapshot m) u64_max in
      record m {
        chains =
            map_values
              (λ chain. compact_for_oldest_snapshot_with_floor oldest min_versions_to_keep chain)
              m.chains;
      }

  pub compact_versions : TransactionManager R → TransactionManager R
  unfolding compact_versions_with_floor
  compact_versions m = compact_versions_with_floor 1 m

  abbrev count_of : Option (VersionChain R) → ℕ
  count_of none = 0
  count_of (some chain) = version_count chain

  pub record_version_count : TransactionManager R → ℕ → ℕ
  record_version_count m record_id = count_of (get record_id m.chains)

  pub contains_record_id : TransactionManager R → ℕ → Bool
  contains_record_id m record_id = contains_key record_id m.chains
