-- ===== src/Transaction/Invariant.antt =====
-- engine/src/transaction.rs: the invariant of the transaction manager, kept by every operation.

use dna_db.Prelude.{
  ℕ, ◌≤◌, ◌≡◌, subst, Bool-cases, Option-cases, inl, inr, some, List, [], ◌∷◌, All, unwrap_or,
  arith, saturating_add, saturating_add_lem, u64_max, ◌==◌, nat_eq,
}
use dna_db.Prelude.Map.{Map, get, insert, remove, get-insert, get-remove, get-map_values-some}
use dna_db.Mvcc.{VersionEntry, VersionChain, new}
use dna_db.Mvcc.Order.{
  IsSorted, IsBelow, insert_version-IsSorted, delete-IsSorted, insert_version-IsBelow,
  delete-IsBelow,
}
use dna_db.Mvcc.Compaction.{compact-IsSorted, compact-IsBelow}
use dna_db.Transaction.{
  Transaction, TransactionManager, WriteOp, upsert_op, delete_op, Result, ok, err, new_manager,
  begin, commit_state, commit, rollback, apply_op, apply_ops, compact_versions_with_floor,
}

module _ {R : Type 0} where
  -- A chain in order, with no timestamp after the clock.
  abbrev pub IsChain : ℕ → VersionChain R → Type 0
  IsChain clock chain = IsSorted chain × IsBelow clock chain

  abbrev pub AreChains : ℕ → Map ℕ (VersionChain R) → Type 0
  AreChains clock chains =
      (id : ℕ) (chain : VersionChain R) → get id chains ≡ some chain → IsChain clock chain

  pub record IsValid (m : TransactionManager R) : Type 0 where
    pub clock_fits : m.clock_ts ≤ u64_max
    pub chains_valid : AreChains m.clock_ts m.chains
    pub snapshots_past :
        (id snapshot : ℕ) → get id m.active_txns ≡ some snapshot → snapshot ≤ m.clock_ts

  pub IsValid-new : IsValid new_manager
  unfolding new_manager get
  IsValid-new = record {
    clock_fits = omega arith;
    chains_valid = λ id chain e. absurd (cc e);
    snapshots_past = λ id snapshot e. absurd (cc e);
  }

  pub IsValid-begin : (m : TransactionManager R) → IsValid m → IsValid (begin m).1
  unfolding begin
  IsValid-begin m v = record {
    clock_fits = v.clock_fits;
    chains_valid = v.chains_valid;
    snapshots_past = λ id snapshot e. ground (
      arith,
      get-insert (saturating_add m.next_txn_id 1) id m.clock_ts m.active_txns,
      v.snapshots_past id snapshot,
    );
  }

  pub IsValid-remove :
      (m : TransactionManager R) (id : ℕ)
      → IsValid m
      → IsValid (record m { active_txns = remove id m.active_txns })
  IsValid-remove m id v = record {
    clock_fits = v.clock_fits;
    chains_valid = v.chains_valid;
    snapshots_past =
        λ j snapshot e. ground (arith, get-remove id j m.active_txns, v.snapshots_past j snapshot);
  }

  later-IsBelow :
      (clock later : ℕ) (vs : List (VersionEntry R))
      → clock ≤ later
      → All (λ (v : VersionEntry R). v.ts ≤ clock) vs
      → All (λ (v : VersionEntry R). v.ts ≤ later) vs
  later-IsBelow clock later [] h b = tt
  later-IsBelow clock later (v ∷ vs) h b = (omega arith, later-IsBelow clock later vs h b.1)

  pub AreChains-later :
      (clock later : ℕ) (chains : Map ℕ (VersionChain R))
      → clock ≤ later
      → AreChains clock chains
      → AreChains later chains
  AreChains-later clock later chains h a id chain e =
      ((a id chain e).0, later-IsBelow clock later chain.versions h (a id chain e).1)

  -- The chain that an operation finds, or makes, for its record.
  pub entry-IsChain :
      (clock id : ℕ) (chains : Map ℕ (VersionChain R))
      → AreChains clock chains
      → IsChain clock (unwrap_or (get id chains) (new id))
  unfolding new
  entry-IsChain clock id chains a = elim (Option-cases (get id chains)) [
    | inl q ↦ rw q (tt, tt)
    | inr (chain, q) ↦ rw q (a id chain q)
  ]

  insert-AreChains :
      (clock id : ℕ) (chain : VersionChain R) (chains : Map ℕ (VersionChain R))
      → IsChain clock chain
      → AreChains clock chains
      → AreChains clock (insert id chain chains)
  insert-AreChains clock id chain chains c a j d e = elim (Bool-cases (id == j)) [
    | inl same ↦
        let found : chain ≡ d = ground (arith, get-insert id j chain chains) in
        subst (IsChain clock) found c
    | inr other ↦ a j d (ground (arith, get-insert id j chain chains))
  ]

  pub apply_op-AreChains :
      (clock txn_id ts : ℕ) (chains : Map ℕ (VersionChain R)) (op : WriteOp R)
      → ts ≤ clock
      → AreChains clock chains
      → AreChains clock (apply_op txn_id ts chains op)
  unfolding apply_op
  apply_op-AreChains clock txn_id ts chains (upsert_op id row) h a =
      let (s, b) = entry-IsChain clock id chains a in
      insert-AreChains clock id _ chains
        (
          insert_version-IsSorted row txn_id ts _ s,
          insert_version-IsBelow clock row txn_id ts _ h s b,
        )
        a
  apply_op-AreChains clock txn_id ts chains (delete_op id) h a =
      let (s, b) = entry-IsChain clock id chains a in
      insert-AreChains clock id _ chains
        (delete-IsSorted txn_id ts _ s, delete-IsBelow clock txn_id ts _ h s b) a

  apply_ops-AreChains :
      (clock txn_id ts : ℕ) (chains : Map ℕ (VersionChain R)) (ops : List (WriteOp R))
      → ts ≤ clock
      → AreChains clock chains
      → AreChains clock (apply_ops txn_id ts chains ops)
  unfolding apply_ops
  apply_ops-AreChains clock txn_id ts chains [] h a = a
  apply_ops-AreChains clock txn_id ts chains (op ∷ ops) h a =
      apply_ops-AreChains clock txn_id ts (apply_op txn_id ts chains op) ops h
        (apply_op-AreChains clock txn_id ts chains op h a)

  pub IsValid-commit :
      (m : TransactionManager R) (txn : Transaction R) → IsValid m → IsValid (commit_state m txn)
  unfolding commit_state
  IsValid-commit m txn v = record {
    clock_fits = (saturating_add_lem m.clock_ts 1).0;
    chains_valid =
        apply_ops-AreChains _ txn.txn_id _ m.chains txn.write_set (omega arith)
          (AreChains-later _ _ m.chains grows v.chains_valid);
    snapshots_past = λ id snapshot e.
        omega (arith, grows, (IsValid-remove m txn.txn_id v).snapshots_past id snapshot e);
  }
    where
      grows : m.clock_ts ≤ saturating_add m.clock_ts 1
      grows = (saturating_add_lem m.clock_ts 1).1 v.clock_fits

  pub IsValid-compact :
      (floor : ℕ) (m : TransactionManager R)
      → IsValid m
      → IsValid (compact_versions_with_floor floor m)
  unfolding compact_versions_with_floor
  IsValid-compact floor m v = record {
    clock_fits = v.clock_fits;
    chains_valid = λ id chain e.
        let (c, q, r) = get-map_values-some _ id m.chains e in
        let (s, b) = v.chains_valid id c q in
        subst (IsChain m.clock_ts) r (compact-IsSorted _ floor c s, compact-IsBelow _ _ floor c b);
    snapshots_past = v.snapshots_past;
  }

-- A call of the manager by some client; the transaction is whatever the client holds.
pub data Call (R : Type 0) : Type 0 where
  begins : Call R
  commits : Transaction R → Call R
  rolls_back : Transaction R → Call R
  compacts : ℕ → Call R

module _ {R : Type 0} where
  abbrev pub committed_or :
      TransactionManager R
      → Result (ℕ × TransactionManager R × Transaction R)
      → TransactionManager R
  committed_or m (ok (ts, m', txn)) = m'
  committed_or m (err e) = m

  abbrev pub rolled_back_or :
      TransactionManager R → Result (TransactionManager R × Transaction R) → TransactionManager R
  rolled_back_or m (ok (m', txn)) = m'
  rolled_back_or m (err e) = m

  unfoldable pub step : TransactionManager R → Call R → TransactionManager R
  step m begins = (begin m).1
  step m (commits txn) = committed_or m (commit m txn)
  step m (rolls_back txn) = rolled_back_or m (rollback m txn)
  step m (compacts floor) = compact_versions_with_floor floor m

  unfoldable pub run : TransactionManager R → List (Call R) → TransactionManager R
  run m [] = m
  run m (c ∷ cs) = run (step m c) cs

  pub step-IsValid : (m : TransactionManager R) (c : Call R) → IsValid m → IsValid (step m c)
  unfolding step commit rollback
  step-IsValid m begins v = IsValid-begin m v
  step-IsValid m (commits txn) v = ground (arith, IsValid-commit m txn v)
  step-IsValid m (rolls_back txn) v = ground (arith, IsValid-remove m txn.txn_id v)
  step-IsValid m (compacts floor) v = IsValid-compact floor m v

  run-IsValid : (m : TransactionManager R) (cs : List (Call R)) → IsValid m → IsValid (run m cs)
  unfolding run
  run-IsValid m [] v = v
  run-IsValid m (c ∷ cs) v = run-IsValid (step m c) cs (step-IsValid m c v)

  -- After any sequence of calls on a new manager every chain is in timestamp order, no version is
  -- later than the clock, the clock fits a `u64`, and no active transaction has a later snapshot.
  pub run-new-IsValid : (cs : List (Call R)) → IsValid (run new_manager cs)
  run-new-IsValid cs = run-IsValid new_manager cs IsValid-new
