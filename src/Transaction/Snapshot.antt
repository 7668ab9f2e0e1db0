-- ===== src/Transaction/Snapshot.antt =====
-- engine/src/transaction.rs: snapshot isolation over any sequence of calls.
use dna_db.Prelude.{
  ℕ, suc, ◌+◌, ◌≤◌, ◌≡◌, ◌≢◌, refl, ◌∙◌, inl, some, List, [], ◌∷◌, length, arith, saturating_add,
  saturating_add_fits, u64_max, nat_eq, All,
}
use dna_db.Prelude.Map.{get, remove, get-insert, get-remove}
use dna_db.Transaction.{
  Transaction, TransactionManager, begin, commit, commit_state, rollback, read,
  compact_versions_with_floor,
}
use dna_db.Transaction.Invariant.{
  IsValid, Call, begins, commits, rolls_back, compacts, step, run, IsValid-begin, IsValid-commit,
  IsValid-remove, IsValid-compact,
}
use dna_db.Transaction.Isolation.{read-commit_state, read-begin, read-remove}
use dna_db.Transaction.Reclaim.{read-compact}

module _ {R : Type 0} where
  -- The call does not end the transaction with this id.
  abbrev pub Leaves : ℕ → Call R → Type 0
  Leaves id begins = Unit {0}
  Leaves id (commits txn) = txn.txn_id ≢ id
  Leaves id (rolls_back txn) = txn.txn_id ≢ id
  Leaves id (compacts floor) = Unit {0}

  -- A transaction that is open in a valid manager, whose counters have room for `k` more calls.
  pub record IsOpen (reader : Transaction R) (k : ℕ) (m : TransactionManager R) : Type 0 where
    pub valid : IsValid m
    pub listed : get reader.txn_id m.active_txns ≡ some reader.snapshot_ts
    pub issued : reader.txn_id ≤ m.next_txn_id
    pub room_for_ids : m.next_txn_id + k ≤ u64_max
    pub room_for_clock : m.clock_ts + k ≤ u64_max

  IsOpen-later :
      (reader : Transaction R) (k : ℕ) (m : TransactionManager R)
      → IsOpen reader (suc k) m
      → IsOpen reader k m
  IsOpen-later reader k m o = record {
    valid = o.valid;
    listed = o.listed;
    issued = o.issued;
    room_for_ids = omega (arith, o.room_for_ids);
    room_for_clock = omega (arith, o.room_for_clock);
  }

  IsOpen-begin :
      (reader : Transaction R) (k : ℕ) (m : TransactionManager R)
      → IsOpen reader (suc k) m
      → IsOpen reader k (begin m).1
  unfolding begin
  IsOpen-begin reader k m o = record {
    valid = IsValid-begin m o.valid;
    listed = ground (
      arith,
      get-insert (saturating_add m.next_txn_id 1) reader.txn_id m.clock_ts m.active_txns,
      o.listed,
      o.issued,
      fresh,
    );
    issued = omega (arith, o.issued, fresh);
    room_for_ids = omega (arith, o.room_for_ids, fresh);
    room_for_clock = omega (arith, o.room_for_clock);
  }
    where
      fresh : saturating_add m.next_txn_id 1 ≡ m.next_txn_id + 1
      fresh = saturating_add_fits m.next_txn_id 1 (omega (arith, o.room_for_ids))

  -- Closing another transaction leaves the reader listed.
  listed_of_other :
      (reader other : Transaction R) (m : TransactionManager R)
      → get reader.txn_id m.active_txns ≡ some reader.snapshot_ts
      → other.txn_id ≢ reader.txn_id
      → get reader.txn_id (remove other.txn_id m.active_txns) ≡ some reader.snapshot_ts
  listed_of_other reader other m listed ne =
      ground (arith, get-remove other.txn_id reader.txn_id m.active_txns)

  IsOpen-commit :
      (reader writer : Transaction R) (k : ℕ) (m : TransactionManager R)
      → IsOpen reader (suc k) m
      → writer.txn_id ≢ reader.txn_id
      → IsOpen reader k (commit_state m writer)
  unfolding commit_state
  IsOpen-commit reader writer k m o ne = record {
    valid = IsValid-commit m writer o.valid;
    listed = listed_of_other reader writer m o.listed ne;
    issued = o.issued;
    room_for_ids = omega (arith, o.room_for_ids);
    room_for_clock = omega (arith, o.room_for_clock, ticked);
  }
    where
      ticked : saturating_add m.clock_ts 1 ≡ m.clock_ts + 1
      ticked = saturating_add_fits m.clock_ts 1 (omega (arith, o.room_for_clock))

  IsOpen-remove :
      (reader other : Transaction R) (k : ℕ) (m : TransactionManager R)
      → IsOpen reader (suc k) m
      → other.txn_id ≢ reader.txn_id
      → IsOpen reader k (record m { active_txns = remove other.txn_id m.active_txns })
  IsOpen-remove reader other k m o ne = record {
    valid = IsValid-remove m other.txn_id o.valid;
    listed = listed_of_other reader other m o.listed ne;
    issued = o.issued;
    room_for_ids = omega (arith, o.room_for_ids);
    room_for_clock = omega (arith, o.room_for_clock);
  }

  IsOpen-compact :
      (reader : Transaction R) (k floor : ℕ) (m : TransactionManager R)
      → IsOpen reader (suc k) m
      → IsOpen reader k (compact_versions_with_floor floor m)
  unfolding compact_versions_with_floor
  IsOpen-compact reader k floor m o = record {
    valid = IsValid-compact floor m o.valid;
    listed = o.listed;
    issued = o.issued;
    room_for_ids = omega (arith, o.room_for_ids);
    room_for_clock = omega (arith, o.room_for_clock);
  }

  step-IsOpen :
      (reader : Transaction R) (k : ℕ) (m : TransactionManager R) (c : Call R)
      → IsOpen reader (suc k) m
      → Leaves reader.txn_id c
      → IsOpen reader k (step m c)
  unfolding step commit rollback
  step-IsOpen reader k m begins o l = IsOpen-begin reader k m o
  step-IsOpen reader k m (commits txn) o l =
      ground (arith, IsOpen-commit reader txn k m o l, IsOpen-later reader k m o)
  step-IsOpen reader k m (rolls_back txn) o l =
      ground (arith, IsOpen-remove reader txn k m o l, IsOpen-later reader k m o)
  step-IsOpen reader k m (compacts floor) o l = IsOpen-compact reader k floor m o

  step-read :
      (reader : Transaction R) (k : ℕ) (m : TransactionManager R) (c : Call R) (id : ℕ)
      → IsOpen reader (suc k) m
      → read (step m c) reader id ≡ read m reader id
  unfolding step commit rollback
  step-read reader k m begins id o = read-begin m reader id
  step-read reader k m (commits txn) id o = ground (
    arith,
    read-commit_state m txn reader id o.valid
        (o.valid.snapshots_past reader.txn_id reader.snapshot_ts o.listed)
        (omega (arith, o.room_for_clock)),
  )
  step-read reader k m (rolls_back txn) id o = ground (arith, read-remove m reader txn.txn_id id)
  step-read reader k m (compacts floor) id o = read-compact floor m reader id o.valid (inl o.listed)

  -- Whatever other clients do (begin, commit, roll back, compact), a transaction that stays open reads
  -- of every record what it read at first, as long as ids and clock do not reach the end of `u64`.
  pub run-read :
      (reader : Transaction R) (m : TransactionManager R) (cs : List (Call R)) (id : ℕ)
      → IsOpen reader (length cs) m
      → All (Leaves reader.txn_id) cs
      → read (run m cs) reader id ≡ read m reader id
  unfolding run
  run-read reader m [] id o l = refl
  run-read reader m (c ∷ cs) id o (l, ls) =
      run-read reader (step m c) cs id (step-IsOpen reader (length cs) m c o l) ls
      ∙ step-read reader (length cs) m c id o
