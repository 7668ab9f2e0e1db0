-- ===== src/Transaction/Commit.antt =====
-- engine/src/transaction.rs: when a commit is refused, and what it makes visible.
use dna_db.Prelude.{
  ℕ, ◌+◌, ◌≤◌, ◌<◌, ◌≡◌, refl, ◌∙◌, ◌⊎◌, inl, inr, Bool, true, false, ◌||◌, Option, some, List, [],
  ◌∷◌, arith, lt→ltb, saturating_add, saturating_add_lem, saturating_add_fits, u64_max, ◌==◌,
  nat_eq, eq_iff_at, if◌then◌else◌, Bool-cases, Option-cases,
}
use dna_db.Prelude.Map.{Map, get, insert, get-insert}
use dna_db.Mvcc.{VersionChain, latest_ts}
use dna_db.Mvcc.Visibility.{visible_at_of_below}
use dna_db.Mvcc.Latest.{latest_ts-insert_version, latest_ts-delete}
use dna_db.Transaction.{
  Transaction, TransactionManager, WriteOp, upsert_op, delete_op, op_record_id, visible_in,
  is_active, check_ops, can_commit, commit, commit_state, begin, read, apply_op, apply_ops, ok, err,
  write_write_conflict,
}
use dna_db.Transaction.Invariant.{
  IsValid, AreChains, AreChains-later, entry-IsChain, apply_op-AreChains,
}
use dna_db.Transaction.Isolation.{after_ops, read-after_ops, visible_in-apply_ops}

module _ {R : Type 0} where
  -- Whether a write to the record stands in the list.
  abbrev pub writes : ℕ → List (WriteOp R) → Bool
  writes id [] = false
  writes id (op ∷ ops) = (op_record_id op == id) || writes id ops

  -- The record has a chain, and its latest version is from `ts`.
  record IsLatest (ts id : ℕ) (chains : Map ℕ (VersionChain R)) : Type 0 where
    chain : VersionChain R
    held : get id chains ≡ some chain
    latest : latest_ts chain ≡ some ts

  IsLatest-insert :
      (ts id j : ℕ) (d : VersionChain R) (chains : Map ℕ (VersionChain R))
      → latest_ts d ≡ some ts
      → (j == id ≡ true) ⊎ IsLatest ts id chains
      → IsLatest ts id (insert j d chains)
  IsLatest-insert ts id j d chains e h = elim (Bool-cases (j == id)) [
    | inl same ↦ record { chain = d; held = ground (arith, get-insert j id d chains); latest = e }
    | inr other ↦ elim h [
      | inl same ↦ absurd (cc (same, other))
      | inr l ↦ record {
        chain = l.chain;
        held = ground (arith, get-insert j id d chains, l.held);
        latest = l.latest;
      }
    ]
  ]

  -- A write at `ts` to the record makes its chain end at `ts`; a write to another leaves it so.
  IsLatest-apply_op :
      (txn_id ts id : ℕ) (op : WriteOp R) (chains : Map ℕ (VersionChain R))
      → AreChains ts chains
      → (op_record_id op == id ≡ true) ⊎ IsLatest ts id chains
      → IsLatest ts id (apply_op txn_id ts chains op)
  unfolding apply_op
  IsLatest-apply_op txn_id ts id (upsert_op j row) chains a h =
      let (s, b) = entry-IsChain ts j chains a in
      IsLatest-insert ts id j _ chains (latest_ts-insert_version row txn_id ts _ s b) h
  IsLatest-apply_op txn_id ts id (delete_op j) chains a h =
      let (s, b) = entry-IsChain ts j chains a in
      IsLatest-insert ts id j _ chains (latest_ts-delete txn_id ts _ s b) h

  IsLatest-apply_ops :
      (txn_id ts id : ℕ) (ops : List (WriteOp R)) (chains : Map ℕ (VersionChain R))
      → AreChains ts chains
      → (writes id ops ≡ true) ⊎ IsLatest ts id chains
      → IsLatest ts id (apply_ops txn_id ts chains ops)
  unfolding apply_ops
  IsLatest-apply_ops txn_id ts id [] chains a (inl w) = absurd (cc)
  IsLatest-apply_ops txn_id ts id [] chains a (inr l) = l
  IsLatest-apply_ops txn_id ts id (op ∷ ops) chains a h =
      IsLatest-apply_ops txn_id ts id ops (apply_op txn_id ts chains op)
        (apply_op-AreChains ts txn_id ts chains op (omega arith) a)
        (elim (Bool-cases (op_record_id op == id)) [
          | inl this ↦ inr (IsLatest-apply_op txn_id ts id op chains a (inl this))
          | inr other ↦ elim h [
            | inl w ↦ inl (ground arith)
            | inr l ↦ inr (IsLatest-apply_op txn_id ts id op chains a (inr l))
          ]
        ])

  -- The check fails on a list with a write to a record whose latest version is after the snapshot.
  check_ops_conflict :
      (ts id snapshot : ℕ) (ops : List (WriteOp R)) (chains : Map ℕ (VersionChain R))
      → IsLatest ts id chains
      → snapshot < ts
      → writes id ops ≡ true
      → check_ops chains snapshot ops ≡ err write_write_conflict
  unfolding check_ops
  check_ops_conflict ts id snapshot [] chains l h w = absurd (cc)
  check_ops_conflict ts id snapshot (op ∷ ops) chains l h w =
      elim (Bool-cases (op_record_id op == id)) [
        | inl this ↦
            let same : op_record_id op ≡ id = (eq_iff_at (op_record_id op) id).0 this in
            rw (same, l.held, l.latest, lt→ltb snapshot ts h) refl
        | inr other ↦ ground (arith, check_ops_conflict ts id snapshot ops chains l h)
      ]

  conflict_after_commit :
      (m : TransactionManager R) (first second : Transaction R) (id : ℕ)
      → IsValid m
      → m.clock_ts < u64_max
      → second.snapshot_ts ≤ m.clock_ts
      → is_active second.status ≡ true
      → writes id first.write_set ≡ true
      → writes id second.write_set ≡ true
      → commit (commit_state m first) second ≡ err write_write_conflict
  unfolding commit can_commit commit_state
  conflict_after_commit m first second id v room past open' w1 w2 =
      rw
        (
          open',
          check_ops_conflict ts id second.snapshot_ts second.write_set chains latest
              (omega (arith, ticked)) w2,
        )
        refl
    where
      ts : ℕ
      ts = saturating_add m.clock_ts 1

      ticked : ts ≡ m.clock_ts + 1
      ticked = saturating_add_fits m.clock_ts 1 (omega arith)

      chains : Map ℕ (VersionChain R)
      chains = apply_ops first.txn_id ts m.chains first.write_set

      latest : IsLatest ts id chains
      latest =
          IsLatest-apply_ops first.txn_id ts id first.write_set m.chains
            (AreChains-later m.clock_ts ts m.chains (omega (arith, ticked)) v.chains_valid) (inl w1)

  pub commit_ok :
      (m m' : TransactionManager R) (txn txn' : Transaction R) (ts : ℕ)
      → commit m txn ≡ ok (ts, m', txn')
      → m' ≡ commit_state m txn
  unfolding commit
  commit_ok m m' txn txn' ts e = ground arith

  -- The first committer wins: of two transactions that write one record, the second is refused with a
  -- conflict once the first has committed, if its snapshot is not after the clock before that commit
  -- and that clock is not saturated.
  pub first_committer_wins :
      (m m' : TransactionManager R) (first first' second : Transaction R) (ts id : ℕ)
      → IsValid m
      → m.clock_ts < u64_max
      → commit m first ≡ ok (ts, m', first')
      → second.snapshot_ts ≤ m.clock_ts
      → is_active second.status ≡ true
      → writes id first.write_set ≡ true
      → writes id second.write_set ≡ true
      → commit m' second ≡ err write_write_conflict
  first_committer_wins m m' first first' second ts id v room e past open' w1 w2 =
      rw (commit_ok m m' first first' ts e)
        (conflict_after_commit m first second id v room past open' w1 w2)

  pub after_ops_of_writes :
      (id : ℕ) (ops : List (WriteOp R)) (old old' : Option R)
      → writes id ops ≡ true
      → after_ops id ops old ≡ after_ops id ops old'
  after_ops_of_writes id [] old old' w = absurd (cc)
  after_ops_of_writes id (op ∷ ops) old old' w = elim (Bool-cases (op_record_id op == id)) [
    | inl this ↦ rw this refl
    | inr other ↦ after_ops_of_writes id ops _ _ (ground arith)
  ]

  pub after_ops_of_none :
      (id : ℕ) (ops : List (WriteOp R)) (old : Option R)
      → writes id ops ≡ false
      → after_ops id ops old ≡ old
  after_ops_of_none id [] old w = refl
  after_ops_of_none id (op ∷ ops) old w = ground (arith, after_ops_of_none id ops old)

  visible_in-later :
      (clock later id : ℕ) (chains : Map ℕ (VersionChain R))
      → AreChains clock chains
      → clock ≤ later
      → visible_in later (get id chains) ≡ visible_in clock (get id chains)
  visible_in-later clock later id chains a h = elim (Option-cases (get id chains)) [
    | inl q ↦ rw q refl
    | inr (chain, q) ↦ rw q (visible_at_of_below clock later chain (a id chain q).1 h)
  ]

  -- A transaction that begins after a commit reads, of a record that the commit wrote, what the
  -- committing transaction read of it; of any other record, what one begun just before would read.
  pub read_after_commit :
      (m m' : TransactionManager R) (txn txn' : Transaction R) (ts id : ℕ)
      → IsValid m
      → commit m txn ≡ ok (ts, m', txn')
      → read (begin m').1 (begin m').0 id
        ≡ (if writes id txn.write_set then read m txn id else read (begin m).1 (begin m).0 id)
  unfolding begin commit_state
  read_after_commit m m' txn txn' ts id v e = rw (commit_ok m m' txn txn' ts e) (
      seen ∙ elim (Bool-cases (writes id txn.write_set)) [
        | inl written ↦
            rw (written, read-after_ops m txn id) (after_ops_of_writes id txn.write_set _ _ written)
        | inr other ↦
            rw (other, read-after_ops (begin m).1 (begin m).0 id)
              (after_ops_of_none id txn.write_set _ other)
      ])
    where
      clock : ℕ
      clock = saturating_add m.clock_ts 1

      later : m.clock_ts ≤ clock
      later = (saturating_add_lem m.clock_ts 1).1 v.clock_fits

      seen :
          read (begin (commit_state m txn)).1 (begin (commit_state m txn)).0 id
          ≡ after_ops id txn.write_set (visible_in m.clock_ts (get id m.chains))
      seen =
          read-after_ops (begin (commit_state m txn)).1 (begin (commit_state m txn)).0 id
          ∙ ground (
            arith,
            visible_in-apply_ops txn.txn_id clock clock id txn.write_set m.chains
                (AreChains-later _ _ m.chains later v.chains_valid),
            visible_in-later m.clock_ts clock id m.chains v.chains_valid later,
          )
