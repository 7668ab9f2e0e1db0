-- ===== src/Recovery/Twice.antt =====
-- engine/src/recovery.rs: a second recovery finds nothing to do.
use dna_db.Prelude.{
  ℕ, ◌≤◌, ◌≡◌, refl, sym, subst, Option, none, List, [], ◌∷◌, ◌++◌, length, max, All, arith, ltb,
  Bool-cases, inl, inr, length-take,
}
use dna_db.Prelude.Results.{ok}
use dna_db.Wal.{Wal}
use dna_db.Wal.Log.{IsLog}
use dna_db.Storage.{CollectionStorage, scan_meta_tail}
use dna_db.Storage.Frames.{Stored, max_version}
use dna_db.Processor.Persist.{made-version}
use dna_db.Recovery.{RecoveryStats, replay_pending_wal_after_open}
use dna_db.Recovery.Replay.{
  Job, Env, Contents, entries_of, fresh, Fits, IsWritten, added, with_jobs, IsStored, found,
  root_of, high_water_of, replay_pending_lem,
}

module _ (env : Env) where
  max_version-append :
      (m : ℕ) (strands : List Stored) (s : Stored)
      → max_version m (strands ++ (s ∷ [])) ≡ max (max_version m strands) s.0.version
  max_version-append m [] s = refl
  max_version-append m (t ∷ strands) s = max_version-append (max m t.0.version) strands s

  -- Storing jobs never lowers the highest version, and raises it to their sequences.
  high_water_raised :
      (c : Contents) (jobs : List Job)
      → All (IsWritten env) jobs
      → (high_water_of c ≤ high_water_of (with_jobs env c jobs))
        × All (λ (j : Job). j.entry.sequence ≤ high_water_of (with_jobs env c jobs)) jobs
  high_water_raised c [] w = (omega arith, tt)
  high_water_raised c (j ∷ jobs) w =
      let (higher, rest) = high_water_raised (added env c j) jobs w.1 in
      let version =
        made-version env.cpu (env.clock j.entry.sequence) env.collection_id j.entry.sequence
          j.entry.payload j.stored.0 w.0.made in
      let step = max_version-append 0 c.strands j.stored in
      (omega (arith, higher, step), (omega (arith, higher, step, version), rest))

  fresh-IsWritten :
      (high_water : ℕ) (jobs : List Job)
      → All (IsWritten env) jobs
      → All (IsWritten env) (fresh high_water jobs)
  fresh-IsWritten high_water [] w = tt
  fresh-IsWritten high_water (j ∷ jobs) w = elim (Bool-cases (ltb high_water j.entry.sequence)) [
    | inl above ↦ rw above (w.0, fresh-IsWritten high_water jobs w.1)
    | inr below ↦ rw below (fresh-IsWritten high_water jobs w.1)
  ]

  -- Where what was fresh is not above a new high water, nothing is.
  none_fresh :
      (low high : ℕ) (jobs : List Job)
      → low ≤ high
      → All (λ (j : Job). j.entry.sequence ≤ high) (fresh low jobs)
      → fresh high jobs ≡ []
  none_fresh low high [] h below = refl
  none_fresh low high (j ∷ jobs) h below = elim (Bool-cases (ltb low j.entry.sequence)) [
    | inl above ↦
        let js : fresh low (j ∷ jobs) ≡ j ∷ fresh low jobs = rw above refl in
        let (here, rest) = subst (All (λ (k : Job). k.entry.sequence ≤ high)) js below in
        ground (arith, here, none_fresh low high jobs h rest)
    | inr under ↦
        let js : fresh low (j ∷ jobs) ≡ fresh low jobs = rw under refl in
        let rest = subst (All (λ (k : Job). k.entry.sequence ≤ high)) js below in
        ground (arith, h, under, none_fresh low high jobs h rest)
  ]

  found-Fits : (c : Contents) → Fits c → Fits (found c)
  found-Fits c (a, b, d) = (a, b, omega (arith, d, length-take (scan_meta_tail c.meta) c.meta))

  -- Recovery is idempotent: what a first recovery leaves, a second one finds complete. It replays
  -- nothing, and leaves the strands and the complements of the first. The conditions are those of the
  -- first.
  pub replay_pending_twice :
      (store : CollectionStorage) (c : Contents) (log : Wal) (jobs : List Job)
      (initial_mmap : Option ℕ)
      → IsStored env store c
      → IsLog log (entries_of jobs)
      → All (IsWritten env) jobs
      → Fits (with_jobs env (found c) (fresh (high_water_of c) jobs))
      → env.bincode.deserialize_codons [] ≡ none
      → (store' : CollectionStorage) × (store'' : CollectionStorage) × (stats : RecoveryStats)
        × (replay_pending_wal_after_open env.cpu env.compute_crc32 env.bincode env.clock
              (root_of store log)
              env.collection_id
              initial_mmap
            ≡ (root_of store' log, ok stats))
        × (replay_pending_wal_after_open env.cpu env.compute_crc32 env.bincode env.clock
              (root_of store' log)
              env.collection_id
              initial_mmap
            ≡ (
              root_of store'' log,
              ok (record {
                pool_high_water_before =
                    high_water_of (with_jobs env (found c) (fresh (high_water_of c) jobs));
                replayed = 0;
              }),
            ))
        × IsStored env store'' (found (with_jobs env (found c) (fresh (high_water_of c) jobs)))
  replay_pending_twice store c log jobs initial_mmap s l w fits e =
      let news = fresh (high_water_of c) jobs in
      let c' = with_jobs env (found c) news in
      let (store', first, s') = replay_pending_lem env store c log jobs initial_mmap s l w fits e in
      let (higher, raised) =
        high_water_raised (found c) news (fresh-IsWritten (high_water_of c) jobs w) in
      let nothing : fresh (high_water_of c') jobs ≡ [] =
        none_fresh (high_water_of c) (high_water_of c') jobs higher raised in
      let (store'', second, s'') =
        replay_pending_lem env store' c' log jobs initial_mmap s' l w
          (subst (λ l'. Fits (with_jobs env (found c') l')) (sym nothing) (found-Fits c' fits)) e in
      (
        store',
        store'',
        _,
        first,
        subst
            (λ l'.
              replay_pending_wal_after_open env.cpu env.compute_crc32 env.bincode env.clock
                (root_of store' log) env.collection_id initial_mmap
              ≡ (
                root_of store'' log,
                ok (record { pool_high_water_before = high_water_of c'; replayed = length l' }),
              ))
            nothing second,
        subst (λ l'. IsStored env store'' (with_jobs env (found c') l')) nothing s'',
      )
