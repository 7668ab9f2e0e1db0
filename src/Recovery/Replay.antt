-- ===== src/Recovery/Replay.antt =====
-- engine/src/recovery.rs: what a recovery leaves, and that a second one finds nothing to do.
use dna_db.Prelude.{
  ℕ, suc, ◌+◌, ◌≤◌, ◌≡◌, refl, sym, ap, ◌∙◌, subst, Option, none, List, [], ◌∷◌, ◌++◌, length, take,
  All, arith, ltb, if◌then◌else◌, u64_max, Bool-cases, true, false, inl, inr, length-append,
}
use dna_db.Prelude.Results.{ok}
use dna_db.Encoding.{Cpu}
use dna_db.Codec.{Bincode}
use dna_db.Codec.RoundTrip.{frame_of}
use dna_db.Wal.{Wal, WalEntry, open_or_create, read_all_entries, ok as wal_ok}
use dna_db.Wal.Log.{IsLog, reopen-IsLog, read_all-IsLog}
use dna_db.Storage.{CollectionStorage, files_of, scan_meta_tail, open_or_create as open_storage}
use dna_db.Storage.Frames.{Stored, frames, max_version}
use dna_db.Storage.Blobs.{blob, blobs}
use dna_db.Storage.Reopen.{IsCollection, reopen-IsCollection}
use dna_db.Integrity.{encode_crc_entry}
use dna_db.Integrity.Layout.{length-entry}
use dna_db.Processor.{process_wal_entry_with_mode}
use dna_db.Processor.Persist.{Written, HasRoom, process-IsCollection, frames-append, blobs-append}
use dna_db.Recovery.{Root, replay_entries, replay_pending_wal_after_open}

-- An entry, its strand with what bincode writes of it, and what it writes of the complement.
pub record Job : Type 0 where
  pub entry : WalEntry
  pub stored : Stored
  pub inner : List ℕ

-- What the three files hold.
pub record Contents : Type 0 where
  pub strands : List Stored
  pub complements : List (List ℕ)
  pub meta : List ℕ

abbrev pub entries_of : List Job → List WalEntry
entries_of [] = []
entries_of (j ∷ jobs) = j.entry ∷ entries_of jobs

-- The jobs above a high water.
abbrev pub fresh : ℕ → List Job → List Job
fresh high_water [] = []
fresh high_water (j ∷ jobs) =
    let rest = fresh high_water jobs in if ltb high_water j.entry.sequence then j ∷ rest else rest

abbrev pub Fits : Contents → Type 0
Fits c =
    (length (frames c.strands) ≤ u64_max)
    × (length (blobs c.complements) ≤ u64_max)
    × (length c.meta ≤ u64_max)

-- What a start finds: the meta bytes up to the last that is not zero.
abbrev pub found : Contents → Contents
found c = record c { meta = take (scan_meta_tail c.meta) c.meta }

abbrev pub root_of : CollectionStorage → Wal → Root
root_of store log = record { collection = files_of store; log = log.disk }

abbrev pub high_water_of : Contents → ℕ
high_water_of c = max_version 0 c.strands

-- What processing an entry depends on.
pub record Env : Type 0 where
  pub cpu : Cpu
  pub compute_crc32 : List ℕ → ℕ
  pub bincode : Bincode
  pub clock : ℕ → ℕ
  pub collection_id : ℕ

module _ (env : Env) where
  abbrev pub IsWritten : Job → Type 0
  IsWritten j =
      Written env.cpu env.bincode (env.clock j.entry.sequence) env.collection_id j.entry.sequence
        j.entry.payload j.stored j.inner

  abbrev pub added : Contents → Job → Contents
  added c j = record {
    strands = c.strands ++ (j.stored ∷ []);
    complements = c.complements ++ (j.inner ∷ []);
    meta = c.meta ++ encode_crc_entry j.entry.sequence (env.compute_crc32 (frame_of j.stored.1));
  }

  -- The contents with the strands, complements and checksums of the jobs, in their order.
  abbrev pub with_jobs : Contents → List Job → Contents
  with_jobs c [] = c
  with_jobs c (j ∷ jobs) = with_jobs (added c j) jobs

  abbrev pub IsStored : CollectionStorage → Contents → Type 0
  IsStored store c = IsCollection env.bincode store c.strands c.complements c.meta

  with_jobs_fit : (c : Contents) (jobs : List Job) → Fits (with_jobs c jobs) → Fits c
  with_jobs_fit c [] h = h
  with_jobs_fit c (j ∷ jobs) h =
      let entry = encode_crc_entry j.entry.sequence (env.compute_crc32 (frame_of j.stored.1)) in
      let (a, b, d) = with_jobs_fit (added c j) jobs h in
      (
        omega (
          arith,
          a,
          ap length (frames-append c.strands j.stored),
          length-append (frames c.strands) (frame_of j.stored.1),
        ),
        omega (
          arith,
          b,
          ap length (blobs-append c.complements j.inner),
          length-append (blobs c.complements) (blob j.inner),
        ),
        omega (arith, d, length-append c.meta entry),
      )

  added_room :
      (c : Contents) (j : Job)
      → Fits (added c j)
      → HasRoom c.strands c.complements c.meta j.stored j.inner
  added_room c j (a, b, d) =
      let crc = env.compute_crc32 (frame_of j.stored.1) in
      record {
        strands_fit = omega (
          arith,
          a,
          ap length (frames-append c.strands j.stored),
          length-append (frames c.strands) (frame_of j.stored.1),
        );
        complements_fit = omega (
          arith,
          b,
          ap length (blobs-append c.complements j.inner),
          length-append (blobs c.complements) (blob j.inner),
        );
        meta_fits = omega (
          arith,
          d,
          length-append c.meta (encode_crc_entry j.entry.sequence crc),
          length-entry (j.entry.sequence, crc),
        );
      }

  -- The loop, at a count, ends well on the entries, with the strands of the jobs stored.
  abbrev Replays : ℕ → ℕ → List WalEntry → List Job → CollectionStorage → Contents → Type 0
  Replays high_water replayed entries jobs store c =
      (store' : CollectionStorage) × (replay_entries env.cpu env.compute_crc32 env.bincode env.clock
          env.collection_id high_water replayed entries store
        ≡ (store', ok (replayed + length jobs)))
      × IsStored store' (with_jobs c jobs)

  replay_above :
      (high_water replayed : ℕ) (e : WalEntry) (entries : List WalEntry)
      (store store' : CollectionStorage)
      → ltb high_water e.sequence ≡ true
      → process_wal_entry_with_mode env.cpu env.compute_crc32 env.bincode
          (env.clock e.sequence)
          store
          env.collection_id
          e.sequence
          e.payload
        ≡ (store', ok tt)
      → replay_entries env.cpu env.compute_crc32 env.bincode env.clock env.collection_id high_water
          replayed
          (e ∷ entries)
          store
        ≡ replay_entries env.cpu env.compute_crc32 env.bincode env.clock env.collection_id
            high_water
            (suc replayed)
            entries
            store'
  unfolding replay_entries
  replay_above high_water replayed e entries store store' above done = rw (above, done) refl

  replay_below :
      (high_water replayed : ℕ) (e : WalEntry) (entries : List WalEntry) (store : CollectionStorage)
      → ltb high_water e.sequence ≡ false
      → replay_entries env.cpu env.compute_crc32 env.bincode env.clock env.collection_id high_water
          replayed
          (e ∷ entries)
          store
        ≡ replay_entries env.cpu env.compute_crc32 env.bincode env.clock env.collection_id
            high_water replayed entries store
  unfolding replay_entries
  replay_below high_water replayed e entries store below = rw below refl

  -- Each entry above the high water is processed, in order, and the others are passed over.
  replay_entries-fresh :
      (high_water replayed : ℕ) (jobs : List Job) (store : CollectionStorage) (c : Contents)
      → All IsWritten jobs
      → IsStored store c
      → Fits (with_jobs c (fresh high_water jobs))
      → Replays high_water replayed (entries_of jobs) (fresh high_water jobs) store c
  replay_entries-fresh high_water replayed [] store c w s fits =
      (store, (unfold replay_entries in ap (λ n. (store, ok n)) (omega arith)), s)
  replay_entries-fresh high_water replayed (j ∷ jobs) store c w s fits =
      elim (Bool-cases (ltb high_water j.entry.sequence)) [
        | inl above ↦
            let js : fresh high_water (j ∷ jobs) ≡ j ∷ fresh high_water jobs = rw above refl in
            let fits' : Fits (with_jobs (added c j) (fresh high_water jobs)) =
              subst (λ l. Fits (with_jobs c l)) js fits in
            let (mid, done, stored, high) =
              process-IsCollection env.cpu env.compute_crc32 env.bincode
                (env.clock j.entry.sequence) env.collection_id j.entry.sequence j.entry.payload
                store c.strands c.complements c.meta j.stored j.inner s w.0
                (added_room c j (with_jobs_fit (added c j) (fresh high_water jobs) fits')) in
            let (store', ran, final) =
              replay_entries-fresh high_water (suc replayed) jobs mid (added c j) w.1 stored
                fits' in
            let one : Replays high_water replayed (entries_of (j ∷ jobs))
                (j ∷ fresh high_water jobs) store c =
              (
                store',
                replay_above high_water replayed j.entry (entries_of jobs) store mid above done
                    ∙ ran
                    ∙ ap (λ n. (store', ok n)) (omega arith),
                final,
              ) in
            subst (λ l. Replays high_water replayed (entries_of (j ∷ jobs)) l store c) (sym js) one
        | inr below ↦
            let js : fresh high_water (j ∷ jobs) ≡ fresh high_water jobs = rw below refl in
            let (store', ran, final) =
              replay_entries-fresh high_water replayed jobs store c w.1 s
                (subst (λ l. Fits (with_jobs c l)) js fits) in
            let one : Replays high_water replayed (entries_of (j ∷ jobs)) (fresh high_water jobs)
                store c =
              (
                store',
                replay_below high_water replayed j.entry (entries_of jobs) store below ∙ ran,
                final,
              ) in
            subst (λ l. Replays high_water replayed (entries_of (j ∷ jobs)) l store c) (sym js) one
      ]

  recovered :
      (root : Root) (initial_mmap : Option ℕ) (opened store' : CollectionStorage) (log : Wal)
      (entries : List WalEntry) (high_water n : ℕ)
      → open_storage env.bincode root.collection initial_mmap ≡ ok opened
      → open_or_create root.log ≡ wal_ok log
      → read_all_entries log ≡ wal_ok entries
      → opened.materialized_high_water_sequence ≡ high_water
      → replay_entries env.cpu env.compute_crc32 env.bincode env.clock env.collection_id high_water
          0 entries opened
        ≡ (store', ok n)
      → replay_pending_wal_after_open env.cpu env.compute_crc32 env.bincode env.clock root
          env.collection_id initial_mmap
        ≡ (root_of store' log, ok (record { pool_high_water_before = high_water; replayed = n }))
  unfolding replay_pending_wal_after_open
  recovered root initial_mmap opened store' log entries high_water n e1 e2 e3 e4 e5 =
      ground (arith, e1, e2, e3, e4, e5)

  -- A recovery succeeds. It adds to what a start finds the strand, the complement and the checksum of
  -- exactly those entries of the log that are above the highest version in the strand pool, in their
  -- order, reports that version and how many they are, and leaves the log as it is. The files and the
  -- log were written as they should be, env.bincode reads back what it writes of the strands, and what is
  -- written fits a `usize`.
  pub replay_pending_lem :
      (store : CollectionStorage) (c : Contents) (log : Wal) (jobs : List Job)
      (initial_mmap : Option ℕ)
      → IsStored store c
      → IsLog log (entries_of jobs)
      → All IsWritten jobs
      → Fits (with_jobs (found c) (fresh (high_water_of c) jobs))
      → env.bincode.deserialize_codons [] ≡ none
      → (store' : CollectionStorage) × (replay_pending_wal_after_open env.cpu env.compute_crc32
            env.bincode env.clock
            (root_of store log)
            env.collection_id
            initial_mmap
          ≡ (
            root_of store' log,
            ok (record {
              pool_high_water_before = high_water_of c;
              replayed = length (fresh (high_water_of c) jobs);
            }),
          ))
        × IsStored store' (with_jobs (found c) (fresh (high_water_of c) jobs))
  replay_pending_lem store c log jobs initial_mmap s l w fits e =
      let (opened, done, s', high) =
        reopen-IsCollection env.bincode store c.strands c.complements c.meta initial_mmap s e in
      let (store', ran, final) =
        replay_entries-fresh (high_water_of c) 0 jobs opened (found c) w s' fits in
      (
        store',
        recovered (root_of store log) initial_mmap opened store' log (entries_of jobs)
            (high_water_of c) (length (fresh (high_water_of c) jobs)) done
            (reopen-IsLog log (entries_of jobs) l) (read_all-IsLog log (entries_of jobs) l) high
            (ran ∙ ap (λ n. (store', ok n)) (omega arith)),
        final,
      )
