-- ===== src/Recovery/Tests.antt =====
-- The theorems on engine/src/recovery.rs for a log of one entry and a new collection.
use dna_db.Prelude.{◌≡◌, refl, subst, none, [], ◌∷◌, arith, to_le_bytes}
use dna_db.Prelude.Results.{ok}
use dna_db.Wal.{Wal}
use dna_db.Wal.Log.{IsLog, open_empty-IsLog, append-IsLog}
use dna_db.Storage.{CollectionStorage, scan_meta_tail}
use dna_db.Integrity.{encode_crc_entry}
use dna_db.Processor.Sample.{
  small, cpu, payload, compute_crc32, clock, codec, stored_of, inner_of, stored_of-Written, empty,
  empty-IsCollection,
}
use dna_db.Recovery.{RecoveryStats, replay_pending_wal_after_open}
use dna_db.Recovery.Replay.{
  Job, Env, Contents, fresh, Fits, IsStored, found, with_jobs, root_of, high_water_of,
  replay_pending_lem,
}
use dna_db.Recovery.Twice.{replay_pending_twice}

abbrev env : Env
env = record {
  cpu = cpu;
  compute_crc32 = compute_crc32;
  bincode = codec;
  clock = clock;
  collection_id = 1;
}

abbrev job : Job
job = record {
  entry = record { sequence = 1; payload = payload };
  stored = stored_of 1 small;
  inner = inner_of (stored_of 1 small);
}

abbrev nothing : Contents
nothing = record { strands = []; complements = []; meta = [] }

-- A log with one entry.
one_entry : (log : Wal) × IsLog log (record { sequence = 1; payload = payload } ∷ [])
one_entry =
    let (new, opened, is_log, next) = open_empty-IsLog none (omega arith) in
    let (log, done, has_entry, after) =
      append-IsLog new [] payload is_log (omega arith) (omega (arith, next)) in
    let first : new.next_sequence ≡ 1 = omega (arith, next) in
    (log, subst (λ n. IsLog log (record { sequence = n; payload = payload } ∷ [])) first has_entry)

log-Fits : Fits (with_jobs env (found nothing) (fresh (high_water_of nothing) (job ∷ [])))
unfolding to_le_bytes encode_crc_entry scan_meta_tail
log-Fits = (omega arith, omega arith, omega arith)

replay_pending_lem_example :
    (store' : CollectionStorage) × (replay_pending_wal_after_open cpu compute_crc32 codec clock
        (root_of empty one_entry.0)
        1
        none
      ≡ (root_of store' one_entry.0, ok (record { pool_high_water_before = 0; replayed = 1 })))
    × IsStored env store' (with_jobs env (found nothing) (job ∷ []))
replay_pending_lem_example =
    replay_pending_lem env empty nothing one_entry.0 (job ∷ []) none empty-IsCollection one_entry.1
      (stored_of-Written 1 small, tt) log-Fits refl

replay_pending_twice_example :
    (store' : CollectionStorage) × (store'' : CollectionStorage) × (stats : RecoveryStats)
    × (replay_pending_wal_after_open cpu compute_crc32 codec clock
          (root_of empty one_entry.0)
          1
          none
        ≡ (root_of store' one_entry.0, ok stats))
    × (replay_pending_wal_after_open cpu compute_crc32 codec clock
          (root_of store' one_entry.0)
          1
          none
        ≡ (
          root_of store'' one_entry.0,
          ok (record {
            pool_high_water_before = high_water_of (with_jobs env (found nothing) (job ∷ []));
            replayed = 0;
          }),
        ))
    × IsStored env store'' (found (with_jobs env (found nothing) (job ∷ [])))
replay_pending_twice_example =
    replay_pending_twice env empty nothing one_entry.0 (job ∷ []) none empty-IsCollection
      one_entry.1 (stored_of-Written 1 small, tt) log-Fits refl
