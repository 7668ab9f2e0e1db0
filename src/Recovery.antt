-- ===== src/Recovery.antt =====
-- engine/src/recovery.rs: at a start the entries of the log above the high water of the strand pool
-- are processed again.
pub mod Replay
pub mod Twice
mod Tests
use dna_db.Prelude.{ℕ, zero, suc, Option, List, [], ◌∷◌, ltb, if◌then◌else◌}
use dna_db.Prelude.Results.{Result, ok, err, and_then}
use dna_db.Encoding.{Cpu}
use dna_db.Codec.{Bincode}
use dna_db.Wal.{
  Disk, Wal, WalEntry, WalError, open_or_create, read_all_entries, ok as wal_ok, err as wal_err,
}
use dna_db.Storage.{
  CollectionFiles, CollectionStorage, open_or_create as open_storage, files_of, sized_files,
}
use dna_db.Storage.Maps.{StorageError}
use dna_db.Processor.{ProcessorError, process_wal_entry}

pub data RecoveryError : Type 0 where
  wal : WalError → RecoveryError
  processor : ProcessorError → RecoveryError
  storage : StorageError → RecoveryError

pub record RecoveryStats : Type 0 where
  pub pool_high_water_before : ℕ
  pub replayed : ℕ

-- The files of the collection and of its log.
pub record Root : Type 0 where
  pub collection : CollectionFiles
  pub log : Disk

-- `clock` reads the time at which a sequence is processed.
module _ (cpu : Cpu) (compute_crc32 : List ℕ → ℕ) (bincode : Bincode) (clock : ℕ → ℕ) where
  -- The loop over the entries, which counts what it replays.
  unfoldable pub replay_entries :
      ℕ → ℕ → ℕ → List WalEntry → CollectionStorage → CollectionStorage × Result RecoveryError ℕ
  replay_entries collection_id high_water replayed [] store = (store, ok replayed)
  replay_entries collection_id high_water replayed (e ∷ entries) store =
      if ltb high_water e.sequence
      then and_then
          (process_wal_entry cpu compute_crc32 bincode (clock e.sequence) store collection_id
            e.sequence e.payload)
          processor
          (λ store' done. replay_entries collection_id high_water (suc replayed) entries store')
      else replay_entries collection_id high_water replayed entries store

  abbrev pub replayed_root :
      Wal
      → ℕ
      → CollectionStorage × Result RecoveryError ℕ
      → Root × Result RecoveryError RecoveryStats
  replayed_root log high_water (store, ok replayed) = (
    record { collection = files_of store; log = log.disk },
    ok (record { pool_high_water_before = high_water; replayed = replayed }),
  )
  replayed_root log high_water (store, err e) =
      (record { collection = files_of store; log = log.disk }, err e)

  -- Also what is left in the files.
  unfoldable pub replay_pending_wal_after_open :
      Root → ℕ → Option ℕ → Root × Result RecoveryError RecoveryStats
  replay_pending_wal_after_open root collection_id initial_mmap =
      elim (open_storage bincode root.collection initial_mmap) [
        | err e ↦
            (record root { collection = sized_files root.collection initial_mmap }, err (storage e))
        | ok store ↦ elim (open_or_create root.log) [
          | wal_err e ↦ (record root { collection = files_of store }, err (wal e))
          | wal_ok log ↦ elim (read_all_entries log) [
            | wal_err e ↦ (record { collection = files_of store; log = log.disk }, err (wal e))
            | wal_ok entries ↦ replayed_root log store.materialized_high_water_sequence (
                replay_entries collection_id store.materialized_high_water_sequence zero entries
                  store)
          ]
        ]
      ]
