-- ===== src/Replication.antt =====
-- engine/src/replication.rs: a replica polls the log of a source and applies what is above its
-- checkpoint. The text of a checkpoint is the crate serde_json's, a parameter.
pub mod Apply
pub mod Redelivery
mod Tests
use dna_db.Prelude.{
  ℕ, zero, suc, ◌+◌, Option, none, some, List, [], ◌∷◌, ltb, leb, if◌then◌else◌, saturating_add,
}
use dna_db.Prelude.Results.{Result, ok, err, and_then, map_err, ok_or, ◌>>=◌}
use dna_db.Encoding.{Cpu}
use dna_db.Codec.{Bincode}
use dna_db.Wal.{
  Disk, Wal, WalEntry, WalError, open_or_create, read_entries_from, ok as wal_ok, err as wal_err,
}
use dna_db.Storage.{CollectionFiles, CollectionStorage, open_or_create as open_storage}
use dna_db.Storage.Maps.{StorageError}
use dna_db.Processor.{ProcessorError, process_wal_entry_with_mode}

-- 0 is the default.
pub record ReplicationCheckpoint : Type 0 where
  pub last_applied_source_sequence : ℕ

pub record ReplicationBatch : Type 0 where
  pub entries : List WalEntry

pub record ReplicationApplyReport : Type 0 where
  pub applied : ℕ
  pub skipped_replay : ℕ
  pub checkpoint_after : ReplicationCheckpoint

pub data ReplicationError : Type 0 where
  wal : WalError → ReplicationError
  storage : StorageError → ReplicationError
  processor : ProcessorError → ReplicationError
  serde_json : ReplicationError
  -- what it got, and the least that was expected
  out_of_order_source_sequence : ℕ → ℕ → ReplicationError

-- What the replica calls of serde_json.
pub record Json : Type 0 where
  pub from_slice : List ℕ → Option ReplicationCheckpoint
  pub to_vec_pretty : ReplicationCheckpoint → List ℕ

abbrev pub of_wal {ℓ} : {A : Type ℓ} → dna_db.Wal.Result A → Result ReplicationError A
of_wal (wal_ok a) = ok a
of_wal (wal_err e) = err (wal e)

unfoldable pub fetch_since :
    Wal → ReplicationCheckpoint → ℕ → Result ReplicationError ReplicationBatch
fetch_since log checkpoint max_entries = do
  entries ← of_wal (
      read_entries_from log (saturating_add checkpoint.last_applied_source_sequence 1)
        (some max_entries))
  ok (record { entries = entries })

-- The replica, with the file of its checkpoint, if there is one.
pub record WalStreamReplica : Type 0 where
  pub store : CollectionStorage
  pub checkpoint_file : Option (List ℕ)
  pub checkpoint : ReplicationCheckpoint
  pub collection_id : ℕ

unfoldable pub load_checkpoint :
    Json → Option (List ℕ) → Result ReplicationError ReplicationCheckpoint
load_checkpoint json none = ok (record { last_applied_source_sequence = 0 })
load_checkpoint json (some bytes) = ok_or (json.from_slice bytes) serde_json

unfoldable pub open_or_create_replica :
    Bincode
    → Json
    → CollectionFiles
    → Option (List ℕ)
    → ℕ
    → Option ℕ
    → Result ReplicationError WalStreamReplica
open_or_create_replica bincode json files checkpoint_file collection_id initial_mmap = do
  checkpoint ← load_checkpoint json checkpoint_file
  store ← map_err storage (open_storage bincode files initial_mmap)
  ok (record {
    store = store;
    checkpoint_file = checkpoint_file;
    checkpoint = checkpoint;
    collection_id = collection_id;
  })

-- A processed entry moves the checkpoint.
abbrev pub moved : WalStreamReplica → ℕ → CollectionStorage → WalStreamReplica
moved replica sequence store' = record replica {
  store = store';
  checkpoint = record { last_applied_source_sequence = sequence };
}

abbrev pub checkpointed :
    WalStreamReplica
    → ℕ
    → CollectionStorage × Result ProcessorError (Unit {0})
    → WalStreamReplica × Result ReplicationError (Unit {0})
checkpointed replica sequence (store', ok done) = (moved replica sequence store', ok tt)
checkpointed replica sequence (store', err x) =
    (record replica { store = store' }, err (processor x))

-- The file of the checkpoint and the report, behind the loop.
abbrev pub saved :
    Json
    → WalStreamReplica
    → ℕ × ℕ
    → WalStreamReplica × Result ReplicationError ReplicationApplyReport
saved json replica (applied, skipped_replay) = (
  record replica { checkpoint_file = some (json.to_vec_pretty replica.checkpoint) },
  ok (record {
    applied = applied;
    skipped_replay = skipped_replay;
    checkpoint_after = replica.checkpoint;
  }),
)

-- `clock` reads the time at which a sequence is processed.
module _ (cpu : Cpu) (compute_crc32 : List ℕ → ℕ) (bincode : Bincode) (clock : ℕ → ℕ) where
  unfoldable pub apply_entry :
      WalStreamReplica → WalEntry → WalStreamReplica × Result ReplicationError (Unit {0})
  apply_entry replica e = checkpointed replica e.sequence (
      process_wal_entry_with_mode cpu compute_crc32 bincode (clock e.sequence) replica.store
        replica.collection_id e.sequence e.payload)

  -- The loop of `apply_batch`: how many entries it applied and skipped.
  unfoldable pub apply_entries :
      ℕ
      → ℕ
      → ℕ
      → List WalEntry
      → WalStreamReplica
      → WalStreamReplica × Result ReplicationError (ℕ × ℕ)
  apply_entries expected_min applied skipped_replay [] replica =
      (replica, ok (applied, skipped_replay))
  apply_entries expected_min applied skipped_replay (e ∷ entries) replica =
      if leb e.sequence replica.checkpoint.last_applied_source_sequence
      then apply_entries expected_min applied (saturating_add skipped_replay 1) entries replica
      else if ltb e.sequence expected_min
      then (replica, err (out_of_order_source_sequence e.sequence expected_min))
      else and_then (apply_entry replica e) (λ x. x)
          (λ replica' done.
            apply_entries (saturating_add e.sequence 1) (saturating_add applied 1) skipped_replay
              entries replica')

  -- The checkpoint is saved behind the loop, and not where the loop fails.
  unfoldable pub apply_batch :
      Json
      → WalStreamReplica
      → ReplicationBatch
      → WalStreamReplica × Result ReplicationError ReplicationApplyReport
  apply_batch json replica batch =
      and_then
        (apply_entries (saturating_add replica.checkpoint.last_applied_source_sequence 1) 0 0
          batch.entries replica)
        (λ x. x) (saved json)
