-- ===== src/Replication/Tests.antt =====
-- The theorems on engine/src/replication.rs for a batch of one entry.
use dna_db.Prelude.{ℕ, ◌≡◌, ◌≢◌, none, some, [], ◌∷◌, arith, saturating_add}
use dna_db.Prelude.Results.{err, ok}
use dna_db.Storage.{CollectionStorage}
use dna_db.Processor.{process_wal_entry_with_mode}
use dna_db.Processor.Persist.{process-IsCollection}
use dna_db.Processor.Sample.{
  small, cpu, payload, compute_crc32, clock, codec, empty, stored_of, inner_of, stored_of-Written,
  empty-IsCollection, room_in_empty,
}
use dna_db.Replication.{
  Json, ReplicationBatch, WalStreamReplica, ReplicationApplyReport, apply_batch, apply_entries,
  apply_entry, out_of_order_source_sequence,
}
use dna_db.Replication.Apply.{apply_batch_never_out_of_order}
use dna_db.Replication.Redelivery.{apply_batch_twice}

-- The text of a checkpoint is its number.
abbrev json : Json
json = record {
  from_slice = λ bytes. none;
  to_vec_pretty = λ checkpoint. checkpoint.last_applied_source_sequence ∷ [];
}

abbrev replica : WalStreamReplica
replica = record {
  store = empty;
  checkpoint_file = none;
  checkpoint = record { last_applied_source_sequence = 8 };
  collection_id = 1;
}

-- The second entry is below the first, and both are below the checkpoint.
abbrev batch : ReplicationBatch
batch = record {
  entries =
      record { sequence = 6; payload = payload } ∷ record { sequence = 4; payload = payload } ∷ [];
}

apply_batch_never_out_of_order_example :
    (apply_batch cpu compute_crc32 codec clock json replica batch).1
    ≢ err (out_of_order_source_sequence 4 7)
apply_batch_never_out_of_order_example =
    apply_batch_never_out_of_order cpu compute_crc32 codec clock json replica batch 4 7

-- A replica without a checkpoint, and the batch of one entry that it applies.
abbrev new_replica : WalStreamReplica
new_replica = record {
  store = empty;
  checkpoint_file = none;
  checkpoint = record { last_applied_source_sequence = 0 };
  collection_id = 1;
}

abbrev one : ReplicationBatch
one = record { entries = record { sequence = 1; payload = payload } ∷ [] }

abbrev after_one : CollectionStorage → WalStreamReplica
after_one store = record {
  store = store;
  checkpoint_file = some (1 ∷ []);
  checkpoint = record { last_applied_source_sequence = 1 };
  collection_id = 1;
}

abbrev applied : ℕ → ℕ → ReplicationApplyReport
applied n skipped = record {
  applied = n;
  skipped_replay = skipped;
  checkpoint_after = record { last_applied_source_sequence = 1 };
}

applies_at :
    (store : CollectionStorage)
    → process_wal_entry_with_mode cpu compute_crc32 codec 5 empty 1 1 payload ≡ (store, ok tt)
    → apply_batch cpu compute_crc32 codec clock json new_replica one
      ≡ (after_one store, ok (applied 1 0))
unfolding apply_batch apply_entries apply_entry saturating_add
applies_at store h = ground (arith, h)

first_time :
    (store : CollectionStorage) × (apply_batch cpu compute_crc32 codec clock json new_replica one
      ≡ (after_one store, ok (applied 1 0)))
first_time =
    let (store, done, stored, high) =
      process-IsCollection cpu compute_crc32 codec 5 1 1 payload empty [] [] [] (stored_of 1 small)
        (inner_of (stored_of 1 small)) empty-IsCollection (stored_of-Written 1 small)
        (room_in_empty 1 small) in
    (store, applies_at store done)

apply_batch_twice_example :
    apply_batch cpu compute_crc32 codec clock json (after_one first_time.0) one
    ≡ (after_one first_time.0, ok (applied 0 1))
apply_batch_twice_example =
    apply_batch_twice cpu compute_crc32 codec clock json new_replica (after_one first_time.0) one
      (applied 1 0) first_time.1 (omega arith)
