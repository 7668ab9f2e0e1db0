-- ===== src/Replication/Apply.antt =====
-- engine/src/replication.rs: what applying a batch may end in, and a batch that is delivered again.
use dna_db.Prelude.{
  ℕ, ◌≤◌, ◌<◌, ◌≡◌, ◌≢◌, ◌⊎◌, refl, sym, ap, ◌∙◌, List, [], ◌∷◌, arith, leb, leb→le, saturating_add,
  Bool-cases, inl, inr,
}
use dna_db.Prelude.Results.{Result, ok, err, and_then}
use dna_db.Encoding.{Cpu}
use dna_db.Codec.{Bincode}
use dna_db.Wal.{WalEntry}
use dna_db.Storage.{CollectionStorage}
use dna_db.Processor.{ProcessorError, process_wal_entry_with_mode}
use dna_db.Replication.{
  ReplicationBatch, ReplicationError, processor, Json, WalStreamReplica,
  out_of_order_source_sequence, moved, checkpointed, apply_entry, apply_entries, apply_batch, saved,
}

expected_least : (last sequence : ℕ) → last < sequence → saturating_add last 1 ≤ sequence
unfolding saturating_add
expected_least last sequence h = ground arith

-- The error of a chain whose rest does not fail with it.
error_of :
    {S E A B : Type 0} (r : S × Result E A) (f : S → A → S × Result E B) {x : E}
    → ((s : S) (a : A) → (f s a).1 ≢ err x)
    → (and_then r (λ e. e) f).1 ≡ err x
    → r.1 ≡ err x
error_of (s, ok a) f h q = absurd (h s a q)
error_of (s, err e) f h q = let same : e ≡ _ = cc q in ap (λ y. err y) same

module _ (cpu : Cpu) (compute_crc32 : List ℕ → ℕ) (bincode : Bincode) (clock : ℕ → ℕ) where
  -- The entry was applied and the checkpoint moved, or processing it failed.
  abbrev pub Outcome :
      WalStreamReplica → ℕ → WalStreamReplica × Result ReplicationError (Unit {0}) → Type 0
  Outcome replica sequence result =
      ((store' : CollectionStorage) × (result ≡ (moved replica sequence store', ok tt)))
      ⊎ ((replica' : WalStreamReplica) × (x : ProcessorError) × (result
            ≡ (replica', err (processor x))))

  checkpointed-cases :
      (replica : WalStreamReplica) (sequence : ℕ)
      (run : CollectionStorage × Result ProcessorError (Unit {0}))
      → Outcome replica sequence (checkpointed replica sequence run)
  checkpointed-cases replica sequence (store', ok done) = inl (store', refl)
  checkpointed-cases replica sequence (store', err x) =
      inr (record replica { store = store' }, x, refl)

  apply_entry-cases :
      (replica : WalStreamReplica) (e : WalEntry)
      → Outcome replica e.sequence (apply_entry cpu compute_crc32 bincode clock replica e)
  unfolding apply_entry
  apply_entry-cases replica e = checkpointed-cases replica e.sequence (
      process_wal_entry_with_mode cpu compute_crc32 bincode (clock e.sequence) replica.store
        replica.collection_id e.sequence e.payload)

  abbrev pub loop :
      WalStreamReplica → ℕ → ℕ → List WalEntry → WalStreamReplica × Result ReplicationError (ℕ × ℕ)
  loop replica applied skipped entries =
      apply_entries cpu compute_crc32 bincode clock
        (saturating_add replica.checkpoint.last_applied_source_sequence 1) applied skipped entries
        replica

  pub loop_skips :
      (replica : WalStreamReplica) (applied skipped : ℕ) (e : WalEntry) (entries : List WalEntry)
      → e.sequence ≤ replica.checkpoint.last_applied_source_sequence
      → loop replica applied skipped (e ∷ entries)
        ≡ loop replica applied (saturating_add skipped 1) entries
  unfolding apply_entries
  loop_skips replica applied skipped e entries h = ground (arith, h)

  -- Above the checkpoint an entry is not below what is expected.
  loop_applies :
      (replica : WalStreamReplica) (applied skipped : ℕ) (e : WalEntry) (entries : List WalEntry)
      → replica.checkpoint.last_applied_source_sequence < e.sequence
      → loop replica applied skipped (e ∷ entries)
        ≡ and_then
            (apply_entry cpu compute_crc32 bincode clock replica e)
            (λ x. x)
            (λ replica' done.
              apply_entries cpu compute_crc32 bincode clock
                (saturating_add e.sequence 1)
                (saturating_add applied 1)
                skipped
                entries
                replica')
  unfolding apply_entries
  loop_applies replica applied skipped e entries h =
      ground (arith, h, expected_least replica.checkpoint.last_applied_source_sequence e.sequence h)

  -- The first entry is skipped, or applied, or ends the batch with the error of the processor.
  pub data Step (replica : WalStreamReplica) (applied skipped : ℕ) (e : WalEntry)
      (entries : List WalEntry) : Type 0 where
    skips :
        e.sequence ≤ replica.checkpoint.last_applied_source_sequence
        → loop replica applied skipped (e ∷ entries)
          ≡ loop replica applied (saturating_add skipped 1) entries
        → Step replica applied skipped e entries
    applies :
        (store' : CollectionStorage)
        → replica.checkpoint.last_applied_source_sequence < e.sequence
        → loop replica applied skipped (e ∷ entries)
          ≡ loop (moved replica e.sequence store') (saturating_add applied 1) skipped entries
        → Step replica applied skipped e entries
    fails :
        (replica' : WalStreamReplica) (x : ProcessorError)
        → loop replica applied skipped (e ∷ entries) ≡ (replica', err (processor x))
        → Step replica applied skipped e entries

  pub entry-Step :
      (replica : WalStreamReplica) (applied skipped : ℕ) (e : WalEntry) (entries : List WalEntry)
      → Step replica applied skipped e entries
  entry-Step replica applied skipped e entries =
      elim (Bool-cases (leb e.sequence replica.checkpoint.last_applied_source_sequence)) [
        | inl old ↦
            let h : e.sequence ≤ replica.checkpoint.last_applied_source_sequence = leb→le _ _ old in
            skips h (loop_skips replica applied skipped e entries h)
        | inr new ↦
            let h : replica.checkpoint.last_applied_source_sequence < e.sequence = ground arith in
            elim (apply_entry-cases replica e) [
              | inl (store', done) ↦
                  applies store' h (loop_applies replica applied skipped e entries h ∙ rw done refl)
              | inr (replica', x, failed) ↦
                  fails replica' x
                    (loop_applies replica applied skipped e entries h ∙ rw failed refl)
            ]
      ]

  loop_in_order :
      (replica : WalStreamReplica) (applied skipped : ℕ) (entries : List WalEntry)
      (got expected : ℕ)
      → (loop replica applied skipped entries).1 ≢ err (out_of_order_source_sequence got expected)
  loop_in_order replica applied skipped [] got expected q = unfold apply_entries in cc q
  loop_in_order replica applied skipped (e ∷ entries) got expected q =
      elim (entry-Step replica applied skipped e entries) [
        | skips h step ↦
            loop_in_order replica applied (saturating_add skipped 1) entries got expected
              (ap (λ r. r.1) (sym step) ∙ q)
        | applies store' h step ↦
            loop_in_order (moved replica e.sequence store') (saturating_add applied 1) skipped
              entries got expected (ap (λ r. r.1) (sym step) ∙ q)
        | fails replica' x step ↦
            let wrong : err (processor x) ≡ err (out_of_order_source_sequence got expected) =
              ap (λ r. r.1) (sym step) ∙ q in
            cc wrong
      ]

  pub apply_batch_is :
      (json : Json) (replica : WalStreamReplica) (batch : ReplicationBatch)
      → apply_batch cpu compute_crc32 bincode clock json replica batch
        ≡ and_then (loop replica 0 0 batch.entries) (λ x. x) (saved json)
  unfolding apply_batch
  apply_batch_is json replica batch = refl

  -- A batch never ends in the error of a sequence out of order, in whatever order its entries come.
  pub apply_batch_never_out_of_order :
      (json : Json) (replica : WalStreamReplica) (batch : ReplicationBatch) (got expected : ℕ)
      → (apply_batch cpu compute_crc32 bincode clock json replica batch).1
        ≢ err (out_of_order_source_sequence got expected)
  apply_batch_never_out_of_order json replica batch got expected q =
      loop_in_order replica 0 0 batch.entries got expected (
        error_of (loop replica 0 0 batch.entries) (saved json) (λ r c. cc)
          (ap (λ r. r.1) (sym (apply_batch_is json replica batch)) ∙ q))
