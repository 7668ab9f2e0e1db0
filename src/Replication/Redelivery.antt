-- ===== src/Replication/Redelivery.antt =====
-- engine/src/replication.rs: a batch that is delivered again.
use dna_db.Prelude.{
  ℕ, ◌+◌, ◌≤◌, ◌≡◌, refl, sym, ap, ◌∙◌, subst, List, [], ◌∷◌, length, All, arith, u64_max,
  saturating_add, saturating_add_fits,
}
use dna_db.Prelude.Results.{Result, ok, err, and_then}
use dna_db.Encoding.{Cpu}
use dna_db.Codec.{Bincode}
use dna_db.Wal.{WalEntry}
use dna_db.Replication.{
  ReplicationBatch, ReplicationApplyReport, ReplicationError, processor, Json, WalStreamReplica,
  moved, apply_entries, apply_batch, saved,
}
use dna_db.Replication.Apply.{loop, loop_skips, skips, applies, fails, entry-Step, apply_batch_is}

-- What a chain that ends well comes from.
and_then-ok :
    {S E A B : Type 0} (r : S × Result E A) (f : S → A → S × Result E B) {s' : S} {b : B}
    → and_then r (λ e. e) f ≡ (s', ok b)
    → (s : S) × (a : A) × (r ≡ (s, ok a)) × (f s a ≡ (s', ok b))
and_then-ok (s, ok a) f q = (s, a, refl, q)
and_then-ok (s, err e) f q = let wrong : err e ≡ ok _ = ap (λ r. r.1) q in cc wrong

checkpoint_after_of :
    (json : Json) (reached : WalStreamReplica) (counts : ℕ × ℕ) (report : ReplicationApplyReport)
    → (saved json reached counts).1 ≡ ok report
    → reached.checkpoint ≡ report.checkpoint_after
checkpoint_after_of json reached (applied, skipped) report q =
    let same : (record {
      applied = applied;
      skipped_replay = skipped;
      checkpoint_after = reached.checkpoint;
    })
        ≡ report =
      cc q in
    ap (λ (r : ReplicationApplyReport). r.checkpoint_after) same

module _ (cpu : Cpu) (compute_crc32 : List ℕ → ℕ) (bincode : Bincode) (clock : ℕ → ℕ) where
  -- A batch that ends well leaves the checkpoint at no sequence below one of its entries.
  loop_covers :
      (replica replica' : WalStreamReplica) (applied skipped : ℕ) (entries : List WalEntry)
      (counts : ℕ × ℕ)
      → loop cpu compute_crc32 bincode clock replica applied skipped entries ≡ (replica', ok counts)
      → (replica.checkpoint.last_applied_source_sequence
          ≤ replica'.checkpoint.last_applied_source_sequence)
        × All
            (λ (e : WalEntry). e.sequence ≤ replica'.checkpoint.last_applied_source_sequence)
            entries
  loop_covers replica replica' applied skipped [] counts q =
      unfold apply_entries in
      (let same : replica ≡ replica' = ap (λ r. r.0) q in (rw same (omega arith), tt))
  loop_covers replica replica' applied skipped (e ∷ entries) counts q =
      elim (entry-Step cpu compute_crc32 bincode clock replica applied skipped e entries) [
        | skips h step ↦
            let (higher, rest) =
              loop_covers replica replica' applied (saturating_add skipped 1) entries counts
                (sym step ∙ q) in
            (higher, (omega (arith, h, higher), rest))
        | applies store' h step ↦
            let (higher, rest) =
              loop_covers (moved replica e.sequence store') replica' (saturating_add applied 1)
                skipped entries counts (sym step ∙ q) in
            (omega (arith, h, higher), (higher, rest))
        | fails r x step ↦
            let wrong : err (processor x) ≡ ok counts = ap (λ r. r.1) (sym step ∙ q) in cc wrong
      ]

  -- Entries that are not above the checkpoint are skipped.
  loop_old :
      (replica : WalStreamReplica) (applied skipped : ℕ) (entries : List WalEntry)
      → All (λ (e : WalEntry). e.sequence ≤ replica.checkpoint.last_applied_source_sequence) entries
      → skipped + length entries ≤ u64_max
      → loop cpu compute_crc32 bincode clock replica applied skipped entries
        ≡ (replica, ok (applied, skipped + length entries))
  loop_old replica applied skipped [] old h =
      unfold apply_entries in ap (λ n. (replica, ok (applied, n))) (omega arith)
  loop_old replica applied skipped (e ∷ entries) old h =
      loop_skips cpu compute_crc32 bincode clock replica applied skipped e entries old.0
      ∙ ap (λ n. loop cpu compute_crc32 bincode clock replica applied n entries)
          (saturating_add_fits skipped 1 (omega arith))
      ∙ loop_old replica applied (skipped + 1) entries old.1 (omega arith)
      ∙ ap (λ n. (replica, ok (applied, n))) (omega arith)

  -- A saved replica takes a batch that its checkpoint covers.
  again :
      (json : Json) (reached : WalStreamReplica) (batch : ReplicationBatch) (counts : ℕ × ℕ)
      → All
          (λ (e : WalEntry). e.sequence ≤ reached.checkpoint.last_applied_source_sequence)
          batch.entries
      → length batch.entries ≤ u64_max
      → apply_batch cpu compute_crc32 bincode clock json (saved json reached counts).0 batch ≡ (
        (saved json reached counts).0,
        ok (record {
          applied = 0;
          skipped_replay = length batch.entries;
          checkpoint_after = reached.checkpoint;
        }),
      )
  again json reached batch counts covered small =
      let stopped = (saved json reached counts).0 in
      apply_batch_is cpu compute_crc32 bincode clock json stopped batch
      ∙ ap (λ r. and_then r (λ (x : ReplicationError). x) (saved json))
          (loop_old stopped 0 0 batch.entries covered (omega arith))
      ∙ ap
          (λ n. (
            stopped,
            ok (record { applied = 0; skipped_replay = n; checkpoint_after = reached.checkpoint }),
          ))
          (omega arith)

  -- Where a batch ended well, the same batch again changes nothing: all its entries are skipped, and
  -- the checkpoint stays. The batch has at most as many entries as a `usize` counts.
  pub apply_batch_twice :
      (json : Json) (replica replica' : WalStreamReplica) (batch : ReplicationBatch)
      (report : ReplicationApplyReport)
      → apply_batch cpu compute_crc32 bincode clock json replica batch ≡ (replica', ok report)
      → length batch.entries ≤ u64_max
      → apply_batch cpu compute_crc32 bincode clock json replica' batch ≡ (
        replica',
        ok (record {
          applied = 0;
          skipped_replay = length batch.entries;
          checkpoint_after = report.checkpoint_after;
        }),
      )
  apply_batch_twice json replica replica' batch report q small =
      let (reached, counts, ran, ended) =
        and_then-ok (loop cpu compute_crc32 bincode clock replica 0 0 batch.entries) (saved json)
          (sym (apply_batch_is cpu compute_crc32 bincode clock json replica batch) ∙ q) in
      let (higher, covered) = loop_covers replica reached 0 0 batch.entries counts ran in
      let final : (saved json reached counts).0 ≡ replica' = ap (λ r. r.0) ended in
      let kept : reached.checkpoint ≡ report.checkpoint_after =
        checkpoint_after_of json reached counts report (ap (λ r. r.1) ended) in
      subst
        (λ r. apply_batch cpu compute_crc32 bincode clock json r batch ≡ (
          r,
          ok (record {
            applied = 0;
            skipped_replay = length batch.entries;
            checkpoint_after = report.checkpoint_after;
          }),
        ))
        final
        (again json reached batch counts covered small
          ∙ ap
              (λ c. (
                (saved json reached counts).0,
                ok (record {
                  applied = 0;
                  skipped_replay = length batch.entries;
                  checkpoint_after = c;
                }),
              ))
              kept)
