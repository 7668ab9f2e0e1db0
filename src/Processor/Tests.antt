-- ===== src/Processor/Tests.antt =====
-- The theorems on engine/src/processor.rs for one entry in a new collection.
use dna_db.Prelude.{◌≡◌, refl, true, some, [], ◌∷◌, ◌++◌, max, arith, from_le_bytes}
use dna_db.Prelude.Results.{ok}
use dna_db.Model.{Strand}
use dna_db.Complement.{is_valid_pairing}
use dna_db.Encoding.{decode_codons_to_bytes, ok as decoded}
use dna_db.Codec.RoundTrip.{frame_of}
use dna_db.Storage.{CollectionStorage}
use dna_db.Storage.Reopen.{IsCollection}
use dna_db.Integrity.{encode_crc_entry}
use dna_db.Processor.{strand_from_wal_payload, process_wal_entry_with_mode, fnv1a64, decimal}
use dna_db.Processor.Strands.{strand_from_wal_payload_lem}
use dna_db.Processor.Persist.{process-IsCollection}
use dna_db.Processor.Sample.{
  small, cpu, payload, bytes, compute_crc32, codec, stored_of, inner_of, stored_of-Written, empty,
  empty-IsCollection, room_in_empty,
}

-- The published value of the hash for "a".
fnv1a64_a : fnv1a64 (97 ∷ []) ≡ 12638187200555641996
unfolding fnv1a64
fnv1a64_a = refl

decimal_1024 : decimal 20 1024 ≡ "1024"
unfolding decimal
decimal_1024 = refl

strand_from_wal_payload_lem_example :
    (strand : Strand) × (strand_from_wal_payload cpu 5 1 42 payload ≡ some strand)
    × (decode_codons_to_bytes (record { codons = strand.codons; original_len = 4 })
        ≡ decoded payload)
    × (is_valid_pairing strand.codons strand.complement ≡ true)
    × (from_le_bytes strand.signature ≡ 42)
    × (strand.version ≡ 42)
strand_from_wal_payload_lem_example =
    strand_from_wal_payload_lem cpu 5 1 42 payload bytes (omega arith) (omega arith)

process-IsCollection_example :
    (store' : CollectionStorage) × (process_wal_entry_with_mode cpu compute_crc32 codec 5 empty 1 1
        payload
      ≡ (store', ok tt))
    × IsCollection codec store'
        ([] ++ (stored_of 1 small ∷ []))
        ([] ++ (inner_of (stored_of 1 small) ∷ []))
        ([] ++ encode_crc_entry 1 (compute_crc32 (frame_of (stored_of 1 small).1)))
    × (store'.materialized_high_water_sequence ≡ max 0 1)
process-IsCollection_example =
    process-IsCollection cpu compute_crc32 codec 5 1 1 payload empty [] [] [] (stored_of 1 small)
      (inner_of (stored_of 1 small)) empty-IsCollection (stored_of-Written 1 small)
      (room_in_empty 1 small)
