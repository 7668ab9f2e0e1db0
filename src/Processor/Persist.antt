-- ===== src/Processor/Persist.antt =====
-- engine/src/processor.rs: what an entry leaves in the files of the collection.
use dna_db.Prelude.{
  ℕ, ◌+◌, ◌≤◌, ◌≡◌, refl, sym, ap, ◌∙◌, some, List, [], ◌∷◌, ◌++◌, length, max, All-append, arith,
  u64_max,
}
use mathlib.Core.List.{append_assoc, append-nil}
use dna_db.Prelude.Results.{ok}
use dna_db.Model.{Strand, Codon}
use dna_db.Encoding.{Cpu}
use dna_db.Codec.{Bincode, encode_strand}
use dna_db.Codec.RoundTrip.{frame_of, encode-Reads}
use dna_db.Storage.{
  CollectionStorage, append_strands, append_complement, append_meta, record_materialized_sequence,
}
use dna_db.Storage.Maps.{Region, append_with_auto_grow}
use dna_db.Storage.Append.{append-Holds}
use dna_db.Storage.Frames.{Stored, frames, IsReadable}
use dna_db.Storage.Blobs.{blob, blobs, IsBlob}
use dna_db.Storage.Reopen.{IsCollection}
use dna_db.Integrity.{encode_crc_entry, append_crc_entry_for_strand}
use dna_db.Integrity.Layout.{length-entry}
use dna_db.Processor.{
  strand_from_wal_payload, woven, encode_complement_blob, process_wal_entry_with_mode,
}

pub frames-append :
    (stored : List Stored) (s : Stored)
    → frames (stored ++ (s ∷ [])) ≡ frames stored ++ frame_of s.1
frames-append [] s = append-nil (frame_of s.1)
frames-append (t ∷ stored) s =
    ap (◌++◌ (frame_of t.1)) (frames-append stored s)
    ∙ sym (append_assoc (frame_of t.1) (frames stored) (frame_of s.1))

pub blobs-append :
    (inners : List (List ℕ)) (inner : List ℕ)
    → blobs (inners ++ (inner ∷ [])) ≡ blobs inners ++ blob inner
blobs-append [] inner = append-nil (blob inner)
blobs-append (first ∷ inners) inner =
    ap (◌++◌ (blob first)) (blobs-append inners inner)
    ∙ sym (append_assoc (blob first) (blobs inners) (blob inner))

-- The strand of an entry, what bincode writes of it and of its complement, and that it is read.
pub record Written (cpu : Cpu) (bincode : Bincode) (now collection_id sequence : ℕ)
    (raw_payload : List ℕ) (s : Stored) (inner : List ℕ) : Type 0 where
  pub made : strand_from_wal_payload cpu now collection_id sequence raw_payload ≡ some s.0
  pub readable : IsReadable bincode s
  pub serialized : bincode.serialize_codons s.0.complement ≡ some inner
  pub readable_complement : IsBlob bincode inner

pub made-version :
    (cpu : Cpu) (now collection_id sequence : ℕ) (raw_payload : List ℕ) (strand : Strand)
    → strand_from_wal_payload cpu now collection_id sequence raw_payload ≡ some strand
    → strand.version ≡ sequence
unfolding strand_from_wal_payload woven
made-version cpu now collection_id sequence raw_payload strand made = ground (arith, made)

-- The three files have room for the entry: their lengths stay `usize`s.
pub record HasRoom (stored : List Stored) (complements : List (List ℕ)) (meta : List ℕ) (s : Stored)
    (inner : List ℕ) : Type 0 where
  pub strands_fit : length (frames stored) + length (frame_of s.1) ≤ u64_max
  pub complements_fit : length (blobs complements) + length (blob inner) ≤ u64_max
  pub meta_fits : length meta + 12 ≤ u64_max

encode_complement_blob-some :
    (bincode : Bincode) (codons : List Codon) (inner : List ℕ)
    → bincode.serialize_codons codons ≡ some inner
    → encode_complement_blob bincode codons ≡ some (blob inner)
unfolding encode_complement_blob
encode_complement_blob-some bincode codons inner h = ground (arith, h)

-- The steps of an entry, one after the other.
process_steps :
    (cpu : Cpu) (compute_crc32 : List ℕ → ℕ) (bincode : Bincode) (now collection_id sequence : ℕ)
    (raw_payload : List ℕ) (store : CollectionStorage) (strand : Strand) (frame comp_blob : List ℕ)
    (strands metas complements : Region) (o1 o2 o3 : ℕ)
    → strand_from_wal_payload cpu now collection_id sequence raw_payload ≡ some strand
    → encode_strand bincode strand ≡ ok frame
    → append_with_auto_grow store.strands frame ≡ ok (o1, strands)
    → append_with_auto_grow store.meta (encode_crc_entry sequence (compute_crc32 frame))
      ≡ ok (o2, metas)
    → encode_complement_blob bincode strand.complement ≡ some comp_blob
    → append_with_auto_grow store.complement comp_blob ≡ ok (o3, complements)
    → process_wal_entry_with_mode cpu compute_crc32 bincode now store collection_id sequence
        raw_payload
      ≡ (
        record {
          strands = strands;
          complement = complements;
          meta = metas;
          materialized_high_water_sequence = max store.materialized_high_water_sequence sequence;
        },
        ok tt,
      )
unfolding process_wal_entry_with_mode append_crc_entry_for_strand append_strands append_meta
    append_complement record_materialized_sequence
process_steps cpu compute_crc32 bincode now collection_id sequence raw_payload store strand frame
      comp_blob strands metas complements o1 o2 o3 made encoded s1 s2 written s3 =
    rw (made, encoded, s1, s2, written, s3) refl

-- An entry is processed without an error, whatever its clock: its strand, its complement and its
-- checksum are appended to what the files held, and the high water is raised to its sequence.
pub process-IsCollection :
    (cpu : Cpu) (compute_crc32 : List ℕ → ℕ) (bincode : Bincode) (now collection_id sequence : ℕ)
    (raw_payload : List ℕ) (store : CollectionStorage) (stored : List Stored)
    (complements : List (List ℕ)) (meta : List ℕ) (s : Stored) (inner : List ℕ)
    → IsCollection bincode store stored complements meta
    → Written cpu bincode now collection_id sequence raw_payload s inner
    → HasRoom stored complements meta s inner
    → (store' : CollectionStorage) × (process_wal_entry_with_mode cpu compute_crc32 bincode now
          store collection_id sequence raw_payload
        ≡ (store', ok tt))
      × IsCollection bincode store'
          (stored ++ (s ∷ []))
          (complements ++ (inner ∷ []))
          (meta ++ encode_crc_entry sequence (compute_crc32 (frame_of s.1)))
      × (store'.materialized_high_water_sequence
          ≡ max store.materialized_high_water_sequence sequence)
process-IsCollection cpu compute_crc32 bincode now collection_id sequence raw_payload store stored
      complements meta s inner c w room =
    let entry = encode_crc_entry sequence (compute_crc32 (frame_of s.1)) in
    let (strands, strands_done, strands_hold) =
      append-Holds store.strands (frames stored) (frame_of s.1) c.strands room.strands_fit in
    let (metas, meta_done, meta_holds) =
      append-Holds store.meta meta entry c.meta_bytes
        (omega (arith, length-entry (sequence, compute_crc32 (frame_of s.1)), room.meta_fits)) in
    let (compl, compl_done, compl_holds) =
      append-Holds store.complement (blobs complements) (blob inner) c.complement
        room.complements_fit in
    (
      record {
        strands = strands;
        complement = compl;
        meta = metas;
        materialized_high_water_sequence = max store.materialized_high_water_sequence sequence;
      },
      process_steps cpu compute_crc32 bincode now collection_id sequence raw_payload store s.0
          (frame_of s.1) (blob inner) strands metas compl (length (frames stored)) (length meta)
          (length (blobs complements)) w.made (encode-Reads bincode s.0 s.1 w.readable) strands_done
          meta_done (encode_complement_blob-some bincode s.0.complement inner w.serialized)
          compl_done,
      record {
        strands = rw (frames-append stored s) strands_hold;
        complement = rw (blobs-append complements inner) compl_holds;
        meta_bytes = meta_holds;
        readable = All-append (IsReadable bincode) stored (s ∷ []) c.readable (w.readable, tt);
        readable_complements =
            All-append (IsBlob bincode) complements (inner ∷ []) c.readable_complements
              (w.readable_complement, tt);
      },
      refl,
    )
