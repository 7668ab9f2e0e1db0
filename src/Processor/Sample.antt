-- ===== src/Processor/Sample.antt =====
-- Two strands as the processor makes them, for the tests.
use dna_db.Prelude.{
  ℕ, ◌^◌, ◌<◌, ◌≡◌, refl, ap, ◌∙◌, true, Option, some, List, [], ◌∷◌, arith, length, All,
  to_le_bytes,
}
use dna_db.Model.{Strand}
use dna_db.Encoding.{Cpu}
use dna_db.Encoding.RoundTrip.{IsByte}
use dna_db.Codec.{Bincode}
use dna_db.Codec.Sample.{sample, sample-Reads}
use dna_db.Storage.{CollectionStorage}
use dna_db.Storage.Maps.{zeros}
use dna_db.Storage.Frames.{Stored}
use dna_db.Storage.Reopen.{IsCollection}
use dna_db.Prelude.Results.{ok}
use dna_db.Integrity.{encode_crc_entry}
use dna_db.Processor.{strand_from_wal_payload, process_wal_entry_with_mode}
use dna_db.Processor.Strands.{strand_from_wal_payload_lem}
use dna_db.Processor.Persist.{Written, HasRoom, made-version, process-IsCollection}

abbrev pub cpu : Cpu
cpu = record { x86_64 = true; avx2 = true }

abbrev pub payload : List ℕ
payload = 0 ∷ 1 ∷ 5 ∷ 9 ∷ []

abbrev pub compute_crc32 : List ℕ → ℕ
compute_crc32 bytes = 2 ^ 30

abbrev pub clock : ℕ → ℕ
clock sequence = 5

abbrev pub of_version : ℕ → Option Strand
of_version v = strand_from_wal_payload cpu 5 1 v payload

abbrev pub codec : Bincode
codec = sample of_version

pub bytes : All IsByte payload
bytes = (omega arith, (omega arith, (omega arith, (omega arith, tt))))

pub strand_of : (v : ℕ) → v < 2 ^ 64 → (strand : Strand) × (of_version v ≡ some strand)
strand_of v h =
    let (strand, made, decoded, paired, signed, versioned) =
      strand_from_wal_payload_lem cpu 5 1 v payload bytes (omega arith) h in
    (strand, made)

abbrev pub stored_of : (v : ℕ) → v < 2 ^ 64 → Stored
stored_of v h = let (strand, made) = strand_of v h in (strand, strand.version ∷ [])

abbrev pub inner_of : Stored → List ℕ
inner_of s = length s.0.complement ∷ []

pub stored_of-Written :
    (v : ℕ) (h : v < 2 ^ 64)
    → Written cpu codec 5 1 v payload (stored_of v h) (inner_of (stored_of v h))
stored_of-Written v h =
    let (strand, made) = strand_of v h in
    record {
      made = made;
      readable =
          sample-Reads of_version strand
            (ap of_version (made-version cpu 5 1 v payload strand made) ∙ made);
      serialized = refl;
      readable_complement = (([], refl), omega arith);
    }

-- A new collection, with empty files.
abbrev pub empty : CollectionStorage
empty = record {
  strands = record { map' = []; len = 0; grow_events = 0 };
  complement = record { map' = []; len = 0; grow_events = 0 };
  meta = record { map' = []; len = 0; grow_events = 0 };
  materialized_high_water_sequence = 0;
}

pub empty-IsCollection : IsCollection codec empty [] [] []
unfolding zeros
empty-IsCollection = record {
  strands = record { room = 0; file = refl; written = refl };
  complement = record { room = 0; file = refl; written = refl };
  meta_bytes = record { room = 0; file = refl; written = refl };
  readable = tt;
  readable_complements = tt;
}

pub room_in_empty :
    (v : ℕ) (h : v < 2 ^ 64) → HasRoom [] [] [] (stored_of v h) (inner_of (stored_of v h))
unfolding to_le_bytes
room_in_empty v h = record {
  strands_fit = omega arith;
  complements_fit = omega arith;
  meta_fits = omega arith;
}

pub small : 1 < 2 ^ 64
small = omega arith

-- The files after one entry.
pub one_strand :
    (store : CollectionStorage) × (process_wal_entry_with_mode cpu compute_crc32 codec 5 empty 1 1
        payload
      ≡ (store, ok tt))
    × IsCollection codec store
        (stored_of 1 small ∷ [])
        (inner_of (stored_of 1 small) ∷ [])
        (encode_crc_entry 1 (2 ^ 30))
one_strand =
    let (store, done, stored, high) =
      process-IsCollection cpu compute_crc32 codec 5 1 1 payload empty [] [] [] (stored_of 1 small)
        (inner_of (stored_of 1 small)) empty-IsCollection (stored_of-Written 1 small)
        (room_in_empty 1 small) in
    (store, done, stored)
