-- ===== src/Processor.antt =====
-- engine/src/processor.rs: from an entry of the log to its strand, its complement and its checksum in
-- the files of the collection. Whether the files are synced after an entry (`PersistMode`) is not seen
-- in the model, where they hold what the maps hold. Readings of the clock are arguments.
pub mod Strands
pub mod Persist
pub mod Sample
mod Tests
use Prim.Native.Nat.{bit_xor}
use Prim.Native.String.{String, ◌++◌ as str_append, slice as str_slice}
use dna_db.Prelude.{
  ℕ, zero, suc, ◌+◌, ◌*◌, ◌/◌, ◌%◌, ◌^◌, min, true, Option, none, some, List, [], ◌∷◌, ◌++◌, length,
  ltb, if◌then◌else◌, to_le_bytes, u16_max,
}
use dna_db.Prelude.Results.{Result, ok, err, map_err, ok_or, attempt, and_then}
use dna_db.Model.{Codon, Strand, Intron, Telomere, Tag, immortal}
use dna_db.Complement.{generate_complement}
use dna_db.Encoding.{Cpu, encode_bytes_to_codons}
use dna_db.Codec.{Bincode, CodecError, encode_strand}
use dna_db.Storage.{
  CollectionFiles, CollectionStorage, open_or_create, files_of, sized_files, append_strands,
  append_complement, record_materialized_sequence,
}
use dna_db.Storage.Maps.{StorageError}
use dna_db.Integrity.{IntegrityError, append_crc_entry_for_strand}

abbrev pub fnv_offset : ℕ
fnv_offset = 14695981039346656037

abbrev pub fnv_prime : ℕ
fnv_prime = 1099511628211

-- The loop of `fnv1a64`; the product wraps.
unfoldable pub fnv1a64_from : ℕ → List ℕ → ℕ
fnv1a64_from hash [] = hash
fnv1a64_from hash (b ∷ data') = fnv1a64_from (bit_xor hash b * fnv_prime % 2 ^ 64) data'

unfoldable pub fnv1a64 : List ℕ → ℕ
unfolding fnv1a64_from
fnv1a64 data' = fnv1a64_from fnv_offset data'

-- The digits of a number of at most `fuel` of them: `u64::to_string`, for 20.
unfoldable pub decimal : ℕ → ℕ → String
decimal zero n = ""
decimal (suc fuel) n =
    let digit = str_slice "0123456789" (n % 10) (n % 10 + 1) in
    let front = decimal fuel (n / 10) in if ltb n 10 then digit else str_append front digit

unfoldable pub strand_signature : ℕ → List ℕ
strand_signature sequence = to_le_bytes 8 sequence

-- The strand of the codons and their complement.
unfoldable pub woven : ℕ → ℕ → ℕ → List ℕ → List Codon → List Codon → Strand
woven now collection_id sequence raw_payload codons complement = record {
  signature = strand_signature sequence;
  collection_id = collection_id;
  codons = codons;
  complement = complement;
  introns =
      record {
        field_name = "_payload";
        codon_offset = 0;
        codon_length = min (length codons) u16_max;
        value_hash = fnv1a64 raw_payload;
        references_strand = none;
      }
      ∷ [];
  telomere = record { count = 0; immortal = true; last_refresh = now; refresh_policy = immortal };
  epigenetic_tags = record { key = "wal_sequence"; value = decimal 20 sequence } ∷ [];
  version = sequence;
  created_at = now;
  updated_at = now;
}

-- `none` is the panic of the encoder or of the complement.
unfoldable pub strand_from_wal_payload : Cpu → ℕ → ℕ → ℕ → List ℕ → Option Strand
strand_from_wal_payload cpu now collection_id sequence raw_payload =
    elim (encode_bytes_to_codons cpu raw_payload) [
      | none ↦ none
      | some encoded ↦ elim (generate_complement encoded.codons) [
        | none ↦ none
        | some complement ↦
            some (woven now collection_id sequence raw_payload encoded.codons complement)
      ]
    ]

-- `none` is bincode's error.
unfoldable pub encode_complement_blob : Bincode → List Codon → Option (List ℕ)
encode_complement_blob bincode codons = elim (bincode.serialize_codons codons) [
  | none ↦ none
  | some inner ↦ some (to_le_bytes 4 (length inner) ++ inner)
]

-- `panicked` is no value of the source.
pub data ProcessorError : Type 0 where
  storage : StorageError → ProcessorError
  codec : CodecError → ProcessorError
  integrity : IntegrityError → ProcessorError
  bincode_error panicked : ProcessorError

pub data WalJob : Type 0 where
  entry : ℕ → List ℕ → WalJob
  shutdown : WalJob

module _ (cpu : Cpu) (compute_crc32 : List ℕ → ℕ) (bincode : Bincode) where
  -- An error leaves in the storage what was appended before it.
  unfoldable pub process_wal_entry_with_mode :
      ℕ → CollectionStorage → ℕ → ℕ → List ℕ → CollectionStorage × Result ProcessorError (Unit {0})
  process_wal_entry_with_mode now store collection_id sequence raw_payload =
      attempt (ok_or (strand_from_wal_payload cpu now collection_id sequence raw_payload) panicked)
        store
        (λ strand. attempt (map_err codec (encode_strand bincode strand)) store (λ strand_bytes.
          attempt (map_err storage (append_strands store strand_bytes)) store (λ appended.
            attempt
              (map_err integrity
                (append_crc_entry_for_strand compute_crc32 appended.1 sequence strand_bytes))
              appended.1
              (λ entered.
                attempt (ok_or (encode_complement_blob bincode strand.complement) bincode_error)
                  entered
                  (λ comp_blob.
                    attempt (map_err storage (append_complement entered comp_blob)) entered
                      (λ complemented.
                        (record_materialized_sequence complemented.1 sequence, ok tt)))))))

  -- With `SyncEveryWrite`.
  abbrev pub process_wal_entry :
      ℕ → CollectionStorage → ℕ → ℕ → List ℕ → CollectionStorage × Result ProcessorError (Unit {0})
  process_wal_entry = process_wal_entry_with_mode

  -- The loop of the worker on the jobs that it receives until the channel is closed. `clock` reads
  -- the time at which a sequence is processed.
  unfoldable pub drain :
      (ℕ → ℕ)
      → ℕ
      → List WalJob
      → CollectionStorage
      → CollectionStorage × Result ProcessorError (Unit {0})
  unfolding process_wal_entry_with_mode
  drain clock collection_id [] store = (store, ok tt)
  drain clock collection_id (shutdown ∷ jobs) store = (store, ok tt)
  drain clock collection_id (entry sequence payload ∷ jobs) store =
      and_then (process_wal_entry (clock sequence) store collection_id sequence payload) (λ e. e)
        (λ store' done. drain clock collection_id jobs store')

  -- What the worker leaves in the files. Files that the start refuses are filled up as it does.
  unfoldable pub worker_loop :
      (ℕ → ℕ)
      → ℕ
      → Option ℕ
      → List WalJob
      → CollectionFiles
      → CollectionFiles × Result ProcessorError (Unit {0})
  unfolding drain
  worker_loop clock collection_id initial_mmap jobs files =
      elim (open_or_create bincode files initial_mmap) [
        | err e ↦ (sized_files files initial_mmap, err (storage e))
        | ok store ↦
            (let (store', outcome) = drain clock collection_id jobs store in
              (files_of store', outcome))
      ]
