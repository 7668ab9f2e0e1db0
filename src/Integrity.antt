-- ===== src/Integrity.antt =====
-- engine/src/integrity.rs: checksums of strand frames in the meta file, and the scrubber that compares
-- them. The checksum is the crate crc32fast's, a parameter.
pub mod Layout
pub mod Tail
pub mod Entries
pub mod Scrub
pub mod Counts
pub mod Report
mod Tests
use dna_db.Prelude.{
  ℕ, zero, suc, ◌+◌, Option, none, some, List, [], ◌∷◌, ◌++◌, length, take, drop, ltb, leb, not,
  ◌&&◌, ◌||◌, ◌==◌, nat_eq, list_eq, if◌then◌else◌, to_le_bytes, from_le_bytes,
}
use dna_db.Prelude.Map.{Map, get, insert}
use dna_db.Prelude.Results.{Result, ok, err, ◌>>=◌, map_err}
use dna_db.Codec.{
  Bincode, CodecError, out_of_fuel, strand_format_magic, encode_strand, decode_strand,
}
use dna_db.Storage.{
  CollectionFiles, CollectionStorage, open_or_create, files_of, append_meta, scan_meta_tail,
}
use dna_db.Storage.Maps.{StorageError}

abbrev pub crc_entry_size : ℕ
crc_entry_size = 12

pub data IntegrityError : Type 0 where
  codec : CodecError → IntegrityError
  storage : StorageError → IntegrityError

pub record ScrubReport : Type 0 where
  pub checked : ℕ
  pub missing_crc : ℕ
  pub mismatched_crc : ℕ

unfoldable pub encode_crc_entry : ℕ → ℕ → List ℕ
encode_crc_entry sequence crc = to_le_bytes 8 sequence ++ to_le_bytes 4 crc

-- The loop of `decode_crc_entries`, on the bytes from `pos` to `end`. A round takes twelve bytes.
unfoldable pub decode_entries_from : ℕ → List ℕ → Map ℕ ℕ → Map ℕ ℕ
decode_entries_from zero bytes out = out
decode_entries_from (suc fuel) bytes out =
    let sequence = from_le_bytes (take 8 bytes) in
    let crc = from_le_bytes (take 4 (drop 8 bytes)) in
    let rest = decode_entries_from fuel (drop crc_entry_size bytes) (insert sequence crc out) in
    if ltb (length bytes) crc_entry_size then out else rest

-- The end is found as in `scan_meta_tail`.
unfoldable pub decode_crc_entries : List ℕ → Map ℕ ℕ
decode_crc_entries meta_bytes =
    let end' = scan_meta_tail meta_bytes in decode_entries_from (suc end') (take end' meta_bytes) []

module _ (compute_crc32 : List ℕ → ℕ) where
  unfoldable pub append_crc_entry_for_strand :
      CollectionStorage → ℕ → List ℕ → Result IntegrityError CollectionStorage
  append_crc_entry_for_strand store sequence strand_frame = do
    (offset, store') ←
        map_err storage (append_meta store (encode_crc_entry sequence (compute_crc32 strand_frame)))
    ok store'

  -- What one frame adds to the report.
  abbrev pub compared : Option ℕ → ℕ → ScrubReport → ScrubReport
  compared none actual report = record report {
    checked = suc report.checked;
    missing_crc = suc report.missing_crc;
  }
  compared (some expected) actual report =
      if expected == actual then record report { checked = suc report.checked } else record report {
        checked = suc report.checked;
        mismatched_crc = suc report.mismatched_crc;
      }

  module _ (bincode : Bincode) where
    -- The loop of `scrub_collection` on the bytes from `pos` on.
    unfoldable pub scrub_from : ℕ → List ℕ → Map ℕ ℕ → ScrubReport → Result CodecError ScrubReport
    scrub_from zero bytes crc_map report = err out_of_fuel
    scrub_from (suc fuel) bytes crc_map report =
        if ltb (length bytes) 6 || not (take 4 bytes == strand_format_magic) then ok report else (do
          strand ← decode_strand bincode bytes
          encoded ← encode_strand bincode strand
          let frame_len = length encoded
          let actual = compute_crc32 (take frame_len bytes)
          let report' = compared (get strand.version crc_map) actual report
          let rest = scrub_from fuel (drop frame_len bytes) crc_map report'
          if ltb (length bytes) frame_len then ok report else rest)

    -- The files after it, which opening may have filled up, and the report.
    unfoldable pub scrub_collection :
        CollectionFiles → Option ℕ → Result IntegrityError (CollectionFiles × ScrubReport)
    scrub_collection files initial_mmap = do
      store ← map_err storage (open_or_create bincode files initial_mmap)
      let strands_bytes = store.strands.map'
      let crc_map = decode_crc_entries store.meta.map'
      report ← map_err codec (
          scrub_from (suc (length strands_bytes)) strands_bytes crc_map
            (record { checked = 0; missing_crc = 0; mismatched_crc = 0 }))
      ok (files_of store, report)
