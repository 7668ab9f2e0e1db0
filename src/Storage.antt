-- ===== src/Storage.antt =====
-- engine/src/storage.rs: the three memory-mapped files of a collection. A map shares its bytes with
-- its file, so both are one list; an operation of the operating system on a file succeeds.
pub mod Maps
pub mod Append
pub mod Frames
pub mod Blobs
pub mod Meta
pub mod Reopen
pub mod Rounds
mod Tests
use dna_db.Prelude.{
  ℕ, zero, suc, ◌+◌, ◌-◌, ◌%◌, ◌^◌, Bool, true, false, Option, none, some, List, [], ◌∷◌, ◌++◌,
  length, take, drop, unwrap_or, max, ltb, leb, not, ◌==◌, nat_eq, list_eq, if◌then◌else◌,
  from_le_bytes,
}
use dna_db.Prelude.Results.{Result, ok, err, ◌>>=◌, map_err}
use dna_db.Model.{Strand}
use dna_db.Codec.{Bincode, CodecError, out_of_fuel, strand_format_magic, decode_strand_with_len}
use dna_db.Storage.Maps.{Region, append_with_auto_grow, zeros, StorageError, strand_scan}

-- What the files of the collection hold; a file that does not exist is empty.
pub record CollectionFiles : Type 0 where
  pub strands_file : List ℕ
  pub complement_file : List ℕ
  pub meta_file : List ℕ

pub record CollectionStorage : Type 0 where
  pub strands : Region
  pub complement : Region
  pub meta : Region
  pub materialized_high_water_sequence : ℕ

-- 1 MiB
abbrev pub default_file_size : ℕ
default_file_size = 2 ^ 20

module _ (bincode : Bincode) where
  -- The loop of `scan_strands_tail` on the bytes from `pos` on. A frame has six bytes at least.
  unfoldable pub scan_strands_from : ℕ → List ℕ → ℕ → ℕ → Result CodecError (ℕ × ℕ)
  scan_strands_from zero bytes pos max_ver = err out_of_fuel
  scan_strands_from (suc fuel) bytes pos max_ver =
      if ltb (length bytes) 6
      then ok (pos, max_ver)
      else if not (take 4 bytes == strand_format_magic)
      then ok (pos, max_ver)
      else (do
        (strand, len) ← decode_strand_with_len bincode bytes
        scan_strands_from fuel (drop len bytes) (pos + len) (max max_ver strand.version))

  unfoldable pub scan_strands_tail : List ℕ → Result CodecError (ℕ × ℕ)
  unfolding scan_strands_from
  scan_strands_tail bytes = scan_strands_from (suc (length bytes)) bytes 0 0

  -- The loop of `scan_complement_tail` on the bytes from `pos` on. A round takes four bytes at least.
  unfoldable pub scan_complement_from : ℕ → List ℕ → ℕ → ℕ
  scan_complement_from zero bytes pos = pos
  scan_complement_from (suc fuel) bytes pos =
      if ltb (length bytes) 4
      then pos
      else let len = from_le_bytes (take 4 bytes) in
        if ltb (length bytes) (4 + len)
        then pos
        else elim (bincode.deserialize_codons (take len (drop 4 bytes))) [
          | none ↦ pos
          | some codons ↦ scan_complement_from fuel (drop (4 + len) bytes) (pos + (4 + len))
        ]

  unfoldable pub scan_complement_tail : List ℕ → ℕ
  unfolding scan_complement_from
  scan_complement_tail bytes = scan_complement_from (suc (length bytes)) bytes 0

-- iter().rposition(|b| *b != 0).map(|i| i + 1).unwrap_or(0)
unfoldable pub scan_meta_tail : List ℕ → ℕ
scan_meta_tail [] = 0
scan_meta_tail (b ∷ bytes) =
    let rest = scan_meta_tail bytes in
    if not (rest == 0) then suc rest else if not (b == 0) then 1 else 0

-- The bytes of the file after it.
unfoldable pub open_and_size : List ℕ → ℕ → List ℕ
open_and_size file size =
    if ltb (length file) size then file ++ zeros (size - length file) else file

-- The files that `open_or_create` maps, and leaves so where the scan is an error.
abbrev pub sized_files : CollectionFiles → Option ℕ → CollectionFiles
sized_files files initial_size =
    let size = unwrap_or initial_size default_file_size in
    record {
      strands_file = open_and_size files.strands_file size;
      complement_file = open_and_size files.complement_file size;
      meta_file = open_and_size files.meta_file size;
    }

abbrev pub opened : List ℕ → ℕ → Region
opened map' len = record { map' = map'; len = len; grow_events = 0 }

unfoldable pub open_or_create :
    Bincode → CollectionFiles → Option ℕ → Result StorageError CollectionStorage
open_or_create bincode files initial_size =
    let size = unwrap_or initial_size default_file_size in
    let strands_map = open_and_size files.strands_file size in
    let complement_map = open_and_size files.complement_file size in
    let meta_map = open_and_size files.meta_file size in
    do
      (strands_len, high_water) ← map_err strand_scan (scan_strands_tail bincode strands_map)
      ok (record {
        strands = opened strands_map strands_len;
        complement = opened complement_map (scan_complement_tail bincode complement_map);
        meta = opened meta_map (scan_meta_tail meta_map);
        materialized_high_water_sequence = high_water;
      })

-- The files behind the maps.
abbrev pub files_of : CollectionStorage → CollectionFiles
files_of storage = record {
  strands_file = storage.strands.map';
  complement_file = storage.complement.map';
  meta_file = storage.meta.map';
}

-- The offset of the bytes, and the storage.
unfoldable pub append_strands :
    CollectionStorage → List ℕ → Result StorageError (ℕ × CollectionStorage)
append_strands storage bytes = do
  (offset, region) ← append_with_auto_grow storage.strands bytes
  ok (offset, record storage { strands = region })

unfoldable pub append_complement :
    CollectionStorage → List ℕ → Result StorageError (ℕ × CollectionStorage)
append_complement storage bytes = do
  (offset, region) ← append_with_auto_grow storage.complement bytes
  ok (offset, record storage { complement = region })

unfoldable pub append_meta :
    CollectionStorage → List ℕ → Result StorageError (ℕ × CollectionStorage)
append_meta storage bytes = do
  (offset, region) ← append_with_auto_grow storage.meta bytes
  ok (offset, record storage { meta = region })

unfoldable pub record_materialized_sequence : CollectionStorage → ℕ → CollectionStorage
record_materialized_sequence storage sequence = record storage {
  materialized_high_water_sequence = max storage.materialized_high_water_sequence sequence;
}

abbrev pub strand_bytes_written : CollectionStorage → ℕ
strand_bytes_written storage = storage.strands.len

abbrev pub grow_events : CollectionStorage → ℕ × ℕ × ℕ
grow_events storage =
    (storage.strands.grow_events, storage.complement.grow_events, storage.meta.grow_events)

abbrev pub map_capacities : CollectionStorage → ℕ × ℕ × ℕ
map_capacities storage =
    (length storage.strands.map', length storage.complement.map', length storage.meta.map')
