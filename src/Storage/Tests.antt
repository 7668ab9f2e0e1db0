-- ===== src/Storage/Tests.antt =====
-- Runs of engine/src/storage.rs, and its theorems at concrete files.
use dna_db.Prelude.{◌≡◌, refl, some, [], ◌∷◌, take, arith, ◌^◌}
use dna_db.Prelude.Results.{ok}
use dna_db.Storage.{CollectionStorage, open_or_create, files_of, scan_meta_tail}
use dna_db.Storage.Maps.{Region, append_with_auto_grow, zeros}
use dna_db.Storage.Append.{Holds, append-Holds}
use dna_db.Storage.Frames.{max_version}
use dna_db.Storage.Reopen.{IsCollection, reopen-IsCollection}
use dna_db.Integrity.{encode_crc_entry}
use dna_db.Processor.Sample.{codec, stored_of, inner_of, small, one_strand}

-- Three bytes of a map of five.
abbrev half_full : Region
half_full = record { map' = 1 ∷ 2 ∷ 3 ∷ 0 ∷ 0 ∷ []; len = 3; grow_events = 0 }

half_full-Holds : Holds half_full (1 ∷ 2 ∷ 3 ∷ [])
unfolding zeros
half_full-Holds = record { room = 2; file = refl; written = refl }

append-Holds_example :
    (region' : Region) × (append_with_auto_grow half_full (4 ∷ 5 ∷ 6 ∷ []) ≡ ok (3, region'))
    × Holds region' (1 ∷ 2 ∷ 3 ∷ 4 ∷ 5 ∷ 6 ∷ [])
append-Holds_example =
    append-Holds half_full (1 ∷ 2 ∷ 3 ∷ []) (4 ∷ 5 ∷ 6 ∷ []) half_full-Holds (omega arith)

-- A start forgets a zero at the end of the meta file.
meta_ends_in_zero : scan_meta_tail (8 ∷ 0 ∷ 0 ∷ 0 ∷ []) ≡ 1
unfolding scan_meta_tail
meta_ends_in_zero = refl

-- One strand with its complement and its checksum, and files that are enlarged by the start.
reopen-IsCollection_example :
    let entry = encode_crc_entry 1 (2 ^ 30) in
    let stored = stored_of 1 small ∷ [] in
    (storage' : CollectionStorage) × (open_or_create codec (files_of one_strand.0) (some 4096)
      ≡ ok storage')
    × IsCollection codec storage' stored
        (inner_of (stored_of 1 small) ∷ [])
        (take (scan_meta_tail entry) entry)
    × (storage'.materialized_high_water_sequence ≡ max_version 0 stored)
reopen-IsCollection_example =
    reopen-IsCollection codec one_strand.0 (stored_of 1 small ∷ [])
      (inner_of (stored_of 1 small) ∷ []) (encode_crc_entry 1 (2 ^ 30)) (some 4096) one_strand.2
      refl
