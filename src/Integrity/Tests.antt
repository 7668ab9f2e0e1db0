-- ===== src/Integrity/Tests.antt =====
-- The theorems on engine/src/integrity.rs at concrete entries and files.
use dna_db.Prelude.{
  ℕ, List, ◌^◌, ◌≡◌, refl, subst, sym, ap, ◌∙◌, none, [], ◌∷◌, ◌++◌, arith, nat_eq,
}
use mathlib.Core.List.{append-nil}
use dna_db.Prelude.Results.{ok}
use dna_db.Storage.{CollectionFiles, files_of}
use dna_db.Storage.Maps.{zeros}
use dna_db.Storage.Frames.{Stored}
use dna_db.Storage.Reopen.{IsCollection}
use dna_db.Integrity.{encode_crc_entry, decode_crc_entries, scrub_collection}
use dna_db.Integrity.Layout.{entries, inserted}
use dna_db.Integrity.Entries.{decode_crc_entries-entries}
use dna_db.Integrity.Scrub.{entry_of}
use dna_db.Integrity.Report.{scrub_collection_lem}
use dna_db.Processor.Persist.{made-version}
use dna_db.Processor.Sample.{cpu, payload, codec, strand_of, stored_of, inner_of, small, one_strand}

-- The second checksum is below 2^24, and is not read back.
decode_crc_entries-entries_example :
    decode_crc_entries (entries ((1, 2 ^ 30) ∷ []) ++ (encode_crc_entry 2 77 ++ zeros 40))
    ≡ inserted ((1, 2 ^ 30) ∷ []) []
decode_crc_entries-entries_example =
    decode_crc_entries-entries ((1, 2 ^ 30) ∷ []) (2, 77) 40 ((omega arith, omega arith), tt)
      (omega arith, omega arith) (λ z. absurd (omega arith))

version : (strand_of 1 small).0.version ≡ 1
version = made-version cpu 5 1 1 payload (strand_of 1 small).0 (strand_of 1 small).1

-- The checksum in the meta file.
abbrev entered : Stored → ℕ
entered s = 2 ^ 30

abbrev damaged_crc32 : List ℕ → ℕ
damaged_crc32 bytes = 5

stored_one :
    IsCollection codec one_strand.0
      (stored_of 1 small ∷ [])
      (inner_of (stored_of 1 small) ∷ [])
      (entries (entry_of entered (stored_of 1 small) ∷ []))
stored_one =
    let meta : encode_crc_entry 1 (2 ^ 30) ≡ entries (entry_of entered (stored_of 1 small) ∷ []) =
      sym (
        ap (λ n. encode_crc_entry n (2 ^ 30) ++ []) version
        ∙ append-nil (encode_crc_entry 1 (2 ^ 30))) in
    subst
      (λ m.
        IsCollection codec one_strand.0 (stored_of 1 small ∷ []) (inner_of (stored_of 1 small) ∷ [])
          m)
      meta one_strand.2

-- The frame was damaged: its checksum is not the one that was entered for it.
scrub_collection_example :
    (files : CollectionFiles) × (scrub_collection damaged_crc32 codec (files_of one_strand.0) none
      ≡ ok (files, record { checked = 1; missing_crc = 0; mismatched_crc = 1 }))
scrub_collection_example =
    scrub_collection_lem damaged_crc32 codec one_strand.0 entered [] (stored_of 1 small)
      (inner_of (stored_of 1 small) ∷ []) none stored_one (tt, tt) tt
      (omega (arith, version), omega arith) (λ z. absurd (omega (arith, version))) refl
