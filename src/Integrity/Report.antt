-- ===== src/Integrity/Report.antt =====
-- engine/src/integrity.rs: a scrub of a whole collection, on the files that the storage leaves.
use dna_db.Prelude.{
  ℕ, ◌+◌, ◌^◌, ◌<◌, ◌≡◌, ◌≢◌, refl, ap, ◌∙◌, Option, none, List, [], ◌∷◌, ◌++◌, map, length, All,
  arith, ltb, suc, nat_eq, if◌then◌else◌, length-append, retain, subst, eq_self,
}
use dna_db.Prelude.Map.{insert}
use dna_db.Prelude.Results.{ok}
use dna_db.Codec.{Bincode}
use dna_db.Storage.{CollectionFiles, CollectionStorage, files_of}
use dna_db.Storage.Frames.{Stored, frames, frames_long}
use dna_db.Storage.Maps.{zeros}
use dna_db.Storage.Reopen.{IsCollection, reopen-IsCollection}
use dna_db.Integrity.{encode_crc_entry, decode_crc_entries, scrub_collection}
use dna_db.Integrity.Layout.{Fits, entries, entries-append, inserted}
use dna_db.Integrity.Entries.{decode_crc_entries_exact, decode_crc_entries-trimmed}
use dna_db.Integrity.Counts.{is_damaged, reported-read_back}
use dna_db.Integrity.Scrub.{crc_of, entry_of, AllDiffer, scrub-frames, empty_report, map-entry_of}

-- A scrub of a collection that has a checksum entry for each strand checks all strands, and counts as
-- mismatched exactly those whose frame has another checksum than its entry. It reports one entry as
-- missing, and does not compare the last strand, where the last entry's checksum is below 2^24, and
-- none otherwise. No two strands have one version, the sequences and checksums fit their words, and
-- the last sequence is not zero. bincode reads what was written, and no vector from no bytes.
pub scrub_collection_lem :
    (compute_crc32 : List ℕ → ℕ) (bincode : Bincode) (storage : CollectionStorage)
    (entered : Stored → ℕ) (stored : List Stored) (last : Stored) (complements : List (List ℕ))
    (initial_mmap : Option ℕ)
    → IsCollection bincode storage
        (stored ++ (last ∷ []))
        complements
        (entries (map (entry_of entered) (stored ++ (last ∷ []))))
    → AllDiffer (stored ++ (last ∷ []))
    → All Fits (map (entry_of entered) stored)
    → Fits (entry_of entered last)
    → last.0.version ≢ 0
    → bincode.deserialize_codons [] ≡ none
    → (files : CollectionFiles) × (scrub_collection compute_crc32 bincode
          (files_of storage)
          initial_mmap
        ≡ ok (
          files,
          record {
            checked = length stored + 1;
            missing_crc = if ltb (entered last) (2 ^ 24) then 1 else 0;
            mismatched_crc = length (
                retain
                  (is_damaged compute_crc32 entered)
                  (if ltb (entered last) (2 ^ 24) then stored else stored ++ (last ∷ [])));
          },
        ))
scrub_collection_lem compute_crc32 bincode storage entered stored last complements initial_mmap c d
      fits fits_last h e =
    let strands = stored ++ (last ∷ []) in
    let es = map (entry_of entered) stored in
    let meta = entries (map (entry_of entered) strands) in
    let (store, opened, c', high) =
      reopen-IsCollection bincode storage strands complements meta initial_mmap c e in
    let meta_shape : meta ≡ entries es ++ encode_crc_entry last.0.version (entered last) =
      ap entries (map-entry_of entered stored last) ∙ entries-append es (entry_of entered last) in
    let read = decode_crc_entries_exact es (entry_of entered last) fits fits_last h in
    let crc_map : decode_crc_entries store.meta.map' ≡ (
        if ltb (entered last) (2 ^ 24)
        then inserted es []
        else insert last.0.version (entered last) (inserted es [])) =
      ap decode_crc_entries c'.meta_bytes.file
      ∙ decode_crc_entries-trimmed meta c'.meta_bytes.room
      ∙ ap decode_crc_entries meta_shape
      ∙ read in
    let rounds : length strands < suc (length (frames strands ++ zeros c'.strands.room)) =
      omega (arith, frames_long strands, length-append (frames strands) (zeros c'.strands.room)) in
    (
      files_of store,
      (unfold scrub_collection in
          rw
            (
              opened,
              crc_map,
              c'.strands.file,
              scrub-frames compute_crc32 bincode
                  (suc (length (frames strands ++ zeros c'.strands.room))) c'.strands.room strands _
                  empty_report c.readable rounds,
              reported-read_back compute_crc32 entered stored last d,
            )
            refl),
    )

none_damaged :
    (compute_crc32 : List ℕ → ℕ) (stored : List Stored)
    → retain (is_damaged compute_crc32 (crc_of compute_crc32)) stored ≡ []
none_damaged compute_crc32 [] = refl
none_damaged compute_crc32 (s ∷ rest) =
    ground (arith, eq_self (crc_of compute_crc32 s), none_damaged compute_crc32 rest)

-- A scrub finds no mismatch where the entries are the checksums of the frames. The conditions are those
-- of `scrub_collection_lem`.
scrub_undamaged :
    (compute_crc32 : List ℕ → ℕ) (bincode : Bincode) (storage : CollectionStorage)
    (stored : List Stored) (last : Stored) (complements : List (List ℕ)) (initial_mmap : Option ℕ)
    → IsCollection bincode storage
        (stored ++ (last ∷ []))
        complements
        (entries (map (entry_of (crc_of compute_crc32)) (stored ++ (last ∷ []))))
    → AllDiffer (stored ++ (last ∷ []))
    → All Fits (map (entry_of (crc_of compute_crc32)) stored)
    → Fits (entry_of (crc_of compute_crc32) last)
    → last.0.version ≢ 0
    → bincode.deserialize_codons [] ≡ none
    → (files : CollectionFiles) × (scrub_collection compute_crc32 bincode
          (files_of storage)
          initial_mmap
        ≡ ok (
          files,
          record {
            checked = length stored + 1;
            missing_crc = if ltb (crc_of compute_crc32 last) (2 ^ 24) then 1 else 0;
            mismatched_crc = 0;
          },
        ))
scrub_undamaged compute_crc32 bincode storage stored last complements initial_mmap c d fits
      fits_last h e =
    subst
      (λ n.
        (files : CollectionFiles) × (scrub_collection compute_crc32 bincode (files_of storage)
            initial_mmap
          ≡ ok (
            files,
            record {
              checked = length stored + 1;
              missing_crc = if ltb (crc_of compute_crc32 last) (2 ^ 24) then 1 else 0;
              mismatched_crc = n;
            },
          )))
      (ap length (
        none_damaged compute_crc32
          (if ltb (crc_of compute_crc32 last) (2 ^ 24) then stored else stored ++ (last ∷ []))))
      (scrub_collection_lem compute_crc32 bincode storage (crc_of compute_crc32) stored last
        complements initial_mmap c d fits fits_last h e)
