-- ===== src/Storage/Reopen.antt =====
-- engine/src/storage.rs: a collection that is opened again has what was written to it.
use dna_db.Prelude.{
  ℕ, ◌+◌, ◌-◌, ◌≡◌, refl, sym, ap, ◌∙◌, Option, none, List, [], ◌++◌, length, take, All, arith,
  unwrap_or, length-take, Bool-cases, inl, inr, ltb,
}
use mathlib.Core.List.{append_assoc}
use dna_db.Prelude.Results.{ok}
use dna_db.Codec.{Bincode}
use dna_db.Storage.{
  CollectionStorage, open_and_size, open_or_create, files_of, default_file_size, scan_meta_tail,
}
use dna_db.Storage.Maps.{zeros}
use dna_db.Storage.Append.{Holds, zeros-add}
use dna_db.Storage.Frames.{Stored, frames, max_version, IsReadable, scan_strands_tail-frames}
use dna_db.Storage.Blobs.{blobs, IsBlob, scan_complement_tail-blobs}
use dna_db.Storage.Meta.{scan_meta-append-zeros, scan_meta_bounded, scan_meta_trims}

-- The strands, complements and meta bytes that were written; bincode reads them.
pub record IsCollection (bincode : Bincode) (storage : CollectionStorage) (stored : List Stored)
    (complements : List (List ℕ)) (meta : List ℕ) : Type 0 where
  pub strands : Holds storage.strands (frames stored)
  pub complement : Holds storage.complement (blobs complements)
  pub meta_bytes : Holds storage.meta meta
  pub readable : All (IsReadable bincode) stored
  pub readable_complements : All (IsBlob bincode) complements

-- A file that holds the content is filled up with more zeros, or none.
sized :
    (content : List ℕ) (room size : ℕ)
    → (room' : ℕ) × (open_and_size (content ++ zeros room) size ≡ content ++ zeros room')
unfolding open_and_size
sized content room size =
    let file = content ++ zeros room in
    elim (Bool-cases (ltb (length file) size)) [
      | inl e ↦ (
        room + (size - length file),
        rw e (
            append_assoc content (zeros room) (zeros (size - length file))
            ∙ ap (◌++◌ content) (sym (zeros-add room (size - length file)))),
      )
      | inr e ↦ (room, rw e refl)
    ]

length-trimmed : (meta : List ℕ) → scan_meta_tail meta ≡ length (take (scan_meta_tail meta) meta)
length-trimmed meta = omega (arith, length-take (scan_meta_tail meta) meta, scan_meta_bounded meta)

trimmed_file :
    (meta : List ℕ) (room : ℕ)
    → meta ++ zeros room
      ≡ take (scan_meta_tail meta) meta ++ zeros (length meta - scan_meta_tail meta + room)
trimmed_file meta room =
    let cut = take (scan_meta_tail meta) meta in
    let rest = length meta - scan_meta_tail meta in
    ap (λ bytes. bytes ++ zeros room) (scan_meta_trims meta)
    ∙ append_assoc cut (zeros rest) (zeros room)
    ∙ ap (◌++◌ cut) (sym (zeros-add rest room))

-- Opening the files of a collection again, with any initial size, finds all strands and complements
-- that were written, and the highest version of the strands. Of the meta bytes it finds those up to
-- the last that is not zero. bincode reads what was written, and no vector from no bytes.
pub reopen-IsCollection :
    (bincode : Bincode) (storage : CollectionStorage) (stored : List Stored)
    (complements : List (List ℕ)) (meta : List ℕ) (initial_size : Option ℕ)
    → IsCollection bincode storage stored complements meta
    → bincode.deserialize_codons [] ≡ none
    → (storage' : CollectionStorage) × (open_or_create bincode (files_of storage) initial_size
        ≡ ok storage')
      × IsCollection bincode storage' stored complements (take (scan_meta_tail meta) meta)
      × (storage'.materialized_high_water_sequence ≡ max_version 0 stored)
reopen-IsCollection bincode storage stored complements meta initial_size c e =
    let size = unwrap_or initial_size default_file_size in
    let (r1, f1) = sized (frames stored) c.strands.room size in
    let (r2, f2) = sized (blobs complements) c.complement.room size in
    let (r3, f3) = sized meta c.meta_bytes.room size in
    let strands_file : open_and_size storage.strands.map' size ≡ frames stored ++ zeros r1 =
      rw c.strands.file f1 in
    let complement_file : open_and_size storage.complement.map' size
        ≡ blobs complements ++ zeros r2 =
      rw c.complement.file f2 in
    let meta_file : open_and_size storage.meta.map' size ≡ meta ++ zeros r3 =
      rw c.meta_bytes.file f3 in
    (
      record {
        strands = record {
          map' = frames stored ++ zeros r1;
          len = length (frames stored);
          grow_events = 0;
        };
        complement = record {
          map' = blobs complements ++ zeros r2;
          len = length (blobs complements);
          grow_events = 0;
        };
        meta = record { map' = meta ++ zeros r3; len = scan_meta_tail meta; grow_events = 0 };
        materialized_high_water_sequence = max_version 0 stored;
      },
      (unfold open_or_create in
          rw
            (
              strands_file,
              complement_file,
              meta_file,
              scan_strands_tail-frames bincode r1 stored c.readable,
              scan_complement_tail-blobs bincode r2 complements e c.readable_complements,
              scan_meta-append-zeros meta r3,
            )
            refl),
      record {
        strands = record { room = r1; file = refl; written = refl };
        complement = record { room = r2; file = refl; written = refl };
        meta_bytes = record {
          room = length meta - scan_meta_tail meta + r3;
          file = trimmed_file meta r3;
          written = length-trimmed meta;
        };
        readable = c.readable;
        readable_complements = c.readable_complements;
      },
      refl,
    )
