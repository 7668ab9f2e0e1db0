-- ===== src/Integrity/Entries.antt =====
-- engine/src/integrity.rs: reading the checksum entries of the meta file back.
use dna_db.Prelude.{
  ℕ, suc, ◌+◌, ◌-◌, ◌^◌, ◌<◌, ◌≡◌, ◌≢◌, refl, sym, ap, ◌∙◌, List, [], ◌∷◌, ◌++◌, length, take, All,
  arith, ltb, if◌then◌else◌, length-append, take-append, nat_eq, All-append, length-take, inl, inr,
}
use mathlib.Core.List.{append_assoc, append-nil}
use dna_db.Prelude.Map.{insert}
use dna_db.Storage.{scan_meta_tail}
use dna_db.Storage.Maps.{zeros}
use dna_db.Storage.Meta.{scan_meta-append-zeros, scan_meta_bounded, scan_meta_trims}
use dna_db.Integrity.{encode_crc_entry, decode_entries_from, decode_crc_entries}
use dna_db.Integrity.Layout.{
  Entry, Fits, entries, inserted, length-entry, decode_entries-entries, length-entries,
  entries-append, inserted-append,
}
use dna_db.Integrity.Tail.{entry_tail, take-append_short, cut_file}

decode_all :
    (fuel : ℕ) (es : List Entry) (e : Entry)
    → All Fits es
    → Fits e
    → length es < fuel
    → decode_entries_from fuel (entries es ++ encode_crc_entry e.0 e.1) []
      ≡ insert e.0 e.1 (inserted es [])
decode_all fuel es e all fits f =
    ap (λ bytes. decode_entries_from fuel bytes [])
      (sym (entries-append es e) ∙ sym (append-nil (entries (es ++ (e ∷ [])))))
    ∙ decode_entries-entries fuel (es ++ (e ∷ [])) [] []
        (All-append Fits es (e ∷ []) all (fits, tt)) (omega arith)
        (omega (arith, length-append es (e ∷ [])))
    ∙ inserted-append es e []

-- Of the entries of a meta file all are read back, but for the last one where its checksum is below
-- 2^24. The last sequence is not zero.
pub decode_crc_entries-entries :
    (es : List Entry) (e : Entry) (n : ℕ)
    → All Fits es
    → Fits e
    → e.0 ≢ 0
    → decode_crc_entries (entries es ++ (encode_crc_entry e.0 e.1 ++ zeros n))
      ≡ (if ltb e.1 (2 ^ 24) then inserted es [] else insert e.0 e.1 (inserted es []))
decode_crc_entries-entries es e n all fits h =
    let last = encode_crc_entry e.0 e.1 in
    let fuel = suc (length (entries es) + scan_meta_tail last) in
    elim (entry_tail e fits h) [
      | inl (small, found, positive) ↦
          let missed =
            decode_entries-entries fuel es (take (scan_meta_tail last) (last ++ zeros n)) [] all
              (omega (arith, length-take (scan_meta_tail last) (last ++ zeros n), found))
              (omega (arith, length-entries es)) in
          cut_file es e n fits h ∙ ground (arith, missed, small)
      | inr (large, found) ↦
          let whole : take (scan_meta_tail last) (last ++ zeros n) ≡ last =
            ap (λ k. take k (last ++ zeros n)) (found ∙ sym (length-entry e))
            ∙ take-append last (zeros n) in
          cut_file es e n fits h
          ∙ ap (λ bytes. decode_entries_from fuel (entries es ++ bytes) []) whole
          ∙ ground (arith, large, decode_all fuel es e all fits (omega (arith, length-entries es)))
    ]

-- Zeros behind the entries change nothing.
pub decode_crc_entries-zeros :
    (bytes : List ℕ) (n : ℕ) → decode_crc_entries (bytes ++ zeros n) ≡ decode_crc_entries bytes
unfolding decode_crc_entries
decode_crc_entries-zeros bytes n =
    rw
      (
        scan_meta-append-zeros bytes n,
        take-append_short bytes (zeros n) (scan_meta_tail bytes) (scan_meta_bounded bytes),
      )
      refl

-- Nor does what a start of the storage cuts off.
pub decode_crc_entries-trimmed :
    (bytes : List ℕ) (n : ℕ)
    → decode_crc_entries (take (scan_meta_tail bytes) bytes ++ zeros n) ≡ decode_crc_entries bytes
decode_crc_entries-trimmed bytes n =
    decode_crc_entries-zeros (take (scan_meta_tail bytes) bytes) n
    ∙ sym (
        decode_crc_entries-zeros (take (scan_meta_tail bytes) bytes)
          (length bytes - scan_meta_tail bytes))
    ∙ ap decode_crc_entries (sym (scan_meta_trims bytes))

pub decode_crc_entries_exact :
    (es : List Entry) (e : Entry)
    → All Fits es
    → Fits e
    → e.0 ≢ 0
    → decode_crc_entries (entries es ++ encode_crc_entry e.0 e.1)
      ≡ (if ltb e.1 (2 ^ 24) then inserted es [] else insert e.0 e.1 (inserted es []))
decode_crc_entries_exact es e all fits h =
    sym (decode_crc_entries-zeros (entries es ++ encode_crc_entry e.0 e.1) 0)
    ∙ ap decode_crc_entries (append_assoc (entries es) (encode_crc_entry e.0 e.1) (zeros 0))
    ∙ decode_crc_entries-entries es e 0 all fits h
