-- ===== src/Integrity/Scrub.antt =====
-- engine/src/integrity.rs: what the loop of the scrubber reports of strands and their entries.
use dna_db.Prelude.{
  ℕ, zero, suc, ◌<◌, ◌≡◌, ◌≢◌, refl, sym, ap, ◌∙◌, some, List, [], ◌∷◌, ◌++◌, map, length, All,
  arith, length-append, take-append, drop-append, nat_eq, eq_iff_at, to_le_bytes,
}
use mathlib.Core.List.{append_assoc}
use dna_db.Prelude.Map.{Map, get, insert, get-insert}
use dna_db.Prelude.Results.{ok}
use dna_db.Codec.{Bincode}
use dna_db.Codec.RoundTrip.{frame_of, encode-Reads, decode-Reads}
use dna_db.Storage.Maps.{zeros}
use dna_db.Storage.Frames.{Stored, frames, IsReadable}
use dna_db.Integrity.{ScrubReport, compared, scrub_from}
use dna_db.Integrity.Layout.{Entry, inserted}

All_last :
    {A : Type 0} (holds : A → Type 0) (xs : List A) (x : A)
    → All holds (xs ++ (x ∷ []))
    → All holds xs × holds x
All_last holds [] x h = (tt, h.0)
All_last holds (y ∷ xs) x h = let (rest, last) = All_last holds xs x h.1 in ((h.0, rest), last)

module _ (compute_crc32 : List ℕ → ℕ) where
  abbrev pub crc_of : Stored → ℕ
  crc_of s = compute_crc32 (frame_of s.1)

  abbrev pub reported : Map ℕ ℕ → List Stored → ScrubReport → ScrubReport
  reported crc_map [] report = report
  reported crc_map (s ∷ rest) report =
      reported crc_map rest (compared compute_crc32 (get s.0.version crc_map) (crc_of s) report)

  module _ (bincode : Bincode) where
    scrub-zeros :
        (fuel n : ℕ) (crc_map : Map ℕ ℕ) (report : ScrubReport)
        → scrub_from compute_crc32 bincode (suc fuel) (zeros n) crc_map report ≡ ok report
    unfolding scrub_from zeros
    scrub-zeros fuel zero crc_map report = refl
    scrub-zeros fuel (suc zero) crc_map report = refl
    scrub-zeros fuel (suc (suc zero)) crc_map report = refl
    scrub-zeros fuel (suc (suc (suc zero))) crc_map report = refl
    scrub-zeros fuel (suc (suc (suc (suc n)))) crc_map report = ground arith

    scrub-frame :
        (fuel : ℕ) (s : Stored) (rest : List ℕ) (crc_map : Map ℕ ℕ) (report : ScrubReport)
        → IsReadable bincode s
        → scrub_from compute_crc32 bincode (suc fuel) (frame_of s.1 ++ rest) crc_map report
          ≡ scrub_from compute_crc32 bincode fuel rest crc_map
              (compared compute_crc32 (get s.0.version crc_map) (crc_of s) report)
    unfolding scrub_from to_le_bytes
    scrub-frame fuel s rest crc_map report r = ground (
      arith,
      encode-Reads bincode s.0 s.1 r,
      decode-Reads bincode s.0 s.1 rest r,
      length-append (frame_of s.1) rest,
      drop-append (frame_of s.1) rest,
      take-append (frame_of s.1) rest,
    )

    -- Each frame is compared with the entry of its version, and the zeros end the scrub.
    pub scrub-frames :
        (fuel n : ℕ) (stored : List Stored) (crc_map : Map ℕ ℕ) (report : ScrubReport)
        → All (IsReadable bincode) stored
        → length stored < fuel
        → scrub_from compute_crc32 bincode fuel (frames stored ++ zeros n) crc_map report
          ≡ ok (reported crc_map stored report)
    scrub-frames zero n stored crc_map report r f = absurd (omega arith)
    scrub-frames (suc fuel) n [] crc_map report r f = scrub-zeros fuel n crc_map report
    scrub-frames (suc fuel) n (s ∷ rest) crc_map report r f =
        rw
          (
            append_assoc (frame_of s.1) (frames rest) (zeros n),
            scrub-frame fuel s (frames rest ++ zeros n) crc_map report r.0,
          )
          (scrub-frames fuel n rest crc_map
            (compared compute_crc32 (get s.0.version crc_map) (crc_of s) report) r.1 (omega arith))

-- No two strands have one version.
abbrev pub Differs : Stored → Stored → Type 0
Differs s t = t.0.version ≢ s.0.version

abbrev pub AllDiffer : List Stored → Type 0
AllDiffer [] = Unit
AllDiffer (s ∷ rest) = All (Differs s) rest × AllDiffer rest

pub AllDiffer-last :
    (stored : List Stored) (s : Stored)
    → AllDiffer (stored ++ (s ∷ []))
    → AllDiffer stored × All (Differs s) stored
AllDiffer-last [] s d = (tt, tt)
AllDiffer-last (t ∷ stored) s d =
    let (differ, from_last) = AllDiffer-last stored s d.1 in
    let (kept, last_differs) = All_last (Differs t) stored s d.0 in
    ((kept, differ), (λ e. last_differs (sym e), from_last))

-- `entered` is the checksum that the meta file has for a strand.
module _ (entered : Stored → ℕ) where
  abbrev pub entry_of : Stored → Entry
  entry_of s = (s.0.version, entered s)

  -- The entry of a strand is in the map.
  abbrev pub IsEntered : Map ℕ ℕ → Stored → Type 0
  IsEntered crc_map s = get s.0.version crc_map ≡ some (entered s)

  pub get-inserted :
      (s : Stored) (stored : List Stored) (out : Map ℕ ℕ)
      → All (Differs s) stored
      → get s.0.version (inserted (map entry_of stored) out) ≡ get s.0.version out
  get-inserted s [] out d = refl
  get-inserted s (t ∷ rest) out d =
      get-inserted s rest (insert t.0.version (entered t) out) d.1
      ∙ ground (
        arith,
        get-insert t.0.version s.0.version (entered t) out,
        eq_iff_at t.0.version s.0.version,
        d.0,
      )

  pub all-IsEntered :
      (stored : List Stored) (out : Map ℕ ℕ)
      → AllDiffer stored
      → All (IsEntered (inserted (map entry_of stored) out)) stored
  all-IsEntered [] out d = tt
  all-IsEntered (s ∷ rest) out d = (
    get-inserted s rest (insert s.0.version (entered s) out) d.0
        ∙ ground (
          arith,
          get-insert s.0.version s.0.version (entered s) out,
          eq_iff_at s.0.version s.0.version,
        ),
    all-IsEntered rest (insert s.0.version (entered s) out) d.1,
  )

  pub map-entry_of :
      (stored : List Stored) (s : Stored)
      → map entry_of (stored ++ (s ∷ [])) ≡ map entry_of stored ++ (entry_of s ∷ [])
  map-entry_of [] s = refl
  map-entry_of (t ∷ stored) s = ap (λ (es : List Entry). entry_of t ∷ es) (map-entry_of stored s)

abbrev pub empty_report : ScrubReport
empty_report = record { checked = 0; missing_crc = 0; mismatched_crc = 0 }
