-- ===== src/Integrity/Counts.antt =====
-- engine/src/integrity.rs: the numbers of a report.
use dna_db.Prelude.{
  ℕ, suc, ◌+◌, ◌^◌, ◌≡◌, refl, sym, ap, ◌∙◌, none, List, [], ◌∷◌, ◌++◌, map, length, All, arith,
  ltb, if◌then◌else◌, length-append, nat_eq, not, retain, Bool, ◌==◌, Bool-cases, inl, inr,
}
use native.Mathlib.Nat.{add_assoc}
use dna_db.Prelude.Map.{Map, get, insert}
use dna_db.Storage.Frames.{Stored}
use dna_db.Integrity.{ScrubReport, compared}
use dna_db.Integrity.Layout.{inserted, inserted-append}
use dna_db.Integrity.Scrub.{
  crc_of, reported, AllDiffer, AllDiffer-last, entry_of, IsEntered, get-inserted, all-IsEntered,
  map-entry_of, empty_report,
}

-- The report with further strands checked, and some of them found not to match.
abbrev more : ℕ → ℕ → ScrubReport → ScrubReport
more n k report = record report {
  checked = report.checked + n;
  mismatched_crc = report.mismatched_crc + k;
}

module _ (compute_crc32 : List ℕ → ℕ) (entered : Stored → ℕ) where
  -- The frame has another checksum than the one that was entered for it.
  abbrev pub is_damaged : Stored → Bool
  is_damaged s = not (entered s == crc_of compute_crc32 s)

  compared-entered :
      (crc_map : Map ℕ ℕ) (s : Stored) (report : ScrubReport)
      → IsEntered entered crc_map s
      → compared compute_crc32 (get s.0.version crc_map) (crc_of compute_crc32 s) report
        ≡ more 1 (if is_damaged s then 1 else 0) report
  compared-entered crc_map s report h =
      ground (arith, h, plus_one report.checked, plus_one report.mismatched_crc)
    where
      plus_one : (n : ℕ) → suc n ≡ n + 1
      plus_one n = omega arith

  more-more :
      (n k m l : ℕ) (report : ScrubReport)
      → more n k (more m l report) ≡ more (m + n) (l + k) report
  more-more n k m l report =
      ground (arith, add_assoc report.checked m n, add_assoc report.mismatched_crc l k)

  length-retain-damaged :
      (s : Stored) (stored : List Stored)
      → length (retain is_damaged (s ∷ stored))
        ≡ (if is_damaged s then 1 else 0) + length (retain is_damaged stored)
  length-retain-damaged s stored = ground arith

  counts :
      {n m k l missing : ℕ}
      → n ≡ m
      → k ≡ l
      → ◌≡◌ {A = ScrubReport}
          (record { checked = n; missing_crc = missing; mismatched_crc = k })
          (record { checked = m; missing_crc = missing; mismatched_crc = l })
  counts p q = cc (p, q)

  -- Strands with their entries in the map are counted as checked, and the damaged ones as such.
  reported-entered :
      (crc_map : Map ℕ ℕ) (stored : List Stored) (report : ScrubReport)
      → All (IsEntered entered crc_map) stored
      → reported compute_crc32 crc_map stored report
        ≡ more (length stored) (length (retain is_damaged stored)) report
  reported-entered crc_map [] report h = counts (omega arith) (omega arith)
  reported-entered crc_map (s ∷ rest) report h =
      let hit : ℕ = if is_damaged s then 1 else 0 in
      ap (reported compute_crc32 crc_map rest) (compared-entered crc_map s report h.0)
      ∙ reported-entered crc_map rest (more 1 hit report) h.1
      ∙ more-more (length rest) (length (retain is_damaged rest)) 1 hit report
      ∙ counts (omega arith) (omega (arith, length-retain-damaged s rest))

  reported-append :
      (crc_map : Map ℕ ℕ) (stored : List Stored) (s : Stored) (report : ScrubReport)
      → reported compute_crc32 crc_map (stored ++ (s ∷ [])) report
        ≡ compared compute_crc32
            (get s.0.version crc_map)
            (crc_of compute_crc32 s)
            (reported compute_crc32 crc_map stored report)
  reported-append crc_map [] s report = refl
  reported-append crc_map (t ∷ stored) s report = reported-append crc_map stored s _

  reported_missed :
      (stored : List Stored) (s : Stored)
      → AllDiffer (stored ++ (s ∷ []))
      → reported compute_crc32
          (inserted (map (entry_of entered) stored) [])
          (stored ++ (s ∷ []))
          empty_report
        ≡ record {
          checked = length stored + 1;
          missing_crc = 1;
          mismatched_crc = length (retain is_damaged stored);
        }
  reported_missed stored s d =
      let crc_map = inserted (map (entry_of entered) stored) [] in
      let (differ, from_last) = AllDiffer-last stored s d in
      let missing : get s.0.version crc_map ≡ none =
        get-inserted entered s stored [] from_last ∙ (unfold get in refl) in
      reported-append crc_map stored s empty_report
      ∙ ap
          (λ found.
            compared compute_crc32 found (crc_of compute_crc32 s)
              (reported compute_crc32 crc_map stored empty_report))
          missing
      ∙ ap
          (λ (r : ScrubReport). record r {
            checked = suc r.checked;
            missing_crc = suc r.missing_crc;
          })
          (reported-entered crc_map stored empty_report (all-IsEntered entered stored [] differ))
      ∙ counts (omega arith) (omega arith)

  reported_whole :
      (stored : List Stored) (s : Stored)
      → AllDiffer (stored ++ (s ∷ []))
      → reported compute_crc32
          (insert s.0.version (entered s) (inserted (map (entry_of entered) stored) []))
          (stored ++ (s ∷ []))
          empty_report
        ≡ record {
          checked = length stored + 1;
          missing_crc = 0;
          mismatched_crc = length (retain is_damaged (stored ++ (s ∷ [])));
        }
  reported_whole stored s d =
      let strands = stored ++ (s ∷ []) in
      let same : inserted (map (entry_of entered) strands) []
          ≡ insert s.0.version (entered s) (inserted (map (entry_of entered) stored) []) =
        ap (λ es. inserted es []) (map-entry_of entered stored s)
        ∙ inserted-append (map (entry_of entered) stored) (entry_of entered s) [] in
      ap (λ m. reported compute_crc32 m strands empty_report) (sym same)
      ∙ reported-entered (inserted (map (entry_of entered) strands) []) strands empty_report
          (all-IsEntered entered strands [] d)
      ∙ counts (omega (arith, length-append stored (s ∷ []))) (omega arith)

  -- The report on strands whose entries were all written, when those are read back that can be.
  pub reported-read_back :
      (stored : List Stored) (s : Stored)
      → AllDiffer (stored ++ (s ∷ []))
      → reported compute_crc32
          (if ltb (entered s) (2 ^ 24)
            then inserted (map (entry_of entered) stored) []
            else insert s.0.version (entered s) (inserted (map (entry_of entered) stored) []))
          (stored ++ (s ∷ []))
          empty_report
        ≡ record {
          checked = length stored + 1;
          missing_crc = if ltb (entered s) (2 ^ 24) then 1 else 0;
          mismatched_crc =
              length (
                retain is_damaged
                  (if ltb (entered s) (2 ^ 24) then stored else stored ++ (s ∷ [])));
        }
  reported-read_back stored s d = elim (Bool-cases (ltb (entered s) (2 ^ 24))) [
    | inl e ↦ rw e (reported_missed stored s d)
    | inr e ↦ rw e (reported_whole stored s d)
  ]
