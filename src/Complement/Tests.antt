-- ===== src/Complement/Tests.antt =====
-- Runs of engine/src/complement.rs, and its theorems at concrete strands.
use dna_db.Prelude.{ℕ, ◌≡◌, refl, arith, none, some, List, [], ◌∷◌, All, length}
use dna_db.Model.{Codon, IsBase4}
use dna_db.Complement.{
  scan_pairs, check_codon, complement_codon, Corruption, generate_complement, find_corruption,
}
use dna_db.Complement.Pairing.{generate_complement_involutive}

abbrev codon : ℕ → ℕ → ℕ → Codon
codon a b c = record { first = a; second = b; third = c }

abbrev strand : List Codon
strand = codon 0 1 2 ∷ codon 3 0 1 ∷ []

abbrev mirrored : List Codon
mirrored = codon 3 2 1 ∷ codon 0 3 2 ∷ []

-- The second codon of the complement has a corrupt first symbol.
abbrev corrupt : List Codon
corrupt = codon 3 2 1 ∷ codon 1 3 2 ∷ []

abbrev first_symbol : Corruption
first_symbol = record { codon_index = 1; symbol_index = 0; strand_value = 3; complement_value = 1 }

corruption_is_detected : find_corruption strand corrupt ≡ first_symbol ∷ []
unfolding find_corruption scan_pairs check_codon
corruption_is_detected = refl

out_of_range_panics : generate_complement (codon 4 0 0 ∷ []) ≡ none
unfolding generate_complement complement_codon
out_of_range_panics = refl

generate_complement_involutive_example :
    (complement : List Codon) × (generate_complement strand ≡ some complement)
    × All IsBase4 complement
    × (length complement ≡ 2)
    × (generate_complement complement ≡ some strand)
generate_complement_involutive_example = generate_complement_involutive strand (omega arith)
