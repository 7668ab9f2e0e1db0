-- ===== src/Complement.antt =====
-- engine/src/complement.rs: the complement of a strand, and the search for corrupted symbols.
pub mod Pairing
pub mod Reports
mod Tests
use dna_db.Prelude.{
  ℕ, suc, ◌+◌, ◌-◌, ◌%◌, Bool, ◌&&◌, Option, none, some, List, [], ◌∷◌, ◌++◌, length, ◌==◌, nat_eq,
  if◌then◌else◌,
}
use dna_db.Model.{Codon, codon_new}

pub record Corruption : Type 0 where
  pub codon_index : ℕ
  pub symbol_index : ℕ
  pub strand_value : ℕ
  pub complement_value : ℕ

-- `3 - value` on a `u8`, which wraps where overflow is not checked.
complement_symbol : ℕ → ℕ
complement_symbol value = (3 + 256 - value) % 256

-- One step of the `map` in `generate_complement`.
unfoldable complement_codon : Codon → Option Codon
unfolding complement_symbol codon_new
complement_codon c =
    codon_new (complement_symbol c.first) (complement_symbol c.second) (complement_symbol c.third)

abbrev collect_cons {ℓ} : {A : Type ℓ} → Option A → Option (List A) → Option (List A)
collect_cons (some a) (some r) = some (a ∷ r)
collect_cons _ _ = none

-- `none` is the panic of `expect`.
pub generate_complement : List Codon → Option (List Codon)
generate_complement [] = some []
generate_complement (c ∷ cs) = collect_cons (complement_codon c) (generate_complement cs)

-- The body of the inner loop; the sum is a `u8`.
check_symbol : ℕ → ℕ → ℕ → ℕ → List Corruption
check_symbol idx symbol_idx s c =
    if (s + c) % 256 == 3
    then []
    else (record {
      codon_index = idx;
      symbol_index = symbol_idx;
      strand_value = s;
      complement_value = c;
    })
      ∷ []

check_codon : ℕ → Codon → Codon → List Corruption
unfolding check_symbol
check_codon idx s c =
    check_symbol idx 0 s.first c.first
    ++ (check_symbol idx 1 s.second c.second ++ check_symbol idx 2 s.third c.third)

-- The outer loop from index `idx` on; it ends with the shorter list.
scan_pairs : ℕ → List Codon → List Codon → List Corruption
scan_pairs idx (s ∷ ss) (c ∷ cs) = check_codon idx s c ++ scan_pairs (suc idx) ss cs
scan_pairs idx [] cs = []
scan_pairs idx (s ∷ ss) [] = []

pub find_corruption : List Codon → List Codon → List Corruption
find_corruption strand complement = scan_pairs 0 strand complement

abbrev is_empty {ℓ} : {A : Type ℓ} → List A → Bool
is_empty xs = length xs == 0

pub is_valid_pairing : List Codon → List Codon → Bool
unfolding find_corruption
is_valid_pairing strand complement =
    (length strand == length complement) && is_empty (find_corruption strand complement)
