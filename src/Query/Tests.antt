-- ===== src/Query/Tests.antt =====
-- The theorems on engine/src/query at concrete strands.
use dna_db.Prelude.{ℕ, ◌≡◌, true, Bool, Option, none, List, [], ◌∷◌, retain, all, ◌==◌, nat_eq}
use dna_db.Model.{Strand, manual}
use dna_db.Query.{QueryLiteral, Clause, like_pattern, GuidePattern, greater_than}
use dna_db.Query.Vector.{filter_rows_vectorized, filter_rows_vectorized-eq-retain}
use dna_db.Query.Index.{
  lookup, lookup_between_inclusive, build_range_index, signatures, build_exact_hash_index,
  exact_lookup_signatures,
}
use dna_db.Query.Index.Ranges.{passes, between, lookup-build_range_index, between-build_range_index}
use dna_db.Query.Index.Hashes.{hits, exact_lookup-build}

-- A strand with the text "7" in the field "n".
abbrev seven : ℕ → Strand
seven version = record {
  signature = version ∷ [];
  collection_id = 1;
  codons =
      record { first = 0; second = 3; third = 1 }
      ∷ record { first = 3; second = 0; third = 0 }
      ∷ [];
  complement = [];
  introns =
      record {
        field_name = "n";
        codon_offset = 0;
        codon_length = 2;
        value_hash = 0;
        references_strand = none;
      }
      ∷ [];
  telomere = record { count = 0; immortal = true; last_refresh = 0; refresh_policy = manual };
  epigenetic_tags = [];
  version = version;
  created_at = 0;
  updated_at = 0;
}

abbrev strands : List Strand
strands = seven 3 ∷ seven 4 ∷ []

abbrev no_literal : List ℕ → Option QueryLiteral
no_literal bytes = none

abbrev pattern' : GuidePattern
pattern' = record {
  collection = "c";
  clauses = like_pattern "n" "7%" ∷ [];
  includes = [];
  overlay = none;
  order_by = none;
  limit = none;
}

abbrev is_third : Strand → Clause → Bool
is_third strand clause = strand.version == 3

filter_rows_vectorized-eq-retain_example :
    filter_rows_vectorized strands pattern' 1 is_third
    ≡ retain (λ row. all (λ c. is_third row c) pattern'.clauses) strands
filter_rows_vectorized-eq-retain_example =
    filter_rows_vectorized-eq-retain is_third strands pattern' 1

lookup-build_range_index_example :
    lookup (build_range_index no_literal "n" strands) greater_than 6
    ≡ signatures (retain (passes greater_than 6) (build_range_index no_literal "n" strands))
lookup-build_range_index_example = lookup-build_range_index no_literal "n" strands greater_than 6

between-build_range_index_example :
    lookup_between_inclusive (build_range_index no_literal "n" strands) 5 7
    ≡ signatures (retain (between 5 7) (build_range_index no_literal "n" strands))
between-build_range_index_example = between-build_range_index no_literal "n" strands 5 7

exact_lookup-build_example :
    exact_lookup_signatures (build_exact_hash_index strands "n") (55 ∷ [])
    ≡ hits "n" (55 ∷ []) strands
exact_lookup-build_example = exact_lookup-build strands "n" (55 ∷ [])
