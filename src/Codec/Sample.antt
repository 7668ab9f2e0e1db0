-- ===== src/Codec/Sample.antt =====
-- A small stand-in for bincode, for the tests: it writes of a strand its version in one number, and of
-- codons how many there are.
use dna_db.Prelude.{ℕ, ◌≡◌, refl, Option, none, some, List, [], ◌∷◌, length}
use dna_db.Model.{Strand, Codon}
use dna_db.Codec.{Bincode}
use dna_db.Codec.RoundTrip.{Reads}

abbrev read_version : (ℕ → Option Strand) → List ℕ → Option Strand
read_version of_version [] = none
read_version of_version (v ∷ rest) = of_version v

abbrev read_codons : List ℕ → Option (List Codon)
read_codons [] = none
read_codons (n ∷ rest) = some []

abbrev pub sample : (ℕ → Option Strand) → Bincode
sample of_version = record {
  serialize = λ strand. some (strand.version ∷ []);
  deserialize = read_version of_version;
  serialized_size = λ strand. some 1;
  serialize_codons = λ codons. some (length codons ∷ []);
  deserialize_codons = read_codons;
}

pub sample-Reads :
    (of_version : ℕ → Option Strand) (strand : Strand)
    → of_version strand.version ≡ some strand
    → Reads (sample of_version) strand (strand.version ∷ [])
sample-Reads of_version strand h = record { writes = refl; reads = λ rest. h; sizes = refl }
