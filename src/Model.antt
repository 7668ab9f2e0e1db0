-- ===== src/Model.antt =====
-- engine/src/model.rs: the strand and its parts. A `u8`, `u16`, `u32` or `u64` is a number below its
-- bound; `[u8; 8]` is a list of bytes.
use dna_db.Prelude.{
  ℕ, ◌<◌, String, Bool, Option, none, some, List, [], ◌∷◌, ltb, if◌then◌else◌, ◌&&◌,
}

-- One group of three base-4 symbols. The fields are public in the source, so a value that was not
-- made by `codon_new` may hold larger symbols.
pub record Codon : Type 0 where
  pub first : ℕ
  pub second : ℕ
  pub third : ℕ

-- Codon::new
unfoldable pub codon_new : ℕ → ℕ → ℕ → Option Codon
codon_new a b c =
    if ltb a 4 && ltb b 4 && ltb c 4
    then some (record { first = a; second = b; third = c })
    else none

-- Codon::values
abbrev pub values : Codon → List ℕ
values c = c.first ∷ c.second ∷ c.third ∷ []

-- What `codon_new` accepts.
abbrev pub IsBase4 : Codon → Type 0
IsBase4 c = (c.first < 4) × (c.second < 4) × (c.third < 4)

pub record Intron : Type 0 where
  pub field_name : String
  pub codon_offset : ℕ
  pub codon_length : ℕ
  pub value_hash : ℕ
  pub references_strand : Option (List ℕ)

pub data RefreshPolicy : Type 0 where
  auto_on_read manual immortal : RefreshPolicy

pub record Telomere : Type 0 where
  pub count : ℕ
  pub immortal : Bool
  pub last_refresh : ℕ
  pub refresh_policy : RefreshPolicy

pub record Tag : Type 0 where
  pub key : String
  pub value : String

pub record Strand : Type 0 where
  pub signature : List ℕ
  pub collection_id : ℕ
  pub codons : List Codon
  pub complement : List Codon
  pub introns : List Intron
  pub telomere : Telomere
  pub epigenetic_tags : List Tag
  pub version : ℕ
  pub created_at : ℕ
  pub updated_at : ℕ
