-- ===== src/Codec.antt =====
-- engine/src/codec.rs: the frame of a strand. bincode is another crate, and a parameter.
pub mod RoundTrip
pub mod Sample
mod Tests
use dna_db.Prelude.{
  ℕ, ◌+◌, ◌≡◌, Option, none, some, List, [], ◌∷◌, ◌++◌, length, take, drop, ltb, ◌==◌, nat_eq,
  list_eq, not, if◌then◌else◌, to_le_bytes, from_le_bytes,
}
use dna_db.Prelude.Results.{Result, ok, err, ◌>>=◌, ok_or}
use dna_db.Model.{Strand, Codon}

-- What the engine calls of bincode, on strands and on vectors of codons. `none` is its error.
pub record Bincode : Type 0 where
  pub serialize : Strand → Option (List ℕ)
  pub deserialize : List ℕ → Option Strand
  pub serialized_size : Strand → Option ℕ
  pub serialize_codons : List Codon → Option (List ℕ)
  pub deserialize_codons : List ℕ → Option (List Codon)

-- *b"DNAS"
abbrev pub strand_format_magic : List ℕ
strand_format_magic = 68 ∷ 78 ∷ 65 ∷ 83 ∷ []

abbrev pub strand_format_version : ℕ
strand_format_version = 1

-- `out_of_fuel` is no value of the source: a loop of the model ran out of rounds.
pub data CodecError : Type 0 where
  invalid_magic payload_too_short serialization out_of_fuel : CodecError
  unsupported_version : ℕ → CodecError

abbrev pub frame_header : List ℕ
frame_header = strand_format_magic ++ to_le_bytes 2 strand_format_version

module _ (bincode : Bincode) where
  unfoldable pub encode_strand : Strand → Result CodecError (List ℕ)
  encode_strand strand = do
    payload ← ok_or (bincode.serialize strand) serialization
    ok (frame_header ++ payload)

  unfoldable pub decode_strand : List ℕ → Result CodecError Strand
  decode_strand bytes =
      if ltb (length bytes) 6
      then err payload_too_short
      else if not (take 4 bytes == strand_format_magic)
      then err invalid_magic
      else let version = from_le_bytes (take 2 (drop 4 bytes)) in
        if not (version == strand_format_version)
        then err (unsupported_version version)
        else ok_or (bincode.deserialize (drop 6 bytes)) serialization

  unfoldable pub decode_strand_with_len : List ℕ → Result CodecError (Strand × ℕ)
  unfolding decode_strand
  decode_strand_with_len bytes = do
    strand ← decode_strand bytes
    payload_len ← ok_or (bincode.serialized_size strand) serialization
    ok (strand, 6 + payload_len)
