-- ===== src/Codec/RoundTrip.antt =====
-- engine/src/codec.rs: a frame is read back from the bytes that it starts.
use dna_db.Prelude.{ℕ, ◌≡◌, refl, some, List, ◌∷◌, ◌++◌, length, arith, to_le_bytes, from_le_bytes}
use dna_db.Prelude.Results.{ok}
use dna_db.Model.{Strand}
use dna_db.Codec.{Bincode, frame_header, encode_strand, decode_strand, decode_strand_with_len}

-- bincode writes the strand as `payload`, reads it back from bytes that start with those, as its
-- `deserialize` passes over what follows, and gives their length as the strand's size.
pub record Reads (bincode : Bincode) (strand : Strand) (payload : List ℕ) : Type 0 where
  pub writes : bincode.serialize strand ≡ some payload
  pub reads : (rest : List ℕ) → bincode.deserialize (payload ++ rest) ≡ some strand
  pub sizes : bincode.serialized_size strand ≡ some (length payload)

abbrev pub frame_of : List ℕ → List ℕ
frame_of payload = frame_header ++ payload

pub encode-Reads :
    (bincode : Bincode) (strand : Strand) (payload : List ℕ)
    → Reads bincode strand payload
    → encode_strand bincode strand ≡ ok (frame_of payload)
unfolding encode_strand
encode-Reads bincode strand payload r = ground (arith, r.writes)

header_shape : (bytes : List ℕ) → frame_header ++ bytes ≡ 68 ∷ 78 ∷ 65 ∷ 83 ∷ 1 ∷ 0 ∷ bytes
unfolding to_le_bytes
header_shape bytes = refl

decode_shape :
    (bincode : Bincode) (bytes : List ℕ) (strand : Strand)
    → bincode.deserialize bytes ≡ some strand
    → decode_strand bincode (68 ∷ 78 ∷ 65 ∷ 83 ∷ 1 ∷ 0 ∷ bytes) ≡ ok strand
unfolding decode_strand from_le_bytes
decode_shape bincode bytes strand h = ground (arith, h)

pub decode-Reads :
    (bincode : Bincode) (strand : Strand) (payload rest : List ℕ)
    → Reads bincode strand payload
    → decode_strand bincode (frame_of payload ++ rest) ≡ ok strand
unfolding to_le_bytes
decode-Reads bincode strand payload rest r =
    decode_shape bincode (payload ++ rest) strand (r.reads rest)

-- Whatever bytes follow it, the frame that a strand is encoded to is decoded to that strand, and to
-- the length of the frame. bincode reads back what it writes of the strand.
pub decode_with_len-encode :
    (bincode : Bincode) (strand : Strand) (payload rest : List ℕ)
    → Reads bincode strand payload
    → (encode_strand bincode strand ≡ ok (frame_of payload))
      × (decode_strand_with_len bincode (frame_of payload ++ rest)
          ≡ ok (strand, length (frame_of payload)))
unfolding decode_strand_with_len to_le_bytes
decode_with_len-encode bincode strand payload rest r = (
  encode-Reads bincode strand payload r,
  ground (arith, decode-Reads bincode strand payload rest r, r.sizes),
)
