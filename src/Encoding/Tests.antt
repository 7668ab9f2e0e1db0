-- ===== src/Encoding/Tests.antt =====
-- Runs of engine/src/encoding.rs, and its theorems at concrete bytes.
use dna_db.Prelude.{ℕ, ◌≡◌, refl, true, some, List, [], ◌∷◌, arith}
use dna_db.Encoding.{
  Cpu, EncodedPayload, ok, err, insufficient_symbols, encode_bytes_to_codons,
  encode_bytes_to_codons_scalar, decode_codons_to_bytes,
}
use dna_db.Encoding.Avx2.{encode_bytes_to_codons-eq-scalar}
use dna_db.Encoding.RoundTrip.{decode-encode}

abbrev modern : Cpu
modern = record { x86_64 = true; avx2 = true }

abbrev text : List ℕ
text = 100 ∷ 110 ∷ 97 ∷ 255 ∷ 0 ∷ []

abbrev empty_of_three : EncodedPayload
empty_of_three = record { codons = []; original_len = 3 }

missing_symbols : decode_codons_to_bytes empty_of_three ≡ err insufficient_symbols
unfolding decode_codons_to_bytes
missing_symbols = refl

decode-encode_example :
    (payload : EncodedPayload) × (encode_bytes_to_codons modern text ≡ some payload)
    × (decode_codons_to_bytes payload ≡ ok text)
decode-encode_example = decode-encode modern text (omega arith) (omega arith)

encode_bytes_to_codons-eq-scalar_example :
    encode_bytes_to_codons modern text ≡ encode_bytes_to_codons_scalar text
encode_bytes_to_codons-eq-scalar_example = encode_bytes_to_codons-eq-scalar modern text
