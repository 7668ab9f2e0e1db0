-- ===== src/Encoding/Base4.antt =====
-- engine/src/encoding.rs: the codons that the encoder makes.
use dna_db.Prelude.{
  ℕ, ◌≡◌, refl, sym, subst, ap, ◌∙◌, Option, none, some, List, [], ◌∷◌, length, All, arith,
}
use dna_db.Model.{Codon, codon_new, IsBase4}
use dna_db.Encoding.{
  Cpu, EncodedPayload, payload_of, push_codon, symbols_to_codons, expand_bytes_to_symbols_scalar,
  encode_bytes_to_codons, encode_bytes_to_codons_scalar,
}
use dna_db.Encoding.Avx2.{encode_bytes_to_codons-eq-scalar}

codon_new-IsBase4 : (a b c : ℕ) (codon : Codon) → codon_new a b c ≡ some codon → IsBase4 codon
unfolding codon_new
codon_new-IsBase4 a b c codon e = ground arith

pushed :
    (o : Option Codon) (rest : Option (List Codon)) (codons : List Codon)
    → push_codon o rest ≡ some codons
    → (c : Codon) × (front : List Codon) × (o ≡ some c) × (rest ≡ some front) × (c ∷ front ≡ codons)
pushed none rest codons e = cc
pushed (some c) none codons e = cc
pushed (some c) (some front) codons e = (c, front, refl, refl, cc)

push_codon-IsBase4 :
    (a b c : ℕ) (rest : Option (List Codon)) (codons : List Codon)
    → push_codon (codon_new a b c) rest ≡ some codons
    → ((front : List Codon) → rest ≡ some front → All IsBase4 front)
    → All IsBase4 codons
push_codon-IsBase4 a b c rest codons e h =
    let (codon, front, made, q, whole) = pushed (codon_new a b c) rest codons e in
    subst (All IsBase4) whole (codon_new-IsBase4 a b c codon made, h front q)

no_codons : (codons : List Codon) → some [] ≡ some codons → All IsBase4 codons
no_codons codons e = let empty : [] ≡ codons = cc in subst (All IsBase4) empty tt

symbols_to_codons-IsBase4 :
    (symbols : List ℕ) (codons : List Codon)
    → symbols_to_codons symbols ≡ some codons
    → All IsBase4 codons
unfolding symbols_to_codons
symbols_to_codons-IsBase4 [] codons e = no_codons codons e
symbols_to_codons-IsBase4 (a ∷ []) codons e = push_codon-IsBase4 a 0 0 (some []) codons e no_codons
symbols_to_codons-IsBase4 (a ∷ b ∷ []) codons e =
    push_codon-IsBase4 a b 0 (some []) codons e no_codons
symbols_to_codons-IsBase4 (a ∷ b ∷ c ∷ rest) codons e =
    push_codon-IsBase4 a b c (symbols_to_codons rest) codons e
      (λ front q. symbols_to_codons-IsBase4 rest front q)

payload_parts :
    (n : ℕ) (o : Option (List Codon)) (payload : EncodedPayload)
    → payload_of n o ≡ some payload
    → (o ≡ some payload.codons) × (payload.original_len ≡ n)
payload_parts n none payload e = cc
payload_parts n (some codons) payload e =
    let same : record { codons = codons; original_len = n } ≡ payload = cc in
    (
      ap (λ (p : EncodedPayload). some p.codons) same,
      sym (ap (λ (p : EncodedPayload). p.original_len) same),
    )

-- Every codon of a payload is in base 4, and the payload has the length of the bytes.
pub encode_bytes-IsBase4 :
    (cpu : Cpu) (bytes : List ℕ) (payload : EncodedPayload)
    → encode_bytes_to_codons cpu bytes ≡ some payload
    → All IsBase4 payload.codons × (payload.original_len ≡ length bytes)
unfolding encode_bytes_to_codons_scalar
encode_bytes-IsBase4 cpu bytes payload e =
    let scalar : encode_bytes_to_codons_scalar bytes ≡ some payload =
      sym (encode_bytes_to_codons-eq-scalar cpu bytes) ∙ e in
    let (codons, original) = payload_parts (length bytes) _ payload scalar in
    (
      symbols_to_codons-IsBase4 (expand_bytes_to_symbols_scalar bytes) payload.codons codons,
      original,
    )
