-- ===== src/Encoding/RoundTrip.antt =====
-- engine/src/encoding.rs: decoding gives back the bytes that were encoded.
use dna_db.Prelude.{
  Bool-cases, inl, inr, if◌then◌else◌, ℕ, zero, suc, ◌*◌, ◌/◌, ◌%◌, ◌^◌, ◌<◌, ◌≡◌, refl, some, List,
  [], ◌∷◌, ◌++◌, All, length, arith, ◌==◌, nat_eq, length-append, take-append,
}
use dna_db.Model.{Codon}
use dna_db.Encoding.Avx2.{encode_bytes_to_codons-eq-scalar}
use dna_db.Encoding.{
  Cpu, encode_bytes_to_codons, EncodedPayload, ok, expand_bytes_to_symbols_scalar,
  symbols_to_codons, encode_bytes_to_codons_scalar, codon_symbols, byte_of, symbols_to_bytes,
  decode_codons_to_bytes, finish,
}

abbrev pub IsByte : ℕ → Type 0
IsByte b = b < 256

abbrev IsSymbol : ℕ → Type 0
IsSymbol s = s < 4

-- The numbers below a bound that the function moves.
moved : (ℕ → ℕ) → ℕ → List ℕ
moved f zero = []
moved f (suc bound) = let rest = moved f bound in if f bound == bound then rest else bound ∷ rest

not_moved : (f : ℕ → ℕ) (bound x : ℕ) → x < bound → moved f bound ≡ [] → f x ≡ x
unfolding moved
not_moved f zero x h none_is = absurd (omega arith)
not_moved f (suc bound) x h none_is = elim (Bool-cases (f bound == bound)) [
  | inr other ↦ ground (arith, other, none_is)
  | inl same ↦ elim (Bool-cases (x == bound)) [
    | inl last ↦ ground (arith, same, last)
    | inr before ↦ not_moved f bound x (ground (arith, before)) (ground (arith, same, none_is))
  ]
]

abbrev rebuilt : ℕ → ℕ
rebuilt x = byte_of (x / 64 % 4) (x / 16 % 4) (x / 4 % 4) (x % 4)

nothing_moved : moved rebuilt 256 ≡ []
unfolding moved
nothing_moved = refl

-- The four symbols of a byte make up the byte.
byte_of_symbols : (x : ℕ) → x < 256 → rebuilt x ≡ x
byte_of_symbols x h = not_moved rebuilt 256 x h nothing_moved

symbols_to_bytes-expand :
    (bytes : List ℕ)
    → All IsByte bytes
    → symbols_to_bytes (expand_bytes_to_symbols_scalar bytes) ≡ bytes
unfolding symbols_to_bytes expand_bytes_to_symbols_scalar
symbols_to_bytes-expand [] h = refl
symbols_to_bytes-expand (b ∷ bs) h = cc (byte_of_symbols b h.0, symbols_to_bytes-expand bs h.1)

length-expand : (bytes : List ℕ) → length (expand_bytes_to_symbols_scalar bytes) ≡ length bytes * 4
unfolding expand_bytes_to_symbols_scalar
length-expand [] = refl
length-expand (b ∷ bs) = omega (arith, length-expand bs)

expand-IsSymbol : (bytes : List ℕ) → All IsSymbol (expand_bytes_to_symbols_scalar bytes)
unfolding expand_bytes_to_symbols_scalar
expand-IsSymbol [] = tt
expand-IsSymbol (b ∷ bs) =
    (omega arith, (omega arith, (omega arith, (omega arith, expand-IsSymbol bs))))

-- Codons made of symbols hold the symbols in order, and then zeros.
record Packs (symbols : List ℕ) : Type 0 where
  codons : List Codon
  padding : List ℕ
  packed : symbols_to_codons symbols ≡ some codons
  unpacked : codon_symbols codons ≡ ok (symbols ++ padding)

symbols_to_codons-Packs : (symbols : List ℕ) → All IsSymbol symbols → Packs symbols
unfolding symbols_to_codons codon_symbols
symbols_to_codons-Packs [] h = record { codons = []; padding = []; packed = refl; unpacked = refl }
symbols_to_codons-Packs (a ∷ []) h = record {
  codons = (record { first = a; second = 0; third = 0 }) ∷ [];
  padding = 0 ∷ 0 ∷ [];
  packed = ground arith;
  unpacked = ground arith;
}
symbols_to_codons-Packs (a ∷ b ∷ []) h = record {
  codons = (record { first = a; second = b; third = 0 }) ∷ [];
  padding = 0 ∷ [];
  packed = ground arith;
  unpacked = ground arith;
}
symbols_to_codons-Packs (a ∷ b ∷ c ∷ rest) (ha, (hb, (hc, h))) =
    let r = symbols_to_codons-Packs rest h in
    record {
      codons = (record { first = a; second = b; third = c }) ∷ r.codons;
      padding = r.padding;
      packed = ground (arith, r.packed);
      unpacked = ground (arith, r.unpacked);
    }

finish_exact :
    (bytes padding : List ℕ)
    → All IsByte bytes
    → finish (length bytes * 4) (ok (expand_bytes_to_symbols_scalar bytes ++ padding)) ≡ ok bytes
finish_exact bytes padding h = ground (
  arith,
  length-append (expand_bytes_to_symbols_scalar bytes) padding,
  length-expand bytes,
  take-append (expand_bytes_to_symbols_scalar bytes) padding,
  symbols_to_bytes-expand bytes h,
)

-- For bytes whose symbol count fits a `usize`, the scalar encoder does not panic, and decoding its
-- payload gives the bytes.
pub decode-encode_scalar :
    (bytes : List ℕ)
    → All IsByte bytes
    → length bytes * 4 < 2 ^ 64
    → (payload : EncodedPayload) × (encode_bytes_to_codons_scalar bytes ≡ some payload)
      × (decode_codons_to_bytes payload ≡ ok bytes)
unfolding encode_bytes_to_codons_scalar decode_codons_to_bytes
decode-encode_scalar bytes h small = (
  record { codons = p.codons; original_len = length bytes },
  rw p.packed refl,
  rw (fits, p.unpacked) (finish_exact bytes p.padding h),
)
  where
    p : Packs (expand_bytes_to_symbols_scalar bytes)
    p = symbols_to_codons-Packs _ (expand-IsSymbol bytes)

    fits : length bytes * 4 % 2 ^ 64 ≡ length bytes * 4
    fits = omega arith

-- For bytes whose symbol count fits a `usize`, on every machine the encoder does not panic, and
-- decoding its payload gives the bytes.
pub decode-encode :
    (cpu : Cpu) (bytes : List ℕ)
    → All IsByte bytes
    → length bytes * 4 < 2 ^ 64
    → (payload : EncodedPayload) × (encode_bytes_to_codons cpu bytes ≡ some payload)
      × (decode_codons_to_bytes payload ≡ ok bytes)
decode-encode cpu bytes h small =
    rw (encode_bytes_to_codons-eq-scalar cpu bytes) (decode-encode_scalar bytes h small)
