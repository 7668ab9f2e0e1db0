-- ===== src/Encoding.antt =====
-- engine/src/encoding.rs: bytes as base-4 symbols, three to a codon, and back.
pub mod RoundTrip
pub mod Avx2
pub mod Base4
mod Tests
use Prim.Native.Nat.{bit_or}
use dna_db.Prelude.{
  ℕ, zero, suc, ◌+◌, ◌*◌, ◌/◌, ◌%◌, ◌^◌, Bool, ◌&&◌, Option, none, some, List, [], ◌∷◌, ◌++◌, map,
  length, take, drop, ltb, leb, if◌then◌else◌,
}
use dna_db.Model.{Codon, codon_new, values}

pub record EncodedPayload : Type 0 where
  pub codons : List Codon
  pub original_len : ℕ

pub data EncodingError : Type 0 where
  invalid_symbol : ℕ → EncodingError
  insufficient_symbols : EncodingError

pub data Result {ℓ} (A : Type ℓ) : Type ℓ where
  ok : A → Result A
  err : EncodingError → Result A

abbrev simd_encode_threshold : ℕ
simd_encode_threshold = 64

-- `(byte >> 6) & 0b11` and so on.
unfoldable pub expand_bytes_to_symbols_scalar : List ℕ → List ℕ
expand_bytes_to_symbols_scalar [] = []
expand_bytes_to_symbols_scalar (byte ∷ bytes) =
    byte / 64 % 4 ∷ byte / 16 % 4 ∷ byte / 4 % 4 ∷ byte % 4 ∷ expand_bytes_to_symbols_scalar bytes

abbrev push_codon : Option Codon → Option (List Codon) → Option (List Codon)
push_codon (some c) (some r) = some (c ∷ r)
push_codon _ _ = none

-- `symbols.chunks(3)`; a missing symbol of the last chunk is 0, and `none` is the panic of `expect`.
symbols_to_codons : List ℕ → Option (List Codon)
unfolding codon_new
symbols_to_codons [] = some []
symbols_to_codons (a ∷ []) = push_codon (codon_new a 0 0) (some [])
symbols_to_codons (a ∷ b ∷ []) = push_codon (codon_new a b 0) (some [])
symbols_to_codons (a ∷ b ∷ c ∷ rest) = push_codon (codon_new a b c) (symbols_to_codons rest)

-- The payload of the codons, for the input's length.
abbrev payload_of : ℕ → Option (List Codon) → Option EncodedPayload
payload_of n none = none
payload_of n (some codons) = some (record { codons = codons; original_len = n })

pub encode_bytes_to_codons_scalar : List ℕ → Option EncodedPayload
encode_bytes_to_codons_scalar bytes =
    payload_of (length bytes) (symbols_to_codons (expand_bytes_to_symbols_scalar bytes))

-- The four stores of the vector path: 16 lanes, each a byte widened to 16 bits, shifted and masked.
abbrev lanes : ℕ → List ℕ → List ℕ
lanes shift block = map (λ w. w / 2 ^ shift % 4) block

-- The inner loop over the lanes; `as u8` keeps the low byte.
interleave : List ℕ → List ℕ → List ℕ → List ℕ → List ℕ
interleave (a ∷ as') (b ∷ bs) (c ∷ cs) (d ∷ ds) =
    a % 256 ∷ b % 256 ∷ c % 256 ∷ d % 256 ∷ interleave as' bs cs ds
interleave [] bs cs ds = []
interleave (a ∷ as') [] cs ds = []
interleave (a ∷ as') (b ∷ bs) [] ds = []
interleave (a ∷ as') (b ∷ bs) (c ∷ cs) [] = []

vector_block : List ℕ → List ℕ
unfolding interleave
vector_block v = interleave (lanes 6 v) (lanes 4 v) (lanes 2 v) (lanes 0 v)

-- The loop of `expand_bytes_to_symbols_avx2`, from index `i`. A round takes 16 bytes, so
-- `length bytes` rounds are enough; with no fuel the rest goes to the scalar path.
avx2_loop : ℕ → List ℕ → ℕ → List ℕ → List ℕ
avx2_loop zero bytes i symbols = symbols ++ expand_bytes_to_symbols_scalar (drop i bytes)
avx2_loop (suc fuel) bytes i symbols =
    let next = avx2_loop fuel bytes (i + 16) (symbols ++ vector_block (take 16 (drop i bytes))) in
    if leb (i + 16) (length bytes)
    then next
    else symbols ++ expand_bytes_to_symbols_scalar (drop i bytes)

pub expand_bytes_to_symbols_avx2 : List ℕ → List ℕ
expand_bytes_to_symbols_avx2 bytes = avx2_loop (length bytes) bytes 0 []

-- What the target and the machine offer: `cfg(target_arch)` and `is_x86_feature_detected!`.
pub record Cpu : Type 0 where
  pub x86_64 : Bool
  pub avx2 : Bool

pub encode_bytes_to_codons_avx2 : Cpu → List ℕ → Option EncodedPayload
unfolding encode_bytes_to_codons_scalar
encode_bytes_to_codons_avx2 cpu bytes =
    if cpu.x86_64 && cpu.avx2
    then payload_of (length bytes) (symbols_to_codons (expand_bytes_to_symbols_avx2 bytes))
    else encode_bytes_to_codons_scalar bytes

pub encode_bytes_to_codons : Cpu → List ℕ → Option EncodedPayload
unfolding encode_bytes_to_codons_avx2
encode_bytes_to_codons cpu bytes =
    if cpu.x86_64 && (leb simd_encode_threshold (length bytes) && cpu.avx2)
    then encode_bytes_to_codons_avx2 cpu bytes
    else encode_bytes_to_codons_scalar bytes

-- The loop over the codons and their symbols: the first symbol out of range is the error.
push_values : List ℕ → Result (List ℕ) → Result (List ℕ)
push_values [] rest = rest
push_values (v ∷ vs) rest =
    let more = push_values vs rest in
    if leb 4 v then err (invalid_symbol v) else elim more [ ok r ↦ ok (v ∷ r) | err e ↦ err e ]

codon_symbols : List Codon → Result (List ℕ)
unfolding push_values
codon_symbols [] = ok []
codon_symbols (c ∷ cs) = push_values (values c) (codon_symbols cs)

-- One byte of four symbols; a `u8` shift drops what leaves the byte.
abbrev byte_of : ℕ → ℕ → ℕ → ℕ → ℕ
byte_of a b c d = bit_or (bit_or (bit_or (a * 64 % 256) (b * 16 % 256)) (c * 4 % 256)) d

-- `symbols.chunks_exact(4)`: a last chunk of fewer than four symbols is dropped.
symbols_to_bytes : List ℕ → List ℕ
symbols_to_bytes (a ∷ b ∷ c ∷ d ∷ rest) = byte_of a b c d ∷ symbols_to_bytes rest
symbols_to_bytes _ = []

abbrev finish : ℕ → Result (List ℕ) → Result (List ℕ)
finish required (err e) = err e
finish required (ok symbols) =
    if ltb (length symbols) required
    then err insufficient_symbols
    else ok (symbols_to_bytes (take required symbols))

-- `payload.original_len * 4` is a `usize` of 64 bits.
pub decode_codons_to_bytes : EncodedPayload → Result (List ℕ)
unfolding codon_symbols symbols_to_bytes
decode_codons_to_bytes payload =
    finish (payload.original_len * 4 % 2 ^ 64) (codon_symbols payload.codons)
