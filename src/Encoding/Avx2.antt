-- ===== src/Encoding/Avx2.antt =====
-- engine/src/encoding.rs: the vector path emits the symbols of the scalar path.
use dna_db.Prelude.{
  ℕ, zero, suc, ◌+◌, ◌≡◌, refl, ap, sym, ◌∙◌, List, [], ◌∷◌, ◌++◌, length, take, drop,
  take-append-drop, drop-drop, arith, Bool-cases, inl, inr, leb,
}
use mathlib.Core.List.{append_assoc}
use dna_db.Encoding.{
  Cpu, vector_block, expand_bytes_to_symbols_scalar, avx2_loop, expand_bytes_to_symbols_avx2,
  encode_bytes_to_codons_scalar, encode_bytes_to_codons,
}

vector_block-eq-expand : (v : List ℕ) → vector_block v ≡ expand_bytes_to_symbols_scalar v
unfolding vector_block expand_bytes_to_symbols_scalar
vector_block-eq-expand [] = refl
vector_block-eq-expand (b ∷ bs) = ground (arith, vector_block-eq-expand bs)

expand-append :
    (xs ys : List ℕ)
    → expand_bytes_to_symbols_scalar (xs ++ ys)
      ≡ expand_bytes_to_symbols_scalar xs ++ expand_bytes_to_symbols_scalar ys
unfolding expand_bytes_to_symbols_scalar
expand-append [] ys = refl
expand-append (x ∷ xs) ys = cc (expand-append xs ys)

-- A block of the vector path and the rest after it are the rest before it.
block_and_rest :
    (i : ℕ) (symbols bytes : List ℕ)
    → (symbols ++ vector_block (take 16 (drop i bytes)))
        ++ expand_bytes_to_symbols_scalar (drop (i + 16) bytes)
      ≡ symbols ++ expand_bytes_to_symbols_scalar (drop i bytes)
block_and_rest i symbols bytes =
    append_assoc symbols _ _
    ∙ ap (◌++◌ symbols) (
        rw (vector_block-eq-expand (take 16 (drop i bytes)), ← drop-drop 16 i (i + 16) bytes refl)
          (sym (expand-append (take 16 (drop i bytes)) (drop 16 (drop i bytes)))
            ∙ ap expand_bytes_to_symbols_scalar (take-append-drop 16 (drop i bytes))))

-- However many rounds are left, the loop appends the symbols of the rest.
avx2_loop-eq :
    (fuel : ℕ) (bytes : List ℕ) (i : ℕ) (symbols : List ℕ)
    → avx2_loop fuel bytes i symbols ≡ symbols ++ expand_bytes_to_symbols_scalar (drop i bytes)
unfolding avx2_loop
avx2_loop-eq zero bytes i symbols = refl
avx2_loop-eq (suc fuel) bytes i symbols =
    let block : List ℕ = vector_block (take 16 (drop i bytes)) in
    let next = avx2_loop-eq fuel bytes (i + 16) (symbols ++ block) in
    elim (Bool-cases (leb (i + 16) (length bytes))) [
      | inl more ↦ rw more (next ∙ block_and_rest i symbols bytes)
      | inr done ↦ rw done refl
    ]

-- The vector path pushes exactly the symbols that the scalar path pushes.
pub expand_avx2-eq-scalar :
    (bytes : List ℕ) → expand_bytes_to_symbols_avx2 bytes ≡ expand_bytes_to_symbols_scalar bytes
unfolding expand_bytes_to_symbols_avx2
expand_avx2-eq-scalar bytes = avx2_loop-eq (length bytes) bytes 0 []

-- Whatever the machine offers and whatever the length, the default encoder gives the payload of the
-- scalar encoder.
pub encode_bytes_to_codons-eq-scalar :
    (cpu : Cpu) (bytes : List ℕ)
    → encode_bytes_to_codons cpu bytes ≡ encode_bytes_to_codons_scalar bytes
unfolding encode_bytes_to_codons
encode_bytes_to_codons-eq-scalar cpu bytes = ground (arith, expand_avx2-eq-scalar bytes)
