-- ===== src/Query/Index.antt =====
-- engine/src/query/index.rs: global indexes over the introns of strands, for exact values and for
-- ranges of numbers. What bincode reads as a literal is a parameter.
pub mod Ranges
pub mod Hashes
use dna_db.Prelude.{
  ℕ, zero, suc, ◌+◌, ◌-◌, ◌*◌, ◌/◌, ◌^◌, String, Bool, true, false, not, ◌&&◌, ◌||◌, Option, none,
  some, List, [], ◌∷◌, ◌++◌, map, length, take, drop, slice, retain, partition_point, sort_by_key,
  unwrap_or, ltb, leb, ◌==◌, nat_eq, string_eq, list_eq, u64_max, if◌then◌else◌,
}
use dna_db.Prelude.Map.{Map, get, insert}
use dna_db.Model.{Strand, Intron}
use dna_db.Encoding.{decode_codons_to_bytes, ok as decoded, err as undecoded}
use dna_db.Query.{
  QueryLiteral, string_literal, i64_literal, u64_literal, f64_literal, bool_literal, RangeOp,
  greater_than, greater_or_equal, less_than, less_or_equal, not_equal,
}

abbrev pub Signature : Type 0
Signature = List ℕ

-- The sum of the offsets is of `u16`s in a `usize`.
unfoldable pub intron_payload_bytes : Strand → Intron → Option (List ℕ)
intron_payload_bytes strand intron =
    let start = intron.codon_offset in
    let len = intron.codon_length in
    let end' = start + len in
    if ltb (length strand.codons) end'
    then none
    else elim (decode_codons_to_bytes
        (record { codons = slice start end' strand.codons; original_len = len * 3 / 4 })) [
          | decoded bytes ↦ some bytes
          | undecoded e ↦ none
        ]

-- entry(key).or_default().push(signature)
unfoldable pub push_at :
    List ℕ → Signature → Map (List ℕ) (List Signature) → Map (List ℕ) (List Signature)
push_at key signature index = insert key (unwrap_or (get key index) [] ++ (signature ∷ [])) index

-- The loop over the introns of a strand.
unfoldable pub index_introns :
    String → Strand → List Intron → Map (List ℕ) (List Signature) → Map (List ℕ) (List Signature)
index_introns field s [] out = out
index_introns field s (i ∷ introns) out =
    if not (i.field_name == field)
    then index_introns field s introns out
    else elim (intron_payload_bytes s i) [
      | none ↦ index_introns field s introns out
      | some v ↦ index_introns field s introns (push_at v s.signature out)
    ]

-- The loop over the strands.
unfoldable pub index_strands :
    String → List Strand → Map (List ℕ) (List Signature) → Map (List ℕ) (List Signature)
index_strands field [] out = out
index_strands field (s ∷ strands) out =
    if field == "_signature"
    then index_strands field strands (push_at s.signature s.signature out)
    else index_strands field strands (index_introns field s s.introns out)

unfoldable pub build_exact_hash_index : List Strand → String → Map (List ℕ) (List Signature)
unfolding index_strands
build_exact_hash_index strands field = index_strands field strands []

unfoldable pub exact_lookup_signatures : Map (List ℕ) (List Signature) → List ℕ → List Signature
exact_lookup_signatures index value = unwrap_or (get value index) []

-- A decimal number of digits alone.
unfoldable pub digits : ℕ → List ℕ → Option ℕ
digits n [] = some n
digits n (b ∷ bytes) =
    let next = n * 10 + (b - 48) in
    let rest = digits next bytes in
    if not (leb 48 b && leb b 57) || ltb u64_max next then none else rest

-- `str::parse::<u64>`, on text that is not decoded: bytes that are no digits are an error anyhow.
unfoldable pub parse_u64 : List ℕ → Option ℕ
unfolding digits
parse_u64 [] = none
parse_u64 (b ∷ bytes) =
    if b == 43 then (if length bytes == 0 then none else digits 0 bytes) else digits 0 (b ∷ bytes)

module _ (deserialize_literal : List ℕ → Option QueryLiteral) where
  -- An `i64` that is not negative has its highest bit clear.
  abbrev pub number_of : QueryLiteral → Option ℕ
  number_of (u64_literal v) = some v
  number_of (i64_literal v) = if ltb v (2 ^ 63) then some v else none
  number_of (string_literal s) = none
  number_of (f64_literal v) = none
  number_of (bool_literal b) = none

  unfoldable pub as_numeric_u64 : List ℕ → Option ℕ
  unfolding parse_u64
  as_numeric_u64 value = elim (deserialize_literal value) [
    | some lit ↦ number_of lit
    | none ↦ parse_u64 value
  ]

  -- The inner loop of `GlobalRangeIndex::build`.
  unfoldable pub range_entries_of : String → Strand → List Intron → List (ℕ × Signature)
  unfolding as_numeric_u64 intron_payload_bytes
  range_entries_of field s [] = []
  range_entries_of field s (i ∷ introns) =
      if not (i.field_name == field)
      then range_entries_of field s introns
      else elim (intron_payload_bytes s i) [
        | none ↦ range_entries_of field s introns
        | some b ↦ elim (as_numeric_u64 b) [
          | none ↦ range_entries_of field s introns
          | some v ↦ (v, s.signature) ∷ range_entries_of field s introns
        ]
      ]

  unfoldable pub range_entries : String → List Strand → List (ℕ × Signature)
  unfolding range_entries_of
  range_entries field [] = []
  range_entries field (s ∷ strands) =
      range_entries_of field s s.introns ++ range_entries field strands

  -- GlobalRangeIndex::build
  unfoldable pub build_range_index : String → List Strand → List (ℕ × Signature)
  unfolding range_entries
  build_range_index field strands = sort_by_key (λ e. e.0) (range_entries field strands)

abbrev pub signatures : List (ℕ × Signature) → List Signature
signatures entries = map (λ e. e.1) entries

-- Two halves that are collected in parallel make the list from `i` to `j`.
unfoldable pub lookup_between_inclusive : List (ℕ × Signature) → ℕ → ℕ → List Signature
lookup_between_inclusive entries low high =
    if ltb high low
    then []
    else let i = partition_point (λ e. ltb e.0 low) entries in
      let j = partition_point (λ e. leb e.0 high) entries in
      if leb j i
      then []
      else let mid = i + (j - i) / 2 in
        if leb 8192 (j - i)
        then signatures (slice i mid entries) ++ signatures (slice mid j entries)
        else signatures (slice i j entries)

-- GlobalRangeIndex::lookup
unfoldable pub lookup : List (ℕ × Signature) → RangeOp → ℕ → List Signature
lookup entries greater_or_equal needle =
    signatures (drop (partition_point (λ e. ltb e.0 needle) entries) entries)
lookup entries greater_than needle =
    signatures (drop (partition_point (λ e. leb e.0 needle) entries) entries)
lookup entries less_than needle =
    signatures (take (partition_point (λ e. ltb e.0 needle) entries) entries)
lookup entries less_or_equal needle =
    signatures (take (partition_point (λ e. leb e.0 needle) entries) entries)
lookup entries not_equal needle = signatures (retain (λ e. not (e.0 == needle)) entries)
