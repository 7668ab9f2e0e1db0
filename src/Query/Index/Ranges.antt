-- ===== src/Query/Index/Ranges.antt =====
-- engine/src/query/index.rs: a lookup by binary search finds what a scan would find.
use dna_db.Prelude.{
  ℕ, zero, suc, ◌+◌, ◌-◌, ◌/◌, ◌≤◌, ◌<◌, ◌≡◌, refl, sym, ap, ◌∙◌, Bool, true, false, not, ◌&&◌,
  Option, List, [], ◌∷◌, ◌++◌, String, take, drop, slice, retain, partition_point, IsSortedFrom,
  sort_by_key-IsSortedFrom, arith, ltb, leb, ◌==◌, nat_eq, if◌then◌else◌, Bool-cases, inl, inr,
  drop-drop, leb→le, ltb→lt,
}
use dna_db.Model.{Strand}
use dna_db.Query.{
  QueryLiteral, RangeOp, greater_than, greater_or_equal, less_than, less_or_equal, not_equal,
}
use dna_db.Query.Index.{
  Signature, signatures, lookup, lookup_between_inclusive, build_range_index, range_entries,
}

abbrev pub Entry : Type 0
Entry = ℕ × Signature

abbrev pub number : Entry → ℕ
number e = e.0

-- A test that holds below some number and not above it.
abbrev IsCut : (Entry → Bool) → Type 0
IsCut p = (x y : Entry) → number x ≤ number y → p x ≡ false → p y ≡ false

below-IsCut : (n : ℕ) → IsCut (λ e. ltb (number e) n)
below-IsCut n x y h e = ground arith

up_to_cut : (n : ℕ) → IsCut (λ e. leb (number e) n)
up_to_cut n x y h e = ground arith

module _ (p : Entry → Bool) (cut : IsCut p) where
  -- From an entry on that fails the test, all fail it.
  none_pass :
      (x : Entry) (entries : List Entry)
      → p x ≡ false
      → IsSortedFrom number (number x) entries
      → (retain p entries ≡ []) × (retain (λ e. not (p e)) entries ≡ entries)
  none_pass x [] e s = (refl, refl)
  none_pass x (y ∷ entries) e s =
      let fails = cut x y s.0 e in
      let (none_left, all_left) = none_pass y entries fails s.1 in
      (rw fails none_left, rw fails (ap (λ (r : List Entry). y ∷ r) all_left))

  -- The partition point splits a sorted list into what passes the test and what fails it.
  split_at_cut :
      (low : ℕ) (entries : List Entry)
      → IsSortedFrom number low entries
      → (take (partition_point p entries) entries ≡ retain p entries)
        × (drop (partition_point p entries) entries ≡ retain (λ e. not (p e)) entries)
  split_at_cut low [] s = (refl, refl)
  split_at_cut low (x ∷ entries) s = elim (Bool-cases (p x)) [
    | inl passes ↦
        let (front, back) = split_at_cut (number x) entries s.1 in
        (rw passes (ap (λ (r : List Entry). x ∷ r) front), rw passes back)
    | inr fails ↦
        let (none_left, all_left) = none_pass x entries fails s.1 in
        (rw fails (sym none_left), rw fails (ap (λ (r : List Entry). x ∷ r) (sym all_left)))
  ]

-- The test of an operator, as a scan applies it.
abbrev pub passes : RangeOp → ℕ → Entry → Bool
passes greater_than needle e = ltb needle (number e)
passes greater_or_equal needle e = leb needle (number e)
passes less_than needle e = ltb (number e) needle
passes less_or_equal needle e = leb (number e) needle
passes not_equal needle e = not (number e == needle)

retain_same :
    (p q : Entry → Bool) (entries : List Entry)
    → ((e : Entry) → p e ≡ q e)
    → retain p entries ≡ retain q entries
retain_same p q [] h = refl
retain_same p q (e ∷ entries) h =
    ap (λ b. if b then e ∷ retain p entries else retain p entries) (h e)
    ∙ ap (λ (r : List Entry). if q e then e ∷ r else r) (retain_same p q entries h)

lookup_sorted :
    (entries : List Entry) (op : RangeOp) (needle : ℕ)
    → IsSortedFrom number 0 entries
    → lookup entries op needle ≡ signatures (retain (passes op needle) entries)
unfolding lookup
lookup_sorted entries greater_than needle s = ap signatures (
    (split_at_cut (λ e. leb (number e) needle) (up_to_cut needle) 0 entries s).1
    ∙ retain_same _ _ entries (λ e. ground arith))
lookup_sorted entries greater_or_equal needle s = ap signatures (
    (split_at_cut (λ e. ltb (number e) needle) (below-IsCut needle) 0 entries s).1
    ∙ retain_same _ _ entries (λ e. ground arith))
lookup_sorted entries less_than needle s =
    ap signatures (split_at_cut (λ e. ltb (number e) needle) (below-IsCut needle) 0 entries s).0
lookup_sorted entries less_or_equal needle s =
    ap signatures (split_at_cut (λ e. leb (number e) needle) (up_to_cut needle) 0 entries s).0
lookup_sorted entries not_equal needle s = refl

build_IsSorted :
    (deserialize_literal : List ℕ → Option QueryLiteral) (field : String) (strands : List Strand)
    → IsSortedFrom number 0 (build_range_index deserialize_literal field strands)
unfolding build_range_index
build_IsSorted deserialize_literal field strands =
    sort_by_key-IsSortedFrom number (range_entries deserialize_literal field strands)

-- A lookup in a range index that was built from strands finds, in the order of their numbers, the
-- signatures of exactly those entries that a scan with the operator finds.
pub lookup-build_range_index :
    (deserialize_literal : List ℕ → Option QueryLiteral) (field : String) (strands : List Strand)
    (op : RangeOp) (needle : ℕ)
    → lookup (build_range_index deserialize_literal field strands) op needle
      ≡ signatures (retain (passes op needle) (build_range_index deserialize_literal field strands))
lookup-build_range_index deserialize_literal field strands op needle =
    lookup_sorted (build_range_index deserialize_literal field strands) op needle
      (build_IsSorted deserialize_literal field strands)

-- Both bounds, as a scan applies them.
abbrev pub between : ℕ → ℕ → Entry → Bool
between low high e = leb low (number e) && leb (number e) high

above_low :
    (low high from : ℕ) (entries : List Entry)
    → low ≤ from
    → IsSortedFrom number from entries
    → retain (λ e. leb (number e) high) entries ≡ retain (between low high) entries
above_low low high from [] h s = refl
above_low low high from (x ∷ entries) h s =
    let rest = above_low low high (number x) entries (omega (arith, h, s.0)) s.1 in
    ground (arith, rest, h, s.0)

slice-between :
    (low high from : ℕ) (entries : List Entry)
    → low ≤ high
    → IsSortedFrom number from entries
    → slice
        (partition_point (λ e. ltb (number e) low) entries)
        (partition_point (λ e. leb (number e) high) entries)
        entries
      ≡ retain (between low high) entries
slice-between low high from [] h s = refl
slice-between low high from (x ∷ entries) h s = elim (Bool-cases (ltb (number x) low)) [
  | inl small ↦
      let fits : leb (number x) high ≡ true = ground arith in
      let out : leb low (number x) ≡ false = ground arith in
      let i = partition_point (λ e. ltb (number e) low) entries in
      let j = partition_point (λ e. leb (number e) high) entries in
      rw (small, fits)
        (ap (λ n. take n (drop i entries)) (omega arith)
          ∙ slice-between low high (number x) entries h s.1
          ∙ (rw out refl))
  | inr large ↦
      let above : low ≤ number x = ground arith in
      rw large (
        ap (λ n. take n (x ∷ entries)) (omega arith)
        ∙ (split_at_cut (λ e. leb (number e) high) (up_to_cut high) from (x ∷ entries) s).0
        ∙ above_low low high (number x) (x ∷ entries) above (omega arith, s.1))
]

take-add : (a b c : ℕ) (ys : List Entry) → a + b ≡ c → take a ys ++ take b (drop a ys) ≡ take c ys
take-add zero b c ys e = ap (λ n. take n ys) (omega arith)
take-add (suc a) b zero ys e = absurd (omega arith)
take-add (suc a) zero (suc c) [] e = refl
take-add (suc a) (suc b) (suc c) [] e = refl
take-add (suc a) b (suc c) (y ∷ ys) e =
    ap (λ (r : List Entry). y ∷ r) (take-add a b c ys (omega arith))

slice_split :
    (i m j : ℕ) (entries : List Entry)
    → i ≤ m
    → m ≤ j
    → slice i m entries ++ slice m j entries ≡ slice i j entries
slice_split i m j entries h k =
    ap (λ (ys : List Entry). slice i m entries ++ take (j - m) ys)
      (sym (drop-drop (m - i) i m entries (omega arith)))
    ∙ take-add (m - i) (j - m) (j - i) (drop i entries) (omega arith)

signatures-append : (xs ys : List Entry) → signatures xs ++ signatures ys ≡ signatures (xs ++ ys)
signatures-append [] ys = refl
signatures-append (x ∷ xs) ys = ap (λ (r : List Signature). x.1 ∷ r) (signatures-append xs ys)

slice_empty : (i j : ℕ) (entries : List Entry) → j ≤ i → [] ≡ slice i j entries
slice_empty i j entries h = ap (λ n. take n (drop i entries)) {x = 0} (omega arith)

none_between :
    (low high : ℕ) (entries : List Entry) → high < low → [] ≡ retain (between low high) entries
none_between low high [] h = refl
none_between low high (x ∷ entries) h = ground (arith, none_between low high entries h, h)

le_of_full : (i j : ℕ) → leb j i ≡ false → i ≤ j
le_of_full i j h = ground arith

-- All branches of the lookup give the slice.
lookup_slice :
    (entries : List Entry) (low high : ℕ)
    → low ≤ high
    → lookup_between_inclusive entries low high
      ≡ signatures (
          slice
            (partition_point (λ e. ltb (number e) low) entries)
            (partition_point (λ e. leb (number e) high) entries)
            entries)
lookup_slice entries low high h =
    let i = partition_point (λ e. ltb (number e) low) entries in
    let j = partition_point (λ e. leb (number e) high) entries in
    let mid = i + (j - i) / 2 in
    let ordered : ltb high low ≡ false = ground arith in
    elim (Bool-cases (leb j i)) [
      | inl empty ↦
          unfold lookup_between_inclusive in
          rw (ordered, empty) (ap signatures (slice_empty i j entries (leb→le j i empty)))
      | inr full ↦ elim (Bool-cases (leb 8192 (j - i))) [
        | inl many ↦
            unfold lookup_between_inclusive in
            rw (ordered, full, many)
              (signatures-append (slice i mid entries) (slice mid j entries)
                ∙ ap signatures (
                    slice_split i mid j entries (omega arith) (omega (arith, le_of_full i j full))))
        | inr few ↦ unfold lookup_between_inclusive in rw (ordered, full, few) refl
      ]
    ]

between_sorted :
    (entries : List Entry) (low high : ℕ)
    → IsSortedFrom number 0 entries
    → lookup_between_inclusive entries low high ≡ signatures (retain (between low high) entries)
between_sorted entries low high s = elim (Bool-cases (ltb high low)) [
  | inl empty ↦
      unfold lookup_between_inclusive in
      rw empty (ap signatures (none_between low high entries (ltb→lt high low empty)))
  | inr ordered ↦
      let h : low ≤ high = ground arith in
      lookup_slice entries low high h ∙ ap signatures (slice-between low high 0 entries h s)
]

-- A lookup between two bounds in a range index that was built from strands finds, in the order of
-- their numbers, the signatures of exactly the entries within the bounds, however many there are.
pub between-build_range_index :
    (deserialize_literal : List ℕ → Option QueryLiteral) (field : String) (strands : List Strand)
    (low high : ℕ)
    → lookup_between_inclusive (build_range_index deserialize_literal field strands) low high
      ≡ signatures (retain (between low high) (build_range_index deserialize_literal field strands))
between-build_range_index deserialize_literal field strands low high =
    between_sorted (build_range_index deserialize_literal field strands) low high
      (build_IsSorted deserialize_literal field strands)
