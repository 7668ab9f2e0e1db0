-- ===== src/Query/Vector.antt =====
-- engine/src/query/vector.rs: rows are filtered in batches, clause by clause.
use dna_db.Prelude.{
  ℕ, zero, suc, ◌≤◌, ◌<◌, ◌≡◌, refl, sym, ap, ◌∙◌, Bool, true, false, not, ◌&&◌, List, [], ◌∷◌,
  ◌++◌, map, length, take, drop, max, all, retain, arith, if◌then◌else◌, length-drop,
  take-append-drop,
}
use dna_db.Model.{Strand}
use dna_db.Query.{Clause, GuidePattern}

-- The inner loop: a row that the clause does not match leaves the mask.
unfoldable pub mask_rows : (Strand → Clause → Bool) → Clause → List Strand → List Bool → List Bool
mask_rows matcher clause (row ∷ rows) (kept ∷ mask) =
    (if kept && not (matcher row clause) then false else kept) ∷ mask_rows matcher clause rows mask
mask_rows matcher clause [] mask = mask
mask_rows matcher clause (row ∷ rows) [] = []

-- The loop over the clauses.
unfoldable pub mask_clauses :
    (Strand → Clause → Bool) → List Clause → List Strand → List Bool → List Bool
unfolding mask_rows
mask_clauses matcher [] rows mask = mask
mask_clauses matcher (clause ∷ clauses) rows mask =
    mask_clauses matcher clauses rows (mask_rows matcher clause rows mask)

-- The loop that pushes the rows of the mask.
unfoldable pub push_masked : List Strand → List Bool → List Strand
push_masked (row ∷ rows) (kept ∷ mask) =
    let rest = push_masked rows mask in if kept then row ∷ rest else rest
push_masked [] mask = []
push_masked (row ∷ rows) [] = []

unfoldable pub filter_chunk : (Strand → Clause → Bool) → List Clause → List Strand → List Strand
unfolding mask_clauses push_masked
filter_chunk matcher clauses chunk =
    push_masked chunk (mask_clauses matcher clauses chunk (map (λ row. true) chunk))

-- The loop over `rows.chunks(size)`. A chunk has one row at least, so `length rows` rounds are enough.
unfoldable pub filter_chunks :
    ℕ → ℕ → (Strand → Clause → Bool) → List Clause → List Strand → List Strand
unfolding filter_chunk
filter_chunks zero size matcher clauses rows = []
filter_chunks (suc fuel) size matcher clauses rows =
    filter_chunk matcher clauses (take size rows)
    ++ filter_chunks fuel size matcher clauses (drop size rows)

unfoldable pub filter_rows_vectorized :
    List Strand → GuidePattern → ℕ → (Strand → Clause → Bool) → List Strand
unfolding filter_chunks
filter_rows_vectorized rows pattern' batch_size matcher = elim pattern'.clauses [
  | [] ↦ rows
  | clause ∷ clauses ↦
      filter_chunks (length rows) (max batch_size 1) matcher (clause ∷ clauses) rows
]

module _ (matcher : Strand → Clause → Bool) where
  -- What all clauses match.
  abbrev pub matches : List Clause → Strand → Bool
  matches clauses row = all (λ c. matcher row c) clauses

  masked_row :
      (clauses : List Clause) (row : Strand) (rows : List Strand) (kept : Bool) (mask : List Bool)
      → mask_clauses matcher clauses (row ∷ rows) (kept ∷ mask)
        ≡ (kept && matches clauses row) ∷ mask_clauses matcher clauses rows mask
  unfolding mask_clauses
  masked_row [] row rows true mask = refl
  masked_row [] row rows false mask = refl
  masked_row (clause ∷ clauses) row rows kept mask = masked_row clauses row rows _ _ ∙ ground arith

  filter_chunk-eq-retain :
      (clauses : List Clause) (rows : List Strand)
      → filter_chunk matcher clauses rows ≡ retain (matches clauses) rows
  unfolding filter_chunk
  filter_chunk-eq-retain clauses [] = unfold push_masked in refl
  filter_chunk-eq-retain clauses (row ∷ rows) =
      ap (push_masked (row ∷ rows)) (masked_row clauses row rows true (map (λ r. true) rows))
      ∙ (unfold push_masked in
          ap (λ (rest : List Strand). if matches clauses row then row ∷ rest else rest)
            (filter_chunk-eq-retain clauses rows))

  retain-append :
      (p : Strand → Bool) (xs ys : List Strand) → retain p (xs ++ ys) ≡ retain p xs ++ retain p ys
  retain-append p [] ys = refl
  retain-append p (x ∷ xs) ys = ground (arith, retain-append p xs ys)

  filter_chunks-eq-retain :
      (fuel size : ℕ) (clauses : List Clause) (rows : List Strand)
      → length rows ≤ fuel
      → 0 < size
      → filter_chunks fuel size matcher clauses rows ≡ retain (matches clauses) rows
  unfolding filter_chunks
  filter_chunks-eq-retain zero size clauses [] f s = refl
  filter_chunks-eq-retain zero size clauses (row ∷ rows) f s = absurd (omega arith)
  filter_chunks-eq-retain (suc fuel) size clauses rows f s =
      rw (filter_chunk-eq-retain clauses (take size rows)) (
        ap (◌++◌ (retain (matches clauses) (take size rows))) (
          filter_chunks-eq-retain fuel size clauses (drop size rows)
            (omega (arith, length-drop size rows)) s)
        ∙ sym (retain-append (matches clauses) (take size rows) (drop size rows))
        ∙ ap (retain (matches clauses)) (take-append-drop size rows))

  retain_all : (rows : List Strand) → rows ≡ retain (matches []) rows
  retain_all [] = refl
  retain_all (row ∷ rows) = ap (λ (r : List Strand). row ∷ r) (retain_all rows)

  -- Whatever the size of a batch, also zero, the rows that remain are those that every clause matches,
  -- in their order.
  pub filter_rows_vectorized-eq-retain :
      (rows : List Strand) (pattern' : GuidePattern) (batch_size : ℕ)
      → filter_rows_vectorized rows pattern' batch_size matcher
        ≡ retain (λ row. all (λ c. matcher row c) pattern'.clauses) rows
  unfolding filter_rows_vectorized
  filter_rows_vectorized-eq-retain rows pattern' batch_size = of_clauses pattern'.clauses refl
    where
      of_clauses :
          (clauses : List Clause)
          → pattern'.clauses ≡ clauses
          → filter_rows_vectorized rows pattern' batch_size matcher
            ≡ retain (matches pattern'.clauses) rows
      of_clauses [] e = rw e (retain_all rows)
      of_clauses (clause ∷ clauses) e = rw e (
          filter_chunks-eq-retain (length rows) (max batch_size 1) (clause ∷ clauses) rows
            (omega arith) (omega arith))
