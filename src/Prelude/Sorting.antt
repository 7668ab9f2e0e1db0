-- ===== src/Prelude/Sorting.antt =====
-- Rust's stable sorts by a numeric key, as insertion.
use Prim.Native.Nat.{ℕ, suc, ◌≤◌}
use mathlib.Core.Path.{◌≡◌, refl, ap, ◌∙◌}
use mathlib.Core.Bool.{Bool, false, ◌||◌}
use mathlib.Core.List.{List, [], ◌∷◌}
use native.Mathlib.Omega.{arith}
use dna_db.Prelude.Tests.{if◌then◌else◌, leb}
use dna_db.Prelude.Lists.{length}

module _ {ℓ} {A : Type ℓ} where
  -- Iterator::any
  abbrev pub any : (A → Bool) → List A → Bool
  any p [] = false
  any p (x ∷ xs) = p x || any p xs

  abbrev pub insert_by_key : (A → ℕ) → A → List A → List A
  insert_by_key key x [] = x ∷ []
  insert_by_key key x (y ∷ ys) =
      let rest = insert_by_key key x ys in if leb (key x) (key y) then x ∷ y ∷ ys else y ∷ rest

  abbrev pub sort_by_key : (A → ℕ) → List A → List A
  sort_by_key key [] = []
  sort_by_key key (x ∷ xs) = insert_by_key key x (sort_by_key key xs)

  -- No key is below `low`, and none is below the one before it.
  abbrev pub IsSortedFrom : (A → ℕ) → ℕ → List A → Type 0
  IsSortedFrom key low [] = Unit {0}
  IsSortedFrom key low (x ∷ xs) = (low ≤ key x) × IsSortedFrom key (key x) xs

  insert_by_key-IsSortedFrom :
      (key : A → ℕ) (low : ℕ) (x : A) (xs : List A)
      → low ≤ key x
      → IsSortedFrom key low xs
      → IsSortedFrom key low (insert_by_key key x xs)
  insert_by_key-IsSortedFrom key low x [] h s = (h, tt)
  insert_by_key-IsSortedFrom key low x (y ∷ ys) h s =
      ground (arith, s.0, s.1, insert_by_key-IsSortedFrom key (key y) x ys)

  pub sort_by_key-IsSortedFrom :
      (key : A → ℕ) (xs : List A) → IsSortedFrom key 0 (sort_by_key key xs)
  sort_by_key-IsSortedFrom key [] = tt
  sort_by_key-IsSortedFrom key (x ∷ xs) =
      insert_by_key-IsSortedFrom key 0 x (sort_by_key key xs) (omega arith)
        (sort_by_key-IsSortedFrom key xs)

  any-insert_by_key :
      (key : A → ℕ) (p : A → Bool) (x : A) (xs : List A)
      → any p (insert_by_key key x xs) ≡ p x || any p xs
  any-insert_by_key key p x [] = refl
  any-insert_by_key key p x (y ∷ ys) = ground (arith, any-insert_by_key key p x ys)

  -- A sort drops no element and makes none up.
  pub any-sort_by_key :
      (key : A → ℕ) (p : A → Bool) (xs : List A) → any p (sort_by_key key xs) ≡ any p xs
  any-sort_by_key key p [] = refl
  any-sort_by_key key p (x ∷ xs) =
      any-insert_by_key key p x (sort_by_key key xs) ∙ ap (λ b. p x || b) (any-sort_by_key key p xs)

  length-insert_by_key :
      (key : A → ℕ) (x : A) (xs : List A) → length (insert_by_key key x xs) ≡ suc (length xs)
  length-insert_by_key key x [] = refl
  length-insert_by_key key x (y ∷ ys) = ground (arith, length-insert_by_key key x ys)

  pub length-sort_by_key : (key : A → ℕ) (xs : List A) → length (sort_by_key key xs) ≡ length xs
  length-sort_by_key key [] = refl
  length-sort_by_key key (x ∷ xs) =
      length-insert_by_key key x (sort_by_key key xs) ∙ ap suc (length-sort_by_key key xs)
