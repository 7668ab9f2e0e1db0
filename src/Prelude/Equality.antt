-- ===== src/Prelude/Equality.antt =====
-- Equality tests (`PartialEq`) as an interface; its instances are the types of keys in the program.
use Prim.Native.String.{String}
use mathlib.Core.Path.{◌≡◌, refl}
use mathlib.Core.Logic.{◌↔◌}
use mathlib.Core.Bool.{Bool, true, false, ◌&&◌, ◌||◌}
use mathlib.Core.List.{List, [], ◌∷◌}
use native.Mathlib.Omega.{arith}
use Prim.Native.Nat.{ℕ}
use text.Mathlib.TextEquality.{eq_iff}
use text.Mathlib.Text.{◌==◌ as str_eq}
use dna_db.Prelude.Tests.{◌==◌ as nat_beq, ==_iff}

-- `eq` of the source's `PartialEq`, which decides equality.
pub record Eq {ℓ} (K : Type ℓ) : Type ℓ where
  pub is_eq : K → K → Bool
  pub is_eq_iff : (x y : K) → (is_eq x y ≡ true) ↔ (x ≡ y)

instance abbrev pub string_eq : Eq String
string_eq = record { is_eq = str_eq; is_eq_iff = eq_iff }

instance abbrev pub nat_eq : Eq ℕ
nat_eq = record { is_eq = nat_beq; is_eq_iff = ==_iff }

infix 50 ◌==◌
abbrev pub ◌==◌ {ℓ} : {K : Type ℓ} ⦃keys : Eq K⦄ (x y : K) → Bool
◌==◌ ⦃keys⦄ x y = keys.is_eq x y

module _ {ℓ} {K : Type ℓ} ⦃keys : Eq K⦄ where
  -- The law of an instance, at two values: what a proof by cases lists.
  pub eq_iff_at : (x y : K) → (x == y ≡ true) ↔ (x ≡ y)
  eq_iff_at = keys.is_eq_iff

  pub eq_self : (x : K) → (x == x) ≡ true
  eq_self x = (keys.is_eq_iff x x).1 refl

module _ {ℓ} {A : Type ℓ} ⦃e : Eq A⦄ where
  abbrev list_beq : List A → List A → Bool
  list_beq [] [] = true
  list_beq (x ∷ xs) (y ∷ ys) = (x == y) && list_beq xs ys
  list_beq _ _ = false

  pub list_beq_iff : (xs ys : List A) → (list_beq xs ys ≡ true) ↔ (xs ≡ ys)
  list_beq_iff [] [] = ground arith
  list_beq_iff [] (y ∷ ys) = ground arith
  list_beq_iff (x ∷ xs) [] = ground arith
  list_beq_iff (x ∷ xs) (y ∷ ys) = ground (arith, eq_iff_at x y, list_beq_iff xs ys)

  instance abbrev pub list_eq : Eq (List A)
  list_eq = record { is_eq = list_beq; is_eq_iff = list_beq_iff }

  -- `contains` of a vector or of a hash set.
  abbrev pub contains : List A → A → Bool
  contains [] a = false
  contains (x ∷ xs) a = (x == a) || contains xs a
