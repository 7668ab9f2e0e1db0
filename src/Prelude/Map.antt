-- ===== src/Prelude/Map.antt =====
-- Rust's HashMap as an association list with one value for a key. The program never depends on the
-- order in which a map is walked.
use mathlib.Core.Path.{◌≡◌, refl, sym, ap, ◌∙◌}
use mathlib.Core.Logic.{inl, inr}
use mathlib.Core.Bool.{Bool}
use mathlib.Core.List.{List, [], ◌∷◌}
use mathlib.Core.Option.{Option, none, some, none-ne-some}
use mathlib.Core.Option
use native.Mathlib.Omega.{arith}
use dna_db.Prelude.Tests.{if◌then◌else◌, Option-cases}
use dna_db.Prelude.Lists.{is_some}
use dna_db.Prelude.Equality.{Eq, ◌==◌, eq_iff_at}

abbrev pub Map {ℓ κ} : Type ℓ → Type κ → Type (ℓ ⊔ κ)
Map K V = List (K × V)

module _ {ℓ κ} {K : Type ℓ} {V : Type κ} ⦃e : Eq K⦄ where
  unfoldable pub get : K → Map K V → Option V
  get k [] = none
  get k ((j, v) ∷ m) = if j == k then some v else get k m

  unfoldable pub insert : K → V → Map K V → Map K V
  insert k v [] = (k, v) ∷ []
  insert k v ((j, w) ∷ m) = if j == k then (k, v) ∷ m else (j, w) ∷ insert k v m

  unfoldable pub remove : K → Map K V → Map K V
  remove k [] = []
  remove k ((j, w) ∷ m) = let rest = remove k m in if j == k then rest else (j, w) ∷ rest

  abbrev pub contains_key : K → Map K V → Bool
  contains_key k m = is_some (get k m)

  pub get-insert :
      (k j : K) (v : V) (m : Map K V) → get j (insert k v m) ≡ (if k == j then some v else get j m)
  unfolding get insert
  get-insert k j v [] = refl
  get-insert k j v ((i, w) ∷ m) =
      ground (arith, eq_iff_at k j, eq_iff_at i k, eq_iff_at i j, get-insert k j v m)

  pub get-remove : (k j : K) (m : Map K V) → get j (remove k m) ≡ (if k == j then none else get j m)
  unfolding get remove
  get-remove k j [] = ground arith
  get-remove k j ((i, w) ∷ m) =
      ground (arith, eq_iff_at k j, eq_iff_at i k, eq_iff_at i j, get-remove k j m)

module _ {ℓ κ} {K : Type ℓ} {V : Type κ} where
  -- `for v in m.values_mut() { *v = f(*v) }`
  unfoldable pub map_values : (V → V) → Map K V → Map K V
  map_values f [] = []
  map_values f ((j, w) ∷ m) = (j, f w) ∷ map_values f m

  unfoldable pub values : Map K V → List V
  values [] = []
  values ((j, w) ∷ m) = w ∷ values m

module _ {ℓ κ} {K : Type ℓ} {V : Type κ} ⦃e : Eq K⦄ where
  pub get-map_values :
      (f : V → V) (k : K) (m : Map K V) → get k (map_values f m) ≡ Option.map f (get k m)
  unfolding get map_values
  get-map_values f k [] = refl
  get-map_values f k ((j, w) ∷ m) = ground (arith, get-map_values f k m)

  -- What a mapped map holds comes from the map.
  pub get-map_values-some :
      (f : V → V) (k : K) (m : Map K V) {w : V}
      → get k (map_values f m) ≡ some w
      → (v : V) × (get k m ≡ some v) × (f v ≡ w)
  get-map_values-some f k m {w} h = elim (Option-cases (get k m)) [
    | inl q ↦
        let gone : none ≡ some w = sym (get-map_values f k m ∙ ap (Option.map f) q) ∙ h in
        absurd (none-ne-some w gone)
    | inr (v, q) ↦
        let found : some (f v) ≡ some w = sym (get-map_values f k m ∙ ap (Option.map f) q) ∙ h in
        (v, q, cc found)
  ]
