-- ===== src/Overlay.antt =====
-- engine/src/overlay.rs and engine/src/privacy.rs: overlays, their inheritance, and the masking of
-- records. A hash set is a list that is asked with `contains`, a record's values are a parameter.
pub mod Inheritance
pub mod Cycles
pub mod Masking
pub mod Session
mod Tests
use dna_db.Prelude.{
  ℕ, zero, suc, ◌≡◌, ◌↔◌, ◌⊎◌, inl, inr, refl, Bool, true, false, not, ◌&&◌, ◌||◌, Option, none,
  some, List, [], ◌∷◌, ◌++◌, length, retain, is_some, unwrap_or, String, contains, Eq, ◌==◌,
  string_eq, if◌then◌else◌, arith,
}
use dna_db.Auth.{AuthError}
use dna_db.Prelude.Map.{Map, get, insert, contains_key}

pub data OverlayAccess : Type 0 where
  full partial : OverlayAccess

pub data OverlayMutation : Type 0 where
  read write delete : OverlayMutation

abbrev mutation_beq : OverlayMutation → OverlayMutation → Bool
mutation_beq read read = true
mutation_beq write write = true
mutation_beq delete delete = true
mutation_beq _ _ = false

pub mutation_beq_iff : (m n : OverlayMutation) → (mutation_beq m n ≡ true) ↔ (m ≡ n)
mutation_beq_iff read read = ground arith
mutation_beq_iff read write = ground arith
mutation_beq_iff read delete = ground arith
mutation_beq_iff write read = ground arith
mutation_beq_iff write write = ground arith
mutation_beq_iff write delete = ground arith
mutation_beq_iff delete read = ground arith
mutation_beq_iff delete write = ground arith
mutation_beq_iff delete delete = ground arith

instance abbrev pub mutation_eq : Eq OverlayMutation
mutation_eq = record { is_eq = mutation_beq; is_eq_iff = mutation_beq_iff }

-- The fields that are listed for each collection.
abbrev pub FieldMap : Type 0
FieldMap = Map String (List String)

pub record OverlayDefinition : Type 0 where
  pub name : String
  pub access : OverlayAccess
  pub collections : List String
  pub include_fields : FieldMap
  pub exclude_fields : FieldMap
  pub mutations : List OverlayMutation
  pub extends : Option String
  pub additionally_include : FieldMap

abbrev pub full_overlay : String → OverlayDefinition
full_overlay name = record {
  name = name;
  access = full;
  collections = "*" ∷ [];
  include_fields = [];
  exclude_fields = [];
  mutations = read ∷ write ∷ delete ∷ [];
  extends = none;
  additionally_include = [];
}

pub record ResolvedOverlay : Type 0 where
  pub name : String
  pub access : OverlayAccess
  pub collections : List String
  pub include_fields : FieldMap
  pub exclude_fields : FieldMap
  pub mutations : List OverlayMutation

unfoldable pub can_mutate : ResolvedOverlay → OverlayMutation → Bool
can_mutate o mutation = contains o.mutations mutation

unfoldable pub can_access_collection : ResolvedOverlay → String → Bool
can_access_collection o collection = contains o.collections "*" || contains o.collections collection

-- The field is listed for the collection, in a map that is asked with `get`.
abbrev pub field_in : FieldMap → String → String → Bool
field_in fields collection field = contains (unwrap_or (get collection fields) []) field

abbrev pub is_full : OverlayAccess → Bool
is_full full = true
is_full partial = false

unfoldable pub is_field_visible : ResolvedOverlay → String → String → Bool
unfolding can_access_collection
is_field_visible o collection field =
    if not (can_access_collection o collection)
    then false
    else if is_full o.access
    then true
    else if field_in o.exclude_fields collection field
    then false
    else elim (get collection o.include_fields) [
      | none ↦ false
      | some allowed ↦ contains allowed field
    ]

-- `out_of_fuel` is no value of the source: the recursion of the model ran out of rounds.
pub data OverlayError : Type 0 where
  overlay_not_found inheritance_cycle : String → OverlayError
  unresolved_parent : String → String → OverlayError
  out_of_fuel : OverlayError
  auth_error : AuthError → OverlayError

pub data Result {ℓ} (A : Type ℓ) : Type ℓ where
  ok : A → Result A
  err : OverlayError → Result A

infixl 5 ◌>>=◌
abbrev pub ◌>>=◌ {ℓ κ} : {A : Type ℓ} {B : Type κ} → Result A → (A → Result B) → Result B
ok a >>= f = f a
err e >>= f = err e

pub Result-cases {ℓ} :
    {A : Type ℓ} (r : Result A) → ((a : A) × (r ≡ ok a)) ⊎ ((e : OverlayError) × (r ≡ err e))
Result-cases (ok a) = inl (a, refl)
Result-cases (err e) = inr (e, refl)

abbrev pub Registry : Type 0
Registry = Map String OverlayDefinition

unfoldable pub define_overlay : OverlayDefinition → Registry → Registry
define_overlay overlay defs = insert overlay.name overlay defs

-- `target.entry(collection).or_default().extend(fields)` for every entry of `source`.
unfoldable pub merge_field_map : FieldMap → FieldMap → FieldMap
merge_field_map target [] = target
merge_field_map target ((collection, fields) ∷ source) =
    merge_field_map (insert collection (unwrap_or (get collection target) [] ++ fields) target)
      source

-- What the definition adds to `base`.
unfoldable pub extend_with : OverlayDefinition → ResolvedOverlay → ResolvedOverlay
unfolding merge_field_map
extend_with def base = record {
  name = def.name;
  access = def.access;
  collections = base.collections ++ def.collections;
  mutations = base.mutations ++ def.mutations;
  include_fields =
      merge_field_map (merge_field_map base.include_fields def.include_fields)
        def.additionally_include;
  exclude_fields = merge_field_map base.exclude_fields def.exclude_fields;
}

abbrev pub empty_base : String → OverlayAccess → ResolvedOverlay
empty_base name access = record {
  name = name;
  access = access;
  collections = [];
  include_fields = [];
  exclude_fields = [];
  mutations = [];
}

-- The overlay, and the set `visiting` as the call leaves it.
unfoldable pub resolve_overlay_inner :
    ℕ → Registry → String → List String → Result (ResolvedOverlay × List String)
resolve_overlay_inner zero defs name visiting = err out_of_fuel
resolve_overlay_inner (suc fuel) defs name visiting = elim (get name defs) [
  | none ↦ err (overlay_not_found name)
  | some def ↦ if contains visiting name then err (inheritance_cycle name) else elim def.extends [
    | none ↦ ok (
      extend_with def (empty_base name def.access),
      retain (λ n. not (n == name)) (name ∷ visiting),
    )
    | some parent_name ↦
        if not (contains_key parent_name defs)
        then err (unresolved_parent name parent_name)
        else (do
          (base, visited) ← resolve_overlay_inner fuel defs parent_name (name ∷ visiting)
          ok (extend_with def base, retain (λ n. not (n == name)) visited))
  ]
]

unfoldable pub resolve_overlay : Registry → String → Result ResolvedOverlay
unfolding resolve_overlay_inner
resolve_overlay defs name = do
  (overlay, visited) ← resolve_overlay_inner (suc (length defs)) defs name []
  ok overlay

-- engine/src/privacy.rs
pub data PrivacyError : Type 0 where
  collection_denied : String → PrivacyError

pub data Masked {ℓ} (A : Type ℓ) : Type ℓ where
  visible : A → Masked A
  denied : PrivacyError → Masked A

module _ {V : Type 0} where
  -- The loop over the fields.
  unfoldable pub mask_fields : ResolvedOverlay → String → Map String V → Map String V
  unfolding is_field_visible
  mask_fields overlay collection [] = []
  mask_fields overlay collection ((k, v) ∷ record') =
      let out = mask_fields overlay collection record' in
      if is_field_visible overlay collection k then insert k v out else out

  unfoldable pub mask_record_for_overlay :
      String → Map String V → ResolvedOverlay → Masked (Map String V)
  unfolding mask_fields can_access_collection
  mask_record_for_overlay collection record' overlay =
      if not (can_access_collection overlay collection)
      then denied (collection_denied collection)
      else visible (mask_fields overlay collection record')

  -- `collect` into a `Result`: the first error, or all the records.
  unfoldable pub mask_records_for_overlay :
      String → List (Map String V) → ResolvedOverlay → Masked (List (Map String V))
  unfolding mask_record_for_overlay
  mask_records_for_overlay collection [] overlay = visible []
  mask_records_for_overlay collection (r ∷ rs) overlay =
      elim (mask_record_for_overlay collection r overlay) [
        | denied e ↦ denied e
        | visible out ↦ elim (mask_records_for_overlay collection rs overlay) [
          | denied e ↦ denied e
          | visible outs ↦ visible (out ∷ outs)
        ]
      ]
