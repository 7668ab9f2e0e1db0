-- ===== src/Overlay/Inheritance.antt =====
-- engine/src/overlay.rs: an overlay that is resolved is the union of its definition and its ancestors'.
use dna_db.Prelude.{
  ℕ, zero, suc, ◌≡◌, refl, sym, ap, Bool, not, ◌&&◌, ◌||◌, none, some, List, [], ◌∷◌, ◌++◌, length,
  unwrap_or, String, contains, Eq, ◌==◌, string_eq, eq_iff_at, arith, subst, any, Option-cases, inl,
  inr,
}
use dna_db.Prelude.Map.{get, insert, get-insert}
use dna_db.Overlay.{
  OverlayAccess, OverlayMutation, mutation_eq, FieldMap, OverlayDefinition, ResolvedOverlay,
  can_mutate, can_access_collection, field_in, is_full, is_field_visible, ok, Registry,
  merge_field_map, extend_with, empty_base, Result-cases, resolve_overlay_inner, resolve_overlay,
}

-- The definition and its ancestors, along `extends`.
abbrev pub ancestors : ℕ → Registry → String → List OverlayDefinition
ancestors zero defs name = []
ancestors (suc fuel) defs name = elim (get name defs) [
  | none ↦ []
  | some def ↦
      def ∷ elim def.extends [ none ↦ [] | some parent_name ↦ ancestors fuel defs parent_name ]
]

-- Some entry of the map lists the field for the collection.
abbrev pub lists : String → String → FieldMap → Bool
lists collection field fields =
    any (λ entry. (entry.0 == collection) && contains entry.1 field) fields

abbrev pub includes : String → String → OverlayDefinition → Bool
includes collection field d =
    lists collection field d.include_fields || lists collection field d.additionally_include

abbrev pub excludes : String → String → OverlayDefinition → Bool
excludes collection field d = lists collection field d.exclude_fields

contains-append {ℓ} :
    {A : Type ℓ} ⦃e : Eq A⦄ (xs ys : List A) (a : A)
    → contains (xs ++ ys) a ≡ contains xs a || contains ys a
contains-append [] ys a = refl
contains-append (x ∷ xs) ys a = ground (arith, contains-append xs ys a)

field_in-merge :
    (target source : FieldMap) (collection field : String)
    → field_in (merge_field_map target source) collection field
      ≡ field_in target collection field || lists collection field source
unfolding merge_field_map
field_in-merge target [] collection field = ground arith
field_in-merge target ((c, fields) ∷ source) collection field = ground (
  arith,
  field_in-merge (insert c (unwrap_or (get c target) [] ++ fields) target) source collection field,
  get-insert c collection (unwrap_or (get c target) [] ++ fields) target,
  contains-append (unwrap_or (get collection target) []) fields field,
  eq_iff_at c collection,
)

-- The overlay is the union of the definitions.
pub record IsUnion (chain : List OverlayDefinition) (o : ResolvedOverlay) : Type 0 where
  pub mutations :
      (m : OverlayMutation) → contains o.mutations m ≡ any (λ d. contains d.mutations m) chain
  pub collections :
      (c : String) → contains o.collections c ≡ any (λ d. contains d.collections c) chain
  pub included : (c f : String) → field_in o.include_fields c f ≡ any (includes c f) chain
  pub excluded : (c f : String) → field_in o.exclude_fields c f ≡ any (excludes c f) chain

empty-IsUnion : (name : String) (access : OverlayAccess) → IsUnion [] (empty_base name access)
unfolding get
empty-IsUnion name access = record {
  mutations = λ m. refl;
  collections = λ c. refl;
  included = λ c f. refl;
  excluded = λ c f. refl;
}

extend_with-IsUnion :
    (def : OverlayDefinition) (chain : List OverlayDefinition) (base : ResolvedOverlay)
    → IsUnion chain base
    → IsUnion (def ∷ chain) (extend_with def base)
unfolding extend_with
extend_with-IsUnion def chain base u = record {
  mutations = λ m. ground (arith, contains-append base.mutations def.mutations m, u.mutations m);
  collections =
      λ c. ground (arith, contains-append base.collections def.collections c, u.collections c);
  included = λ c f. ground (
    arith,
    field_in-merge (merge_field_map base.include_fields def.include_fields) def.additionally_include
        c f,
    field_in-merge base.include_fields def.include_fields c f,
    u.included c f,
  );
  excluded = λ c f.
      ground (arith, field_in-merge base.exclude_fields def.exclude_fields c f, u.excluded c f);
}

-- What a resolution returns, and the definition that it starts from.
abbrev Resolved : ℕ → Registry → String → ResolvedOverlay → Type 0
Resolved fuel defs name o =
    IsUnion (ancestors fuel defs name) o
    × (def : OverlayDefinition) × (get name defs ≡ some def)
    × (o.access ≡ def.access)
    × (o.name ≡ def.name)

extended-Resolved :
    (fuel : ℕ) (defs : Registry) (name : String) (def : OverlayDefinition)
    (chain : List OverlayDefinition) (base o : ResolvedOverlay)
    → get name defs ≡ some def
    → ancestors fuel defs name ≡ def ∷ chain
    → IsUnion chain base
    → o ≡ extend_with def base
    → Resolved fuel defs name o
unfolding extend_with
extended-Resolved fuel defs name def chain base o found grown u made = (
  subst (λ r. IsUnion (ancestors fuel defs name) r) (sym made)
      (subst (λ ds. IsUnion ds (extend_with def base)) (sym grown)
        (extend_with-IsUnion def chain base u)),
  def,
  found,
  ap (λ (r : ResolvedOverlay). r.access) made,
  ap (λ (r : ResolvedOverlay). r.name) made,
)

resolve_inner-Resolved :
    (fuel : ℕ) (defs : Registry) (name : String) (visiting visited : List String)
    (o : ResolvedOverlay)
    → resolve_overlay_inner fuel defs name visiting ≡ ok (o, visited)
    → Resolved fuel defs name o
unfolding resolve_overlay_inner
resolve_inner-Resolved zero defs name visiting visited o h = ground (arith, h)
resolve_inner-Resolved (suc fuel) defs name visiting visited o h =
    elim (Option-cases (get name defs)) [
      | inl q ↦ ground (arith, h, q)
      | inr (def, q) ↦ elim (Option-cases def.extends) [
        | inl root ↦
            let made : o ≡ extend_with def (empty_base name def.access) =
              ground (arith, h, q, root) in
            extended-Resolved (suc fuel) defs name def [] (empty_base name def.access) o q
              (ground (arith, q, root)) (empty-IsUnion name def.access) made
        | inr (parent, p) ↦
            elim (Result-cases (resolve_overlay_inner fuel defs parent (name ∷ visiting))) [
              | inr (x, r) ↦ ground (arith, h, q, p, r)
              | inl ((base, v), r) ↦
                  let made : o ≡ extend_with def base = ground (arith, h, q, p, r) in
                  let inherited =
                    resolve_inner-Resolved fuel defs parent (name ∷ visiting) v base r in
                  extended-Resolved (suc fuel) defs name def (ancestors fuel defs parent) base o q
                    (ground (arith, q, p)) inherited.0 made
            ]
      ]
    ]

can_access-IsUnion :
    (chain : List OverlayDefinition) (o : ResolvedOverlay) (c : String)
    → IsUnion chain o
    → can_access_collection o c
      ≡ any (λ d. contains d.collections "*") chain || any (λ d. contains d.collections c) chain
unfolding can_access_collection
can_access-IsUnion chain o c u = rw (u.collections "*", u.collections c) refl

is_field_visible-IsUnion :
    (chain : List OverlayDefinition) (o : ResolvedOverlay) (c f : String)
    → IsUnion chain o
    → is_field_visible o c f
      ≡ can_access_collection o c
        && (is_full o.access || (not (any (excludes c f) chain) && any (includes c f) chain))
unfolding is_field_visible
is_field_visible-IsUnion chain o c f u = elim (Option-cases (get c o.include_fields)) [
  | inl q ↦ ground (arith, q, u.included c f, u.excluded c f)
  | inr (fields, q) ↦ ground (arith, q, u.included c f, u.excluded c f)
]

resolve-Resolved :
    (defs : Registry) (name : String) (o : ResolvedOverlay)
    → resolve_overlay defs name ≡ ok o
    → Resolved (suc (length defs)) defs name o
unfolding resolve_overlay
resolve-Resolved defs name o h =
    elim (Result-cases (resolve_overlay_inner (suc (length defs)) defs name [])) [
      | inl ((overlay, visited), r) ↦
          let same : overlay ≡ o = ground (arith, h, r) in
          subst (Resolved (suc (length defs)) defs name) same
            (resolve_inner-Resolved (suc (length defs)) defs name [] visited overlay r)
      | inr (x, r) ↦ ground (arith, h, r)
    ]

-- An overlay that is resolved has the name and the access of its definition. It allows the mutations
-- and the collections of the definition and of all its ancestors together. A field is visible where
-- the collection is accessible and either the access is full, or some definition of the chain
-- includes the field and none excludes it.
pub resolve_overlay-union :
    (defs : Registry) (name : String) (o : ResolvedOverlay) (m : OverlayMutation) (c f : String)
    → resolve_overlay defs name ≡ ok o
    → let chain = ancestors (suc (length defs)) defs name in
      ((def : OverlayDefinition) × (get name defs ≡ some def)
        × (o.access ≡ def.access)
        × (o.name ≡ def.name))
      × (can_mutate o m ≡ any (λ d. contains d.mutations m) chain)
      × (can_access_collection o c
          ≡ any (λ d. contains d.collections "*") chain
            || any (λ d. contains d.collections c) chain)
      × (is_field_visible o c f
          ≡ can_access_collection o c
            && (is_full o.access || (not (any (excludes c f) chain) && any (includes c f) chain)))
unfolding can_mutate
resolve_overlay-union defs name o m c f h =
    let (u, def, found, access, named) = resolve-Resolved defs name o h in
    (
      (def, found, access, named),
      u.mutations m,
      can_access-IsUnion (ancestors (suc (length defs)) defs name) o c u,
      is_field_visible-IsUnion (ancestors (suc (length defs)) defs name) o c f u,
    )
