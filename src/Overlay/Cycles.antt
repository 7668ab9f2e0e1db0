-- ===== src/Overlay/Cycles.antt =====
-- engine/src/overlay.rs: the recursion over `extends` ends, whatever the definitions are.
use dna_db.Prelude.{
  ℕ, zero, suc, ◌≤◌, ◌<◌, ◌≡◌, ◌≢◌, inl, inr, refl, ap, false, some, List, [], ◌∷◌, length, String,
  contains, ◌==◌, string_eq, eq_iff_at, if◌then◌else◌, arith, Bool-cases, Option-cases,
}
use dna_db.Prelude.Map.{get, contains_key}
use dna_db.Overlay.{
  OverlayDefinition, out_of_fuel, err, Registry, Result-cases, resolve_overlay_inner,
  resolve_overlay,
}

-- The definitions that are not being visited.
unfoldable unvisited : Registry → List String → ℕ
unvisited [] visiting = 0
unvisited ((name, def) ∷ defs) visiting =
    let rest = unvisited defs visiting in if contains visiting name then rest else suc rest

unvisited_all : (defs : Registry) → unvisited defs [] ≡ length defs
unfolding unvisited
unvisited_all [] = refl
unvisited_all ((name, def) ∷ defs) = ap suc (unvisited_all defs)

unvisited_mono :
    (defs : Registry) (name : String) (visiting : List String)
    → unvisited defs (name ∷ visiting) ≤ unvisited defs visiting
unfolding unvisited
unvisited_mono [] name visiting = omega arith
unvisited_mono ((n, def) ∷ defs) name visiting = ground (arith, unvisited_mono defs name visiting)

-- A visit of one more definition leaves fewer.
unvisited_less :
    (defs : Registry) (name : String) (visiting : List String) (def : OverlayDefinition)
    → get name defs ≡ some def
    → contains visiting name ≡ false
    → unvisited defs (name ∷ visiting) < unvisited defs visiting
unfolding unvisited get
unvisited_less [] name visiting def found new = ground (arith, found)
unvisited_less ((n, d) ∷ defs) name visiting def found new = elim (Bool-cases (n == name)) [
  | inl same ↦
      ground
        (arith, same, new, unvisited_mono defs name visiting, eq_iff_at n name, eq_iff_at name n)
  | inr other ↦ ground (
    arith,
    other,
    eq_iff_at n name,
    eq_iff_at name n,
    unvisited_less defs name visiting def (ground (arith, found, other)) new,
  )
]

resolve_inner_fuel :
    (fuel : ℕ) (defs : Registry) (name : String) (visiting : List String)
    → unvisited defs visiting < fuel
    → resolve_overlay_inner fuel defs name visiting ≢ err out_of_fuel
unfolding resolve_overlay_inner
resolve_inner_fuel zero defs name visiting enough h = absurd (omega arith)
resolve_inner_fuel (suc fuel) defs name visiting enough h = elim (Option-cases (get name defs)) [
  | inl q ↦ ground (arith, h, q)
  | inr (def, q) ↦ elim (Bool-cases (contains visiting name)) [
    | inl old ↦ ground (arith, h, q, old)
    | inr new ↦
        let less = unvisited_less defs name visiting def q new in
        elim (Option-cases def.extends) [
          | inl root ↦ ground (arith, h, q, new, root)
          | inr (parent, p) ↦ elim (Bool-cases (contains_key parent defs)) [
            | inr unresolved ↦ ground (arith, h, q, new, p, unresolved)
            | inl known ↦
                elim (Result-cases (resolve_overlay_inner fuel defs parent (name ∷ visiting))) [
                  | inl (x, r) ↦ ground (arith, h, q, new, p, known, r)
                  | inr (x, r) ↦ ground (
                    arith,
                    h,
                    q,
                    new,
                    p,
                    known,
                    r,
                    resolve_inner_fuel fuel defs parent (name ∷ visiting) (omega (arith, less)),
                  )
                ]
          ]
        ]
  ]
]

-- Resolving never runs out of rounds: each one visits a definition that was not being visited.
pub resolve_overlay_ends :
    (defs : Registry) (name : String) → resolve_overlay defs name ≢ err out_of_fuel
unfolding resolve_overlay
resolve_overlay_ends defs name h =
    elim (Result-cases (resolve_overlay_inner (suc (length defs)) defs name [])) [
      | inl (x, r) ↦ ground (arith, h, r)
      | inr (x, r) ↦ ground (
        arith,
        h,
        r,
        resolve_inner_fuel (suc (length defs)) defs name [] (omega (arith, unvisited_all defs)),
      )
    ]
