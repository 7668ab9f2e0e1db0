-- ===== src/Overlay/Masking.antt =====
-- engine/src/privacy.rs: what a masked record holds.
use dna_db.Prelude.{
  ◌≡◌, ap, ◌∙◌, true, none, List, [], ◌∷◌, map, String, string_eq, eq_iff_at, if◌then◌else◌, arith,
  Bool-cases, inl, inr,
}
use dna_db.Prelude.Map.{Map, get, get-insert}
use dna_db.Overlay.{
  ResolvedOverlay, is_field_visible, can_access_collection, mask_fields, mask_record_for_overlay,
  mask_records_for_overlay, visible, denied, collection_denied,
}

module _ {V : Type 0} where
  get-mask_fields :
      (overlay : ResolvedOverlay) (collection field : String) (record' : Map String V)
      → get field (mask_fields overlay collection record')
        ≡ (if is_field_visible overlay collection field then get field record' else none)
  unfolding mask_fields get
  get-mask_fields overlay collection field [] = ground arith
  get-mask_fields overlay collection field ((k, v) ∷ record') = ground (
    arith,
    get-mask_fields overlay collection field record',
    get-insert k field v (mask_fields overlay collection record'),
    eq_iff_at k field,
  )

  -- A record is masked only in an accessible collection, and then holds the visible fields with
  -- their values and no other field.
  pub mask_record_lem :
      (overlay : ResolvedOverlay) (collection field : String) (record' out : Map String V)
      → mask_record_for_overlay collection record' overlay ≡ visible out
      → (can_access_collection overlay collection ≡ true)
        × (get field out
            ≡ (if is_field_visible overlay collection field then get field record' else none))
  unfolding mask_record_for_overlay
  mask_record_lem overlay collection field record' out h =
      elim (Bool-cases (can_access_collection overlay collection)) [
        | inl open' ↦
            let made : out ≡ mask_fields overlay collection record' = ground (arith, h, open') in
            (open', ap (get field) made ∙ get-mask_fields overlay collection field record')
        | inr shut ↦ ground (arith, h, shut)
      ]

  -- A batch that is not empty is masked record by record, in order, where the collection is
  -- accessible, and is an error where it is not.
  pub mask_records_lem :
      (overlay : ResolvedOverlay) (collection : String) (r : Map String V)
      (rs : List (Map String V))
      → mask_records_for_overlay collection (r ∷ rs) overlay ≡ (
          if can_access_collection overlay collection
          then visible (map (mask_fields overlay collection) (r ∷ rs))
          else denied (collection_denied collection))
  unfolding mask_records_for_overlay mask_record_for_overlay
  mask_records_lem overlay collection r [] = ground arith
  mask_records_lem overlay collection r (s ∷ rs) =
      ground (arith, mask_records_lem overlay collection s rs)
