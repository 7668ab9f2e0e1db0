-- ===== src/Query/Index/Hashes.antt =====
-- engine/src/query/index.rs: an exact lookup finds what a scan over the introns would find.
use dna_db.Prelude.{
  ℕ, ◌≡◌, refl, sym, ap, ◌∙◌, String, Bool, true, false, not, none, some, List, [], ◌∷◌, ◌++◌,
  unwrap_or, ◌==◌, nat_eq, string_eq, list_eq, arith, if◌then◌else◌, eq_iff_at, Bool-cases,
  Option-cases, inl, inr,
}
use mathlib.Core.List.{append_assoc, append-nil}
use dna_db.Prelude.Map.{Map, get, get-insert}
use dna_db.Model.{Strand, Intron}
use dna_db.Query.Index.{
  Signature, intron_payload_bytes, push_at, index_introns, index_strands, build_exact_hash_index,
  exact_lookup_signatures,
}

-- The signature of the strand, once for each intron of the field that holds the value.
abbrev pub hits_in : String → List ℕ → Strand → List Intron → List Signature
hits_in field value s [] = []
hits_in field value s (i ∷ introns) =
    let rest = hits_in field value s introns in
    if not (i.field_name == field) then rest else elim (intron_payload_bytes s i) [
      | none ↦ rest
      | some v ↦ if v == value then s.signature ∷ rest else rest
    ]

-- What a scan of a strand finds; the field `_signature` is the signature itself.
abbrev pub hits_of : String → List ℕ → Strand → List Signature
hits_of field value s =
    if field == "_signature"
    then (if s.signature == value then s.signature ∷ [] else [])
    else hits_in field value s s.introns

abbrev pub hits : String → List ℕ → List Strand → List Signature
hits field value [] = []
hits field value (s ∷ strands) = hits_of field value s ++ hits field value strands

lookup-push_at :
    (key value : List ℕ) (signature : Signature) (index : Map (List ℕ) (List Signature))
    → exact_lookup_signatures (push_at key signature index) value
      ≡ exact_lookup_signatures index value ++ (if key == value then signature ∷ [] else [])
unfolding exact_lookup_signatures push_at
lookup-push_at key value signature index = ground (
  arith,
  get-insert key value (unwrap_or (get key index) [] ++ (signature ∷ [])) index,
  eq_iff_at key value,
  append-nil (unwrap_or (get value index) []),
)

pushed :
    (b : Bool) (x : Signature) (rest : List Signature)
    → (if b then x ∷ [] else []) ++ rest ≡ (if b then x ∷ rest else rest)
pushed true x rest = refl
pushed false x rest = refl

lookup-index_introns :
    (field : String) (value : List ℕ) (s : Strand) (introns : List Intron)
    (out : Map (List ℕ) (List Signature))
    → exact_lookup_signatures (index_introns field s introns out) value
      ≡ exact_lookup_signatures out value ++ hits_in field value s introns
unfolding index_introns
lookup-index_introns field value s [] out = sym (append-nil (exact_lookup_signatures out value))
lookup-index_introns field value s (i ∷ introns) out =
    let rest = hits_in field value s introns in
    elim (Bool-cases (i.field_name == field)) [
      | inl here ↦ elim (Option-cases (intron_payload_bytes s i)) [
        | inl gone ↦ ground (arith, here, gone, lookup-index_introns field value s introns out)
        | inr (v, found) ↦
            let one : List Signature = if v == value then s.signature ∷ [] else [] in
            let joined : (exact_lookup_signatures out value ++ one) ++ rest
                ≡ exact_lookup_signatures out value
                  ++ (if v == value then s.signature ∷ rest else rest) =
              append_assoc (exact_lookup_signatures out value) one rest
              ∙ ap (◌++◌ (exact_lookup_signatures out value))
                  (pushed (v == value) s.signature rest) in
            rw (here, found)
              (lookup-index_introns field value s introns (push_at v s.signature out)
                ∙ ap (λ xs. xs ++ rest) (lookup-push_at v value s.signature out)
                ∙ joined)
      ]
      | inr other ↦ rw other (lookup-index_introns field value s introns out)
    ]

lookup-index_strands :
    (field : String) (value : List ℕ) (strands : List Strand) (out : Map (List ℕ) (List Signature))
    → exact_lookup_signatures (index_strands field strands out) value
      ≡ exact_lookup_signatures out value ++ hits field value strands
unfolding index_strands
lookup-index_strands field value [] out = sym (append-nil (exact_lookup_signatures out value))
lookup-index_strands field value (s ∷ strands) out = elim (Bool-cases (field == "_signature")) [
  | inl own ↦ rw own (
      lookup-index_strands field value strands (push_at s.signature s.signature out)
      ∙ ap (λ xs. xs ++ hits field value strands) (lookup-push_at s.signature value s.signature out)
      ∙ append_assoc (exact_lookup_signatures out value) _ (hits field value strands))
  | inr named ↦ rw named (
      lookup-index_strands field value strands (index_introns field s s.introns out)
      ∙ ap (λ xs. xs ++ hits field value strands) (lookup-index_introns field value s s.introns out)
      ∙ append_assoc (exact_lookup_signatures out value) _ (hits field value strands))
]

-- An exact lookup in an index that was built from strands gives, in their order, the signatures of the
-- strands that have the value: under `_signature` as their signature, under any other field as the
-- bytes of an intron of that field, once for each.
pub exact_lookup-build :
    (strands : List Strand) (field : String) (value : List ℕ)
    → exact_lookup_signatures (build_exact_hash_index strands field) value
      ≡ hits field value strands
exact_lookup-build strands field value =
    unfold build_exact_hash_index exact_lookup_signatures get in
    lookup-index_strands field value strands []
