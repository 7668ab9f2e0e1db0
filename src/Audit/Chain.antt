-- ===== src/Audit/Chain.antt =====
-- engine/src/audit.rs: a log that was only appended to passes the verification.
use dna_db.Prelude.{
  ℕ, ◌+◌, ◌≡◌, refl, sym, ap, ◌∙◌, true, Option, none, some, List, [], ◌∷◌, ◌++◌, map, String, ◌==◌,
  string_eq, eq_self, arith, subst, Bool-cases, ◌⊎◌, inl, inr,
}
use mathlib.Core.List.{append_assoc, append-nil}
use dna_db.Audit.{
  AuditWrite, AuditEntry, AuditError, Result, ok, err, ◌>>=◌, Payload, same_hash, last_hash,
  compute_entry_hash, append, verify_from, verify_integrity,
}

same_hash_self : (h : Option String) → same_hash h h ≡ true
same_hash_self none = refl
same_hash_self (some a) = eq_self a

-- The hash before the next entry of a chain that starts behind `first`.
abbrev pub hash_after : Option String → List AuditEntry → Option String
hash_after first [] = first
hash_after first (e ∷ es) = hash_after (some e.entry_hash) es

hash_after-last :
    (first : Option String) (e : AuditEntry) (es : List AuditEntry)
    → hash_after first (e ∷ es) ≡ last_hash (e ∷ es)
hash_after-last first e [] = refl
hash_after-last first e (d ∷ ds) = hash_after-last (some e.entry_hash) d ds

pub hash_after-none : (es : List AuditEntry) → hash_after none es ≡ last_hash es
hash_after-none [] = refl
hash_after-none (e ∷ es) = hash_after-last none e es

pub Result-cases {ℓ} :
    {A : Type ℓ} (r : Result A) → ((a : A) × (r ≡ ok a)) ⊎ ((x : AuditError) × (r ≡ err x))
Result-cases (ok a) = inl (a, refl)
Result-cases (err x) = inr (x, refl)

map-append :
    (es : List AuditEntry) (e : AuditEntry)
    → map (λ (d : AuditEntry). d.write) (es ++ (e ∷ []))
      ≡ map (λ (d : AuditEntry). d.write) es ++ (e.write ∷ [])
map-append [] e = refl
map-append (d ∷ ds) e = ap (λ (ws : List AuditWrite). d.write ∷ ws) (map-append ds e)

module _ (bincode_serialize : Payload → Option (List ℕ)) (blake3_hex : List ℕ → String) where
  verify_from_step :
      (idx : ℕ) (expected : Option String) (e : AuditEntry) (es : List AuditEntry)
      → e.prev_hash ≡ expected
      → compute_entry_hash bincode_serialize blake3_hex e.prev_hash e.audit_id e.write
        ≡ ok e.entry_hash
      → verify_from bincode_serialize blake3_hex idx expected (e ∷ es)
        ≡ verify_from bincode_serialize blake3_hex (idx + 1) (some e.entry_hash) es
  unfolding verify_from
  verify_from_step idx expected e es linked hashed =
      ground (arith, linked, hashed, same_hash_self expected, eq_self e.entry_hash)

  verify_nil :
      (idx : ℕ) (expected : Option String)
      → verify_from bincode_serialize blake3_hex idx expected [] ≡ ok tt
  unfolding verify_from
  verify_nil idx expected = refl

  -- A log that is verified is so because of its first entry and of the rest.
  verify_from_head :
      (idx : ℕ) (expected : Option String) (d : AuditEntry) (ds es : List AuditEntry)
      → verify_from bincode_serialize blake3_hex idx expected (d ∷ ds) ≡ ok tt
      → verify_from bincode_serialize blake3_hex idx expected (d ∷ es)
        ≡ verify_from bincode_serialize blake3_hex (idx + 1) (some d.entry_hash) es
  unfolding verify_from
  verify_from_head idx expected d ds es h = elim (Bool-cases (same_hash d.prev_hash expected)) [
    | inr unlinked ↦ ground (arith, h, unlinked)
    | inl linked ↦
        elim (Result-cases
          (compute_entry_hash bincode_serialize blake3_hex d.prev_hash d.audit_id d.write)) [
            | inr (x, q) ↦ ground (arith, h, linked, q)
            | inl (recomputed, q) ↦ elim (Bool-cases (recomputed == d.entry_hash)) [
              | inl right ↦ ground (arith, linked, q, right)
              | inr wrong ↦ ground (arith, h, linked, q, wrong)
            ]
          ]
  ]

  verify_from-append :
      (idx : ℕ) (expected : Option String) (es : List AuditEntry) (e : AuditEntry)
      → e.prev_hash ≡ hash_after expected es
      → compute_entry_hash bincode_serialize blake3_hex e.prev_hash e.audit_id e.write
        ≡ ok e.entry_hash
      → verify_from bincode_serialize blake3_hex idx expected es ≡ ok tt
      → verify_from bincode_serialize blake3_hex idx expected (es ++ (e ∷ [])) ≡ ok tt
  verify_from-append idx expected [] e linked hashed verified =
      verify_from_step idx expected e [] linked hashed ∙ verify_nil (idx + 1) (some e.entry_hash)
  verify_from-append idx expected (d ∷ ds) e linked hashed verified =
      verify_from_head idx expected d ds (ds ++ (e ∷ [])) verified
      ∙ verify_from-append (idx + 1) (some d.entry_hash) ds e linked hashed
          (sym (verify_from_head idx expected d ds ds verified) ∙ verified)

  append-verify :
      (es es' : List AuditEntry) (write : AuditWrite) (audit_id : String)
      → verify_integrity bincode_serialize blake3_hex es ≡ ok tt
      → append bincode_serialize blake3_hex es write audit_id ≡ ok es'
      → (verify_integrity bincode_serialize blake3_hex es' ≡ ok tt)
        × (map (λ e. e.write) es' ≡ map (λ e. e.write) es ++ (write ∷ []))
  unfolding append verify_integrity
  append-verify es es' write audit_id verified h =
      elim (Result-cases
        (compute_entry_hash bincode_serialize blake3_hex (last_hash es) audit_id write)) [
          | inr (x, q) ↦ ground (arith, h, q)
          | inl (hash, q) ↦
              let e : AuditEntry = record {
                audit_id = audit_id;
                write = write;
                prev_hash = last_hash es;
                entry_hash = hash;
              } in
              let made : es' ≡ es ++ (e ∷ []) = ground (arith, h, q) in
              (
                rw made (verify_from-append 0 none es e (sym (hash_after-none es)) q verified),
                rw made (map-append es e),
              )
        ]

  -- The appends of a run, each with the text of its fresh id.
  abbrev pub appends : List AuditEntry → List (AuditWrite × String) → Result (List AuditEntry)
  appends es [] = ok es
  appends es ((write, audit_id) ∷ ws) =
      append bincode_serialize blake3_hex es write audit_id >>= λ es'. appends es' ws

  appends-verify_from :
      (es es' : List AuditEntry) (ws : List (AuditWrite × String))
      → verify_integrity bincode_serialize blake3_hex es ≡ ok tt
      → appends es ws ≡ ok es'
      → (verify_integrity bincode_serialize blake3_hex es' ≡ ok tt)
        × (map (λ e. e.write) es' ≡ map (λ e. e.write) es ++ map (λ w. w.0) ws)
  appends-verify_from es es' [] verified h =
      let same : es ≡ es' = ground (arith, h) in
      (
        subst (λ xs. verify_integrity bincode_serialize blake3_hex xs ≡ ok tt) same verified,
        ap (map (λ e. e.write)) (sym same) ∙ sym (append-nil (map (λ e. e.write) es)),
      )
  appends-verify_from es es' ((write, audit_id) ∷ ws) verified h =
      elim (Result-cases (append bincode_serialize blake3_hex es write audit_id)) [
        | inr (x, q) ↦ ground (arith, h, q)
        | inl (middle, q) ↦
            let (verified', writes) = append-verify es middle write audit_id verified q in
            let rest : appends middle ws ≡ ok es' = ground (arith, h, q) in
            let (done, all_writes) = appends-verify_from middle es' ws verified' rest in
            (
              done,
              all_writes
                  ∙ ap (λ xs. xs ++ map (λ w. w.0) ws) writes
                  ∙ append_assoc (map (λ e. e.write) es) (write ∷ []) (map (λ w. w.0) ws),
            )
      ]

  -- A log that was made by appends alone, whatever their ids are, passes the verification, and holds
  -- the writes in their order.
  pub appends-verify :
      (ws : List (AuditWrite × String)) (es : List AuditEntry)
      → appends [] ws ≡ ok es
      → (verify_integrity bincode_serialize blake3_hex es ≡ ok tt)
        × (map (λ e. e.write) es ≡ map (λ w. w.0) ws)
  appends-verify ws es h =
      appends-verify_from [] es ws (unfold verify_integrity in verify_nil 0 none) h
