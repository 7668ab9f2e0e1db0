-- ===== src/Audit/Tampering.antt =====
-- engine/src/audit.rs: what it takes to alter a log behind its last hash.
use dna_db.Prelude.{
  ℕ, ◌+◌, ◌≡◌, ◌≢◌, ◌⊎◌, inl, inr, refl, sym, ap, ◌∙◌, true, Option, none, some, List, [], ◌∷◌,
  length, String, Eq, ◌==◌, string_eq, nat_eq, list_eq, eq_iff_at, arith, Bool-cases, Option-cases,
  ◌↔◌,
}
use dna_db.Audit.{
  AuditWrite, AuditEntry, ok, Payload, same_hash, last_hash, compute_entry_hash, verify_from,
  verify_integrity,
}
use dna_db.Audit.Chain.{Result-cases, hash_after, hash_after-none}

same_hash_iff : (h k : Option String) → (same_hash h k ≡ true) ↔ (h ≡ k)
same_hash_iff none none = ground arith
same_hash_iff none (some b) = ground arith
same_hash_iff (some a) none = ground arith
same_hash_iff (some a) (some b) = ground (arith, eq_iff_at a b)

module _ {ℓ κ} {A : Type ℓ} {B : Type κ} where
  -- Equality of pairs is decided where that of the parts is.
  pair_decided :
      (p q : A × B) → (p.0 ≡ q.0) ⊎ (p.0 ≢ q.0) → (p.1 ≡ q.1) ⊎ (p.1 ≢ q.1) → (p ≡ q) ⊎ (p ≢ q)
  pair_decided p q (inl e) (inl f) = inl (cc (e, f))
  pair_decided p q (inl e) (inr n) = inr (λ h. n (ap (λ (x : A × B). x.1) h))
  pair_decided p q (inr n) d = inr (λ h. n (ap (λ (x : A × B). x.0) h))

decided {ℓ} : {K : Type ℓ} ⦃e : Eq K⦄ (x y : K) → (x ≡ y) ⊎ (x ≢ y)
decided x y = elim (Bool-cases (x == y)) [
  | inl same ↦ inl ((eq_iff_at x y).0 same)
  | inr other ↦ inr (λ e. ground (arith, other, e, eq_iff_at x y))
]

hashes_decided : (h k : Option String) → (h ≡ k) ⊎ (h ≢ k)
hashes_decided h k = elim (Bool-cases (same_hash h k)) [
  | inl same ↦ inl ((same_hash_iff h k).0 same)
  | inr other ↦ inr (λ e. ground (arith, other, e, same_hash_iff h k))
]

abbrev Fields : Type 0
Fields =
    ℕ × (String × (String × (String × (String × (ℕ × (List String × (String × (String × ℕ))))))))

abbrev fields : AuditWrite → Fields
fields w = (
  w.timestamp_ns,
  (
    w.identity_id,
    (
      w.overlay,
      (
        w.operation,
        (
          w.collection,
          (w.strand_count, (w.fields_returned, (w.query_pattern, (w.client_ip, w.duration_ms)))),
        ),
      ),
    ),
  ),
)

abbrev of_fields : Fields → AuditWrite
of_fields (t, (i, (o, (p, (c, (n, (f, (q, (ip, d))))))))) = record {
  timestamp_ns = t;
  identity_id = i;
  overlay = o;
  operation = p;
  collection = c;
  strand_count = n;
  fields_returned = f;
  query_pattern = q;
  client_ip = ip;
  duration_ms = d;
}

fields_decided : (w v : AuditWrite) → (fields w ≡ fields v) ⊎ (fields w ≢ fields v)
fields_decided w v = pair_decided _ _ (decided w.timestamp_ns v.timestamp_ns) (
    pair_decided _ _ (decided w.identity_id v.identity_id) (
      pair_decided _ _ (decided w.overlay v.overlay) (
        pair_decided _ _ (decided w.operation v.operation) (
          pair_decided _ _ (decided w.collection v.collection) (
            pair_decided _ _ (decided w.strand_count v.strand_count) (
              pair_decided _ _ (decided w.fields_returned v.fields_returned) (
                pair_decided _ _ (decided w.query_pattern v.query_pattern) (
                  pair_decided _ _ (decided w.client_ip v.client_ip)
                    (decided w.duration_ms v.duration_ms)))))))))

writes_decided : (w v : AuditWrite) → (w ≡ v) ⊎ (w ≢ v)
writes_decided w v = elim (fields_decided w v) [
  | inl same ↦ inl (ap of_fields same)
  | inr other ↦ inr (λ e. other (ap fields e))
]

-- A payload as a pair of pairs.
abbrev nested : Payload → Option String × (String × AuditWrite)
nested p = (p.0, (p.1, p.2))

abbrev of_nested : Option String × (String × AuditWrite) → Payload
of_nested n = (n.0, n.1.0, n.1.1)

nested_decided : (p q : Payload) → (nested p ≡ nested q) ⊎ (nested p ≢ nested q)
nested_decided p q =
    pair_decided (nested p) (nested q) (hashes_decided p.0 q.0)
      (pair_decided _ _ (decided p.1 q.1) (writes_decided p.2 q.2))

payloads_decided : (p q : Payload) → (p ≡ q) ⊎ (p ≢ q)
payloads_decided p q = elim (nested_decided p q) [
  | inl same ↦ inl (ap of_nested same)
  | inr other ↦ inr (λ e. other (ap nested e))
]

module _ (bincode_serialize : Payload → Option (List ℕ)) (blake3_hex : List ℕ → String) where
  -- What an entry says, without its own hash.
  abbrev pub said : AuditEntry → Payload
  said e = (e.prev_hash, e.audit_id, e.write)

  -- Two entries that say different things, all of which is serialised, to bytes of one hash.
  pub record Collision : Type 0 where
    pub one : AuditEntry
    pub other : AuditEntry
    pub differ : said one ≢ said other
    pub one_bytes : List ℕ
    pub other_bytes : List ℕ
    pub one_serialized : bincode_serialize (said one) ≡ some one_bytes
    pub other_serialized : bincode_serialize (said other) ≡ some other_bytes
    pub one_hash : blake3_hex one_bytes ≡ blake3_hex other_bytes

  hashed_bytes :
      (e : AuditEntry)
      → compute_entry_hash bincode_serialize blake3_hex e.prev_hash e.audit_id e.write
        ≡ ok e.entry_hash
      → (bytes : List ℕ) × (bincode_serialize (said e) ≡ some bytes)
        × (blake3_hex bytes ≡ e.entry_hash)
  unfolding compute_entry_hash
  hashed_bytes e h = elim (Option-cases (bincode_serialize (said e))) [
    | inl n ↦ ground (arith, h, n)
    | inr (bytes, q) ↦ (bytes, q, ground (arith, h, q))
  ]

  -- What the verification of the first entry finds.
  verified_head :
      (idx : ℕ) (expected : Option String) (e : AuditEntry) (es : List AuditEntry)
      → verify_from bincode_serialize blake3_hex idx expected (e ∷ es) ≡ ok tt
      → (e.prev_hash ≡ expected)
        × (compute_entry_hash bincode_serialize blake3_hex e.prev_hash e.audit_id e.write
            ≡ ok e.entry_hash)
        × (verify_from bincode_serialize blake3_hex (idx + 1) (some e.entry_hash) es ≡ ok tt)
  unfolding verify_from
  verified_head idx expected e es h = elim (Bool-cases (same_hash e.prev_hash expected)) [
    | inr unlinked ↦ ground (arith, h, unlinked)
    | inl linked ↦
        elim (Result-cases
          (compute_entry_hash bincode_serialize blake3_hex e.prev_hash e.audit_id e.write)) [
            | inr (x, q) ↦ ground (arith, h, linked, q)
            | inl (recomputed, q) ↦ elim (Bool-cases (recomputed == e.entry_hash)) [
              | inr wrong ↦ ground (arith, h, linked, q, wrong)
              | inl right ↦ (
                (same_hash_iff e.prev_hash expected).0 linked,
                q ∙ ap (λ (x : String). ok x) ((eq_iff_at recomputed e.entry_hash).0 right),
                ground (arith, h, linked, q, right),
              )
            ]
          ]
  ]

  same_or_collision :
      (e d : AuditEntry)
      → compute_entry_hash bincode_serialize blake3_hex e.prev_hash e.audit_id e.write
        ≡ ok e.entry_hash
      → compute_entry_hash bincode_serialize blake3_hex d.prev_hash d.audit_id d.write
        ≡ ok d.entry_hash
      → e.entry_hash ≡ d.entry_hash
      → (e ≡ d) ⊎ Collision
  same_or_collision e d he hd same =
      let (e_bytes, e_serialized, e_hash) = hashed_bytes e he in
      let (d_bytes, d_serialized, d_hash) = hashed_bytes d hd in
      elim (payloads_decided (said e) (said d)) [
        | inr differ ↦ inr (record {
          one = e;
          other = d;
          differ = differ;
          one_bytes = e_bytes;
          other_bytes = d_bytes;
          one_serialized = e_serialized;
          other_serialized = d_serialized;
          one_hash = e_hash ∙ same ∙ sym d_hash;
        })
        | inl equal ↦
            inl
              (ground (arith, same, ap (λ x. x.0) equal, ap (λ x. x.1) equal, ap (λ x. x.2) equal))
      ]

  chains_from :
      (idx : ℕ) (x y : Option String) (es ds : List AuditEntry)
      → length es ≡ length ds
      → hash_after x es ≡ hash_after y ds
      → verify_from bincode_serialize blake3_hex idx x es ≡ ok tt
      → verify_from bincode_serialize blake3_hex idx y ds ≡ ok tt
      → ((es ≡ ds) × (x ≡ y)) ⊎ Collision
  chains_from idx x y [] [] n last v w = inl (refl, last)
  chains_from idx x y [] (d ∷ ds) n last v w = absurd (omega (arith, n))
  chains_from idx x y (e ∷ es) [] n last v w = absurd (omega (arith, n))
  chains_from idx x y (e ∷ es) (d ∷ ds) n last v w =
      let (elink, ehash, erest) = verified_head idx x e es v in
      let (dlink, dhash, drest) = verified_head idx y d ds w in
      elim (chains_from (idx + 1) (some e.entry_hash) (some d.entry_hash) es ds (omega (arith, n))
        last erest drest) [
          | inr c ↦ inr c
          | inl (rest, hashes) ↦ elim (same_or_collision e d ehash dhash (cc hashes)) [
            | inr c ↦ inr c
            | inl equal ↦
                inl
                  (cc (equal, rest), sym elink ∙ ap (λ (a : AuditEntry). a.prev_hash) equal ∙ dlink)
          ]
        ]

  -- Two logs of one length that both pass the verification and end in one hash are the same, entry by
  -- entry, unless there are two entries that say different things (in any field, the previous hash
  -- included) but whose serialised bytes have one hash.
  pub same_last_hash :
      (es ds : List AuditEntry)
      → length es ≡ length ds
      → last_hash es ≡ last_hash ds
      → verify_integrity bincode_serialize blake3_hex es ≡ ok tt
      → verify_integrity bincode_serialize blake3_hex ds ≡ ok tt
      → (es ≡ ds) ⊎ Collision
  unfolding verify_integrity
  same_last_hash es ds n last v w =
      elim (chains_from 0 none none es ds n (hash_after-none es ∙ last ∙ sym (hash_after-none ds)) v
        w) [ inl (same, start) ↦ inl same | inr c ↦ inr c ]
