-- ===== src/Audit.antt =====
-- engine/src/audit.rs: the audit log and its hash chain. The serialiser (bincode) and the hash with its
-- hexadecimal text (blake3) come from other crates, and are parameters; a fresh uuid's text is an
-- argument.
pub mod Chain
pub mod Tampering
mod Tests
use dna_db.Prelude.{
  ℕ, zero, suc, ◌+◌, ◌≡◌, Bool, true, false, not, Option, none, some, List, [], ◌∷◌, ◌++◌, last?,
  String, Eq, ◌==◌, string_eq, if◌then◌else◌,
}
use mathlib.Core.Option

pub record AuditWrite : Type 0 where
  pub timestamp_ns : ℕ
  pub identity_id : String
  pub overlay : String
  pub operation : String
  pub collection : String
  pub strand_count : ℕ
  pub fields_returned : List String
  pub query_pattern : String
  pub client_ip : String
  pub duration_ms : ℕ

-- The fields that the source copies from the write are kept together.
pub record AuditEntry : Type 0 where
  pub audit_id : String
  pub write : AuditWrite
  pub prev_hash : Option String
  pub entry_hash : String

pub data AuditError : Type 0 where
  integrity_failure : ℕ → AuditError
  serialize : AuditError

pub data Result {ℓ} (A : Type ℓ) : Type ℓ where
  ok : A → Result A
  err : AuditError → Result A

infixl 5 ◌>>=◌
abbrev pub ◌>>=◌ {ℓ κ} : {A : Type ℓ} {B : Type κ} → Result A → (A → Result B) → Result B
ok a >>= f = f a
err e >>= f = err e

-- The tuple that is hashed.
abbrev pub Payload : Type 0
Payload = Option String × String × AuditWrite

-- `==` on optional hashes.
abbrev pub same_hash : Option String → Option String → Bool
same_hash none none = true
same_hash (some a) (some b) = a == b
same_hash _ _ = false

abbrev pub last_hash : List AuditEntry → Option String
last_hash entries = Option.map (λ (e : AuditEntry). e.entry_hash) (last? entries)

module _ (bincode_serialize : Payload → Option (List ℕ)) (blake3_hex : List ℕ → String) where
  unfoldable pub compute_entry_hash : Option String → String → AuditWrite → Result String
  compute_entry_hash prev_hash audit_id write =
      elim (bincode_serialize (prev_hash, audit_id, write)) [
        | none ↦ err serialize
        | some encoded ↦ ok (blake3_hex encoded)
      ]

  -- The log after it.
  unfoldable pub append : List AuditEntry → AuditWrite → String → Result (List AuditEntry)
  unfolding compute_entry_hash
  append entries write audit_id = do
    let prev_hash = last_hash entries
    entry_hash ← compute_entry_hash prev_hash audit_id write
    ok (
        entries
        ++ (record {
          audit_id = audit_id;
          write = write;
          prev_hash = prev_hash;
          entry_hash = entry_hash;
        }
            ∷ []))

  -- The loop of `verify_integrity` from index `idx`, behind an entry with the hash `expected_prev`.
  unfoldable pub verify_from : ℕ → Option String → List AuditEntry → Result (Unit {0})
  unfolding compute_entry_hash
  verify_from idx expected_prev [] = ok tt
  verify_from idx expected_prev (e ∷ es) =
      let rest = verify_from (idx + 1) (some e.entry_hash) es in
      if not (same_hash e.prev_hash expected_prev) then err (integrity_failure idx) else (do
        recomputed ← compute_entry_hash e.prev_hash e.audit_id e.write
        if not (recomputed == e.entry_hash) then err (integrity_failure idx) else rest)

  unfoldable pub verify_integrity : List AuditEntry → Result (Unit {0})
  unfolding verify_from
  verify_integrity entries = verify_from 0 none entries
