-- ===== src/Audit/Tests.antt =====
-- Runs of engine/src/audit.rs, and its theorem at a concrete log. The serialiser of the tests keeps the
-- strand count and whether the client is the usual one, and the hash tells two of its results apart.
use dna_db.Prelude.{
  ◌⊎◌, ℕ, ◌≡◌, refl, Option, none, some, List, [], ◌∷◌, String, ◌==◌, nat_eq, ◌+◌, string_eq,
  if◌then◌else◌,
}
use dna_db.Audit.{
  AuditWrite, AuditEntry, ok, err, integrity_failure, Payload, append, verify_integrity,
}
use dna_db.Audit.Tampering.{Collision, same_last_hash}
use dna_db.Audit.Chain.{appends}

abbrev serializer : Payload → Option (List ℕ)
serializer p = some ((p.2.strand_count + (if p.2.client_ip == "10.0.0.1" then 0 else 10)) ∷ [])

abbrev hash : List ℕ → String
hash [] = "empty"
hash (n ∷ ns) = if n == 1 then "one" else "other"

abbrev write : ℕ → AuditWrite
write n = record {
  timestamp_ns = 10;
  identity_id = "user:alice";
  overlay = "support";
  operation = "read";
  collection = "users";
  strand_count = n;
  fields_returned = "id" ∷ [];
  query_pattern = "id = ?";
  client_ip = "10.0.0.1";
  duration_ms = 3;
}

abbrev writes : List (AuditWrite × String)
writes = (write 1, "audit:a") ∷ (write 2, "audit:b") ∷ []

abbrev first_entry : AuditEntry
first_entry = record { audit_id = "audit:a"; write = write 1; prev_hash = none; entry_hash = "one" }

abbrev second_entry : AuditEntry
second_entry = record {
  audit_id = "audit:b";
  write = write 2;
  prev_hash = some "one";
  entry_hash = "other";
}

appended : appends serializer hash [] writes ≡ ok (first_entry ∷ second_entry ∷ [])
unfolding append
appended = refl

tampering_is_found :
    verify_integrity serializer hash (record first_entry { write = write 7 } ∷ second_entry ∷ [])
    ≡ err (integrity_failure 0)
unfolding verify_integrity
tampering_is_found = refl

other_client_is_found :
    verify_integrity serializer hash (
      record first_entry { write = record (write 1) { client_ip = "10.0.0.2" } }
      ∷ second_entry
      ∷ [])
    ≡ err (integrity_failure 0)
unfolding verify_integrity
other_client_is_found = refl

-- Another log with the same last hash: the test's hash does not tell the counts 2 and 3 apart.
abbrev other_entry : AuditEntry
other_entry = record second_entry { write = write 3 }

first_verified : verify_integrity serializer hash (first_entry ∷ second_entry ∷ []) ≡ ok tt
unfolding verify_integrity
first_verified = refl

other_verified : verify_integrity serializer hash (first_entry ∷ other_entry ∷ []) ≡ ok tt
unfolding verify_integrity
other_verified = refl

same_last_hash_example :
    ((first_entry ∷ second_entry ∷ []) ≡ (first_entry ∷ other_entry ∷ []))
    ⊎ Collision serializer hash
same_last_hash_example =
    same_last_hash serializer hash (first_entry ∷ second_entry ∷ [])
      (first_entry ∷ other_entry ∷ []) refl refl first_verified other_verified
