-- ===== src/Auth/Tests.antt =====
-- Runs of engine/src/auth.rs, and its theorems at concrete stores. The hash of the tests is the
-- identity, and the text of an id is constant.
use dna_db.Prelude.{
  ℕ, ◌≡◌, ◌≢◌, refl, true, false, none, some, [], ◌∷◌, String, string_eq, eq_iff_at, if◌then◌else◌,
  arith,
}
use dna_db.Prelude.Map.{get, insert}
use dna_db.Auth.{
  IdentityRecord, CreateIdentityRequest, SessionToken, IdentityStore, human, new_store, identity_of,
  record_of, ok, err, session_expired, session_revoked, is_expired_at, create_identity,
  get_identity_record, authenticate_with_password, validate_session, revoke_session,
  refresh_session, issue_session_token,
}
use dna_db.Auth.Sessions.{authenticate-validate, refresh-validate}

abbrev plain : String → String
plain s = s

abbrev no_text : ℕ → String
no_text id = ""

abbrev request : CreateIdentityRequest
request = record {
  name = "alice";
  identity_type = human;
  overlay = "support";
  allowed_collections = [];
  token_expiry_seconds = 60;
  mfa_required = false;
  password = some "secret";
  api_key = none;
}

abbrev with_alice : IdentityStore
with_alice = record new_store {
  identity_id_by_name = ("alice", 7) ∷ [];
  identities_by_id = (7, record_of plain request 7) ∷ [];
}

creates : create_identity plain new_store request 7 ≡ ok (identity_of request 7, with_alice)
unfolding create_identity get insert
creates = refl

abbrev session : SessionToken
session = record {
  token = "st_1";
  identity_id = 7;
  overlay = "support";
  issued_at_ns = 1000;
  expires_at_ns = 60000001000;
  revoked = false;
}

abbrev signed_in : IdentityStore
signed_in = record with_alice { sessions_by_token = ("st_1", session) ∷ [] }

signs_in :
    authenticate_with_password plain with_alice "alice" "secret" "st_1" 1000
    ≡ ok (session, signed_in)
unfolding authenticate_with_password get insert
signs_in = refl

authenticate-validate_example :
    ((r : IdentityRecord) × (get_identity_record with_alice "alice" ≡ ok r)
      × (r.password_hash ≡ some "secret")
      × (session.identity_id ≡ r.identity.identity_id)
      × (session.overlay ≡ r.identity.overlay))
    × (validate_session signed_in "st_1" 2000
        ≡ (if is_expired_at session 2000 then err session_expired else ok session))
unfolding authenticate_with_password
authenticate-validate_example =
    authenticate-validate plain (λ r. r.password_hash) with_alice signed_in "alice" "secret" "st_1"
      1000 2000 session signs_in

abbrev signed_out : IdentityStore
signed_out = record with_alice {
  sessions_by_token = ("st_1", record session { revoked = true }) ∷ [];
}

revokes : revoke_session signed_in "st_1" ≡ ok signed_out
unfolding revoke_session get insert
revokes = refl

abbrev renewed : SessionToken
renewed = record session { token = "st_2"; issued_at_ns = 3000; expires_at_ns = 60000003000 }

abbrev refreshed : IdentityStore
refreshed = record with_alice {
  sessions_by_token = ("st_1", record session { revoked = true }) ∷ ("st_2", renewed) ∷ [];
}

refreshes : refresh_session no_text signed_in "st_1" "st_2" 2000 3000 ≡ ok (renewed, refreshed)
unfolding refresh_session get insert
refreshes = refl

distinct : ◌≢◌ {A = String} "st_2" "st_1"
distinct h = ground (arith, h, eq_iff_at {K = String} "st_2" "st_1")

refresh-validate_example :
    ((old : SessionToken) × (validate_session signed_in "st_1" 2000 ≡ ok old))
    × (validate_session refreshed "st_1" 5000 ≡ err session_revoked)
    × (validate_session refreshed "st_2" 5000
        ≡ (if is_expired_at renewed 5000 then err session_expired else ok renewed))
refresh-validate_example =
    refresh-validate no_text signed_in refreshed "st_1" "st_2" 2000 3000 5000 renewed distinct
      refreshes

-- An expiry of 18446744074 seconds, 584 years, is 290448384 nanoseconds of 64 bits.
abbrev long_lived : IdentityRecord
long_lived = record_of plain (record request { token_expiry_seconds = 18446744074 }) 7

long_expiry_wraps : (issue_session_token new_store long_lived "st_3" 0).0.expires_at_ns ≡ 290448384
unfolding issue_session_token
long_expiry_wraps = refl
