-- ===== src/Overlay/Tests.antt =====
-- Runs of engine/src/overlay.rs and engine/src/privacy.rs, and their theorems at concrete overlays.
use dna_db.Prelude.{
  false, ℕ, any, ◌≡◌, ◌≢◌, refl, true, not, ◌&&◌, ◌||◌, none, some, [], ◌∷◌, String, contains,
  string_eq, if◌then◌else◌,
}
use dna_db.Prelude.Map.{Map, get, insert}
use dna_db.Auth.{
  IdentityRecord, SessionToken, IdentityStore, human, session_expired, session_revoked,
  is_expired_at, ok as granted, get_identity_record, authenticate_with, revoke_session,
}
use dna_db.Overlay.Session.{resolve_for_session, resolve_for_session-authenticate}
use dna_db.Overlay.{
  auth_error, ◌>>=◌, OverlayDefinition, ResolvedOverlay, partial, read, write, mutation_eq,
  Registry, ok, err, inheritance_cycle, out_of_fuel, resolve_overlay, resolve_overlay_inner,
  extend_with, merge_field_map, is_field_visible, is_full, can_access_collection, can_mutate,
  visible, mask_record_for_overlay, mask_fields,
}
use dna_db.Overlay.Inheritance.{ancestors, includes, excludes, resolve_overlay-union}
use dna_db.Overlay.Cycles.{resolve_overlay_ends}
use dna_db.Overlay.Masking.{mask_record_lem}

abbrev support : OverlayDefinition
support = record {
  name = "support";
  access = partial;
  collections = "users" ∷ [];
  include_fields = ("users", "id" ∷ "ssn" ∷ []) ∷ [];
  exclude_fields = ("users", "ssn" ∷ []) ∷ [];
  mutations = read ∷ [];
  extends = none;
  additionally_include = [];
}

-- It lists the field that its parent excludes.
abbrev lead : OverlayDefinition
lead = record support {
  name = "lead";
  exclude_fields = [];
  mutations = write ∷ [];
  extends = some "support";
  additionally_include = ("users", "email" ∷ "ssn" ∷ []) ∷ [];
}

abbrev looped : OverlayDefinition
looped = record support { name = "looped"; extends = some "looped" }

abbrev defs : Registry
defs = ("support", support) ∷ ("lead", lead) ∷ ("looped", looped) ∷ []

abbrev resolved : ResolvedOverlay
resolved = record {
  name = "lead";
  access = partial;
  collections = "users" ∷ "users" ∷ [];
  include_fields = ("users", "id" ∷ "ssn" ∷ "id" ∷ "ssn" ∷ "email" ∷ "ssn" ∷ []) ∷ [];
  exclude_fields = ("users", "ssn" ∷ []) ∷ [];
  mutations = read ∷ write ∷ [];
}

resolves : resolve_overlay defs "lead" ≡ ok resolved
unfolding resolve_overlay resolve_overlay_inner extend_with merge_field_map get insert
resolves = refl

cycle_is_found : resolve_overlay defs "looped" ≡ err (inheritance_cycle "looped")
unfolding resolve_overlay resolve_overlay_inner get
cycle_is_found = refl

accessible : can_access_collection resolved "users" ≡ true
unfolding can_access_collection
accessible = refl

resolve_overlay-union_example :
    ((def : OverlayDefinition) × (get "lead" defs ≡ some def)
      × (resolved.access ≡ def.access)
      × (resolved.name ≡ def.name))
    × (can_mutate resolved read ≡ any (λ d. contains d.mutations read) (ancestors 4 defs "lead"))
    × (can_access_collection resolved "users"
        ≡ any (λ d. contains d.collections "*") (ancestors 4 defs "lead")
          || any (λ d. contains d.collections "users") (ancestors 4 defs "lead"))
    × (is_field_visible resolved "users" "ssn"
        ≡ can_access_collection resolved "users"
          && (is_full resolved.access
              || (not (any (excludes "users" "ssn") (ancestors 4 defs "lead"))
                  && any (includes "users" "ssn") (ancestors 4 defs "lead"))))
resolve_overlay-union_example =
    resolve_overlay-union defs "lead" resolved read "users" "ssn" resolves

resolve_overlay_ends_example : resolve_overlay defs "looped" ≢ err out_of_fuel
resolve_overlay_ends_example = resolve_overlay_ends defs "looped"

abbrev user : Map String ℕ
user = ("id", 1) ∷ ("ssn", 2) ∷ []

abbrev shown : Map String ℕ
shown = ("id", 1) ∷ []

masks : mask_record_for_overlay "users" user resolved ≡ visible shown
unfolding mask_record_for_overlay can_access_collection mask_fields is_field_visible get insert
masks = refl

mask_record_lem_example :
    (can_access_collection resolved "users" ≡ true)
    × (get "ssn" shown ≡ (if is_field_visible resolved "users" "ssn" then get "ssn" user else none))
mask_record_lem_example = mask_record_lem resolved "users" "ssn" user shown masks

-- Sessions: a store with one identity, whose password is its own hash.
abbrev plain : String → String
plain s = s

abbrev lead_record : IdentityRecord
lead_record = record {
  identity = record {
    identity_id = 7;
    name = "alice";
    identity_type = human;
    overlay = "lead";
    allowed_collections = [];
    token_expiry_seconds = 60;
    mfa_required = false;
  };
  password_hash = some "secret";
  api_key_hash = none;
}

abbrev signed_out : IdentityStore
signed_out = record {
  identities_by_id = (7, lead_record) ∷ [];
  identity_id_by_name = ("alice", 7) ∷ [];
  sessions_by_token = [];
}

abbrev session : SessionToken
session = record {
  token = "st_1";
  identity_id = 7;
  overlay = "lead";
  issued_at_ns = 1000;
  expires_at_ns = 60000001000;
  revoked = false;
}

abbrev signed_in : IdentityStore
signed_in = record signed_out { sessions_by_token = ("st_1", session) ∷ [] }

abbrev revoked_store : IdentityStore
revoked_store = record signed_out {
  sessions_by_token = ("st_1", record session { revoked = true }) ∷ [];
}

signs_in :
    authenticate_with plain (λ r. r.password_hash) signed_out "alice" "secret" "st_1" 1000
    ≡ granted (session, signed_in)
unfolding authenticate_with get insert
signs_in = refl

revokes : revoke_session signed_in "st_1" ≡ granted revoked_store
unfolding revoke_session get insert
revokes = refl

resolve_for_session-authenticate_example :
    ((r : IdentityRecord) × (get_identity_record signed_out "alice" ≡ granted r)
      × (resolve_for_session defs signed_in "st_1" 2000 ≡ (
          if is_expired_at session 2000
          then err (auth_error session_expired)
          else resolve_overlay defs r.identity.overlay >>= λ o. ok (session, o))))
    × (resolve_for_session defs revoked_store "st_1" 2000 ≡ err (auth_error session_revoked))
resolve_for_session-authenticate_example =
    resolve_for_session-authenticate plain (λ r. r.password_hash) defs signed_out signed_in
      revoked_store "alice" "secret" "st_1" 1000 2000 session signs_in revokes
