-- ===== src/Auth.antt =====
-- engine/src/auth.rs: identities, credentials and session tokens. The hash of a secret, the text of a
-- token and of an id come from other crates, and are parameters. A fresh uuid and the time are
-- arguments of the operations that ask for them. An error leaves the store as it was.
pub mod Identities
pub mod Sessions
mod Tests
use dna_db.Prelude.{
  ℕ, zero, suc, ◌+◌, ◌*◌, ◌%◌, ◌^◌, ◌≡◌, ◌⊎◌, inl, inr, refl, Bool, true, false, not, Option, none,
  some, List, [], ◌∷◌, String, leb, ◌==◌, nat_eq, string_eq, if◌then◌else◌,
}
use dna_db.Prelude.Map.{Map, get, insert, contains_key}
use mathlib.Core.Option

pub data IdentityType : Type 0 where
  human service admin read_only : IdentityType

pub record Identity : Type 0 where
  pub identity_id : ℕ
  pub name : String
  pub identity_type : IdentityType
  pub overlay : String
  pub allowed_collections : List String
  pub token_expiry_seconds : ℕ
  pub mfa_required : Bool

pub record IdentityRecord : Type 0 where
  pub identity : Identity
  pub password_hash : Option String
  pub api_key_hash : Option String

pub record SessionToken : Type 0 where
  pub token : String
  pub identity_id : ℕ
  pub overlay : String
  pub issued_at_ns : ℕ
  pub expires_at_ns : ℕ
  pub revoked : Bool

abbrev pub is_expired_at : SessionToken → ℕ → Bool
is_expired_at s now_ns = leb s.expires_at_ns now_ns

pub record CreateIdentityRequest : Type 0 where
  pub name : String
  pub identity_type : IdentityType
  pub overlay : String
  pub allowed_collections : List String
  pub token_expiry_seconds : ℕ
  pub mfa_required : Bool
  pub password : Option String
  pub api_key : Option String

pub data AuthError : Type 0 where
  duplicate_identity identity_not_found unsupported_credential_kind : String → AuthError
  invalid_credentials session_not_found session_expired session_revoked invalid_token_expiry :
      AuthError

pub data Result {ℓ} (A : Type ℓ) : Type ℓ where
  ok : A → Result A
  err : AuthError → Result A

infixl 5 ◌>>=◌
abbrev pub ◌>>=◌ {ℓ κ} : {A : Type ℓ} {B : Type κ} → Result A → (A → Result B) → Result B
ok a >>= f = f a
err e >>= f = err e

pub Result-cases {ℓ} :
    {A : Type ℓ} (r : Result A) → ((a : A) × (r ≡ ok a)) ⊎ ((e : AuthError) × (r ≡ err e))
Result-cases (ok a) = inl (a, refl)
Result-cases (err e) = inr (e, refl)

-- ok_or
abbrev pub ok_or {ℓ} : {A : Type ℓ} → Option A → AuthError → Result A
ok_or none e = err e
ok_or (some a) e = ok a

pub record IdentityStore : Type 0 where
  pub identities_by_id : Map ℕ IdentityRecord
  pub identity_id_by_name : Map String ℕ
  pub sessions_by_token : Map String SessionToken

abbrev pub new_store : IdentityStore
new_store = record { identities_by_id = []; identity_id_by_name = []; sessions_by_token = [] }

unfoldable pub get_identity_by_name : IdentityStore → String → Option Identity
get_identity_by_name store name = elim (get name store.identity_id_by_name) [
  | none ↦ none
  | some id ↦ Option.map (λ (r : IdentityRecord). r.identity) (get id store.identities_by_id)
]

unfoldable pub get_identity_record : IdentityStore → String → Result IdentityRecord
get_identity_record store name = do
  id ← ok_or (get name store.identity_id_by_name) (identity_not_found name)
  ok_or (get id store.identities_by_id) (identity_not_found name)

unfoldable pub validate_session : IdentityStore → String → ℕ → Result SessionToken
validate_session store token now_ns = do
  s ← ok_or (get token store.sessions_by_token) session_not_found
  if s.revoked
      then err session_revoked
      else if is_expired_at s now_ns
      then err session_expired
      else ok s

unfoldable pub revoke_session : IdentityStore → String → Result IdentityStore
revoke_session store token = do
  s ← ok_or (get token store.sessions_by_token) session_not_found
  ok (record store {
    sessions_by_token = insert token (record s { revoked = true }) store.sessions_by_token;
  })

-- The identity that a request makes, with the fresh uuid.
abbrev pub identity_of : CreateIdentityRequest → ℕ → Identity
identity_of req id = record {
  identity_id = id;
  name = req.name;
  identity_type = req.identity_type;
  overlay = req.overlay;
  allowed_collections = req.allowed_collections;
  token_expiry_seconds = req.token_expiry_seconds;
  mfa_required = req.mfa_required;
}

module _ (hash_secret : String → String) where
  abbrev pub record_of : CreateIdentityRequest → ℕ → IdentityRecord
  record_of req id = record {
    identity = identity_of req id;
    password_hash = Option.map hash_secret req.password;
    api_key_hash = Option.map hash_secret req.api_key;
  }

  -- `id` is the fresh uuid.
  unfoldable pub create_identity :
      IdentityStore → CreateIdentityRequest → ℕ → Result (Identity × IdentityStore)
  create_identity store req id =
      if req.token_expiry_seconds == 0
      then err invalid_token_expiry
      else if contains_key req.name store.identity_id_by_name
      then err (duplicate_identity req.name)
      else let identity = identity_of req id in
        ok (
          identity,
          record store {
            identity_id_by_name =
                insert identity.name identity.identity_id store.identity_id_by_name;
            identities_by_id =
                insert identity.identity_id (record_of req id) store.identities_by_id;
          },
        )

-- `token` is the text made of the fresh uuid. The seconds become nanoseconds of 64 bits, and the sum
-- wraps, as it does in a release build.
unfoldable pub issue_session_token :
    IdentityStore → IdentityRecord → String → ℕ → SessionToken × IdentityStore
issue_session_token store record' token now_ns =
    let session : SessionToken = record {
      token = token;
      identity_id = record'.identity.identity_id;
      overlay = record'.identity.overlay;
      issued_at_ns = now_ns;
      expires_at_ns =
          (now_ns + (record'.identity.token_expiry_seconds * 1000000000) % 2 ^ 64) % 2 ^ 64;
      revoked = false;
    } in
    (session, record store { sessions_by_token = insert token session store.sessions_by_token })

module _ (hash_secret : String → String) where
  -- The two `authenticate_with_*`, which differ in the hash that they take from the record.
  unfoldable pub authenticate_with :
      (IdentityRecord → Option String)
      → IdentityStore
      → String
      → String
      → String
      → ℕ
      → Result (SessionToken × IdentityStore)
  unfolding get_identity_record issue_session_token
  authenticate_with credential store identity_name secret token now_ns = do
    identity ← get_identity_record store identity_name
    expected ← ok_or (credential identity) (unsupported_credential_kind identity_name)
    if not (expected == hash_secret secret)
        then err invalid_credentials
        else ok (issue_session_token store identity token now_ns)

  unfoldable pub authenticate_with_password :
      IdentityStore → String → String → String → ℕ → Result (SessionToken × IdentityStore)
  unfolding authenticate_with
  authenticate_with_password = authenticate_with (λ r. r.password_hash)

  unfoldable pub authenticate_with_api_key :
      IdentityStore → String → String → String → ℕ → Result (SessionToken × IdentityStore)
  unfolding authenticate_with
  authenticate_with_api_key = authenticate_with (λ r. r.api_key_hash)

module _ (uuid_to_string : ℕ → String) where
  unfoldable pub refresh_session :
      IdentityStore → String → String → ℕ → ℕ → Result (SessionToken × IdentityStore)
  unfolding validate_session revoke_session issue_session_token
  refresh_session store token new_token now_ns issued_ns = do
    current ← validate_session store token now_ns
    record' ←
        ok_or (get current.identity_id store.identities_by_id)
          (identity_not_found (uuid_to_string current.identity_id))
    store' ← revoke_session store token
    ok (issue_session_token store' record' new_token issued_ns)
