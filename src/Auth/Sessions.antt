-- ===== src/Auth/Sessions.antt =====
-- engine/src/auth.rs: the life of a session token.
use dna_db.Prelude.{
  ℕ, ◌≡◌, ◌≢◌, inl, inr, refl, sym, ap, ◌∙◌, true, Option, some, String, ◌==◌, nat_eq, string_eq,
  eq_iff_at, eq_self, if◌then◌else◌, arith, subst, Bool-cases, Option-cases,
}
use dna_db.Prelude.Map.{get, insert, get-insert}
use dna_db.Auth.{
  IdentityRecord, SessionToken, IdentityStore, session_expired, session_revoked, ok, err,
  Result-cases, is_expired_at, get_identity_record, validate_session, revoke_session,
  issue_session_token, authenticate_with, refresh_session,
}

-- A token that was issued is valid from then on until its expiry, and says whose it is; the other
-- tokens are as valid as before.
issue-validate :
    (store : IdentityStore) (r : IdentityRecord) (token other : String) (now later : ℕ)
    → let (s, store') = issue_session_token store r token now in
      (validate_session store' token later
        ≡ (if is_expired_at s later then err session_expired else ok s))
      × (token ≢ other → validate_session store' other later ≡ validate_session store other later)
unfolding validate_session issue_session_token
issue-validate store r token other now later = (
  ground (
    arith,
    get-insert token token (issue_session_token store r token now).0 store.sessions_by_token,
    eq_self token,
  ),
  (λ distinct. ground (
    arith,
    get-insert token other (issue_session_token store r token now).0 store.sessions_by_token,
    eq_iff_at token other,
    distinct,
  )),
)

authenticate_with-issue :
    (hash_secret : String → String) (credential : IdentityRecord → Option String)
    (store store' : IdentityStore) (name secret token : String) (now : ℕ) (s : SessionToken)
    → authenticate_with hash_secret credential store name secret token now ≡ ok (s, store')
    → (r : IdentityRecord) × (get_identity_record store name ≡ ok r)
      × (credential r ≡ some (hash_secret secret))
      × (issue_session_token store r token now ≡ (s, store'))
unfolding authenticate_with
authenticate_with-issue hash_secret credential store store' name secret token now s h =
    elim (Result-cases (get_identity_record store name)) [
      | inr (e, q) ↦ ground (arith, h, q)
      | inl (r, q) ↦ elim (Option-cases (credential r)) [
        | inl c ↦ ground (arith, h, q, c)
        | inr (expected, c) ↦ elim (Bool-cases (expected == hash_secret secret)) [
          | inr wrong ↦ ground (arith, h, q, c, wrong)
          | inl right ↦ (
            r,
            q,
            ground (arith, c, right, eq_iff_at expected (hash_secret secret)),
            ground (arith, h, q, c, right),
          )
        ]
      ]
    ]

-- A revoked token is refused as revoked at any time, and revoking leaves the other tokens as they are.
pub revoke-validate :
    (store store' : IdentityStore) (token other : String) (now : ℕ)
    → revoke_session store token ≡ ok store'
    → (validate_session store' other now
        ≡ (if token == other then err session_revoked else validate_session store other now))
unfolding revoke_session validate_session
revoke-validate store store' token other now h =
    elim (Option-cases (get token store.sessions_by_token)) [
      | inl q ↦ ground (arith, h, q)
      | inr (s, q) ↦
          let made : store' ≡ record store {
            sessions_by_token = insert token (record s { revoked = true }) store.sessions_by_token;
          } =
            ground (arith, h, q) in
          ground (
            arith,
            made,
            get-insert token other (record s { revoked = true }) store.sessions_by_token,
          )
    ]

-- What a password or an API key opens: the name is known, its record has that credential, the hash of
-- the secret is the stored one, and the token that is returned is valid in the new store until it
-- expires. It has the identity and the overlay of the record.
pub authenticate-validate :
    (hash_secret : String → String) (credential : IdentityRecord → Option String)
    (store store' : IdentityStore) (name secret token : String) (now later : ℕ) (s : SessionToken)
    → authenticate_with hash_secret credential store name secret token now ≡ ok (s, store')
    → ((r : IdentityRecord) × (get_identity_record store name ≡ ok r)
        × (credential r ≡ some (hash_secret secret))
        × (s.identity_id ≡ r.identity.identity_id)
        × (s.overlay ≡ r.identity.overlay))
      × (validate_session store' token later
          ≡ (if is_expired_at s later then err session_expired else ok s))
authenticate-validate hash_secret credential store store' name secret token now later s h =
    let (r, known, opens, issued) =
      authenticate_with-issue hash_secret credential store store' name secret token now s h in
    (
      (
        r,
        known,
        opens,
        (unfold issue_session_token in ap (λ x. x.0.identity_id) (sym issued)),
        (unfold issue_session_token in ap (λ x. x.0.overlay) (sym issued)),
      ),
      subst
          (λ (x : SessionToken × IdentityStore).
            validate_session x.1 token later
            ≡ (if is_expired_at x.0 later then err session_expired else ok x.0))
          issued (issue-validate store r token token now later).0,
    )

refresh-steps :
    (uuid_to_string : ℕ → String) (store store' : IdentityStore) (token new_token : String)
    (now issued : ℕ) (s : SessionToken)
    → refresh_session uuid_to_string store token new_token now issued ≡ ok (s, store')
    → (old : SessionToken) × (validate_session store token now ≡ ok old)
      × (r : IdentityRecord) × (middle : IdentityStore) × (revoke_session store token ≡ ok middle)
      × (issue_session_token middle r new_token issued ≡ (s, store'))
unfolding refresh_session
refresh-steps uuid_to_string store store' token new_token now issued s h =
    elim (Result-cases (validate_session store token now)) [
      | inr (e, q) ↦ ground (arith, h, q)
      | inl (old, q) ↦ elim (Option-cases (get old.identity_id store.identities_by_id)) [
        | inl c ↦ ground (arith, h, q, c)
        | inr (r, c) ↦ elim (Result-cases (revoke_session store token)) [
          | inr (e, v) ↦ ground (arith, h, q, c, v)
          | inl (middle, v) ↦ (old, q, r, middle, v, ground (arith, h, q, c, v))
        ]
      ]
    ]

-- A refresh needs a valid token. The old token is refused as revoked from then on, and the new one is
-- valid until it expires. The new token is another text than the old one.
pub refresh-validate :
    (uuid_to_string : ℕ → String) (store store' : IdentityStore) (token new_token : String)
    (now issued later : ℕ) (s : SessionToken)
    → new_token ≢ token
    → refresh_session uuid_to_string store token new_token now issued ≡ ok (s, store')
    → ((old : SessionToken) × (validate_session store token now ≡ ok old))
      × (validate_session store' token later ≡ err session_revoked)
      × (validate_session store' new_token later
          ≡ (if is_expired_at s later then err session_expired else ok s))
refresh-validate uuid_to_string store store' token new_token now issued later s distinct h =
    let (old, valid, r, middle, revoked, done) =
      refresh-steps uuid_to_string store store' token new_token now issued s h in
    let fresh = issue-validate middle r new_token token issued later in
    (
      (old, valid),
      subst
          (λ (x : SessionToken × IdentityStore).
            validate_session x.1 token later ≡ err session_revoked)
          done
          (fresh.1 distinct
            ∙ revoke-validate store middle token token later revoked
            ∙ (rw (eq_self token) refl)),
      subst
          (λ (x : SessionToken × IdentityStore).
            validate_session x.1 new_token later
            ≡ (if is_expired_at x.0 later then err session_expired else ok x.0))
          done fresh.0,
    )
