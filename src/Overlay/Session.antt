-- ===== src/Overlay/Session.antt =====
-- engine/src/overlay.rs: the overlay of a session, which binds engine/src/auth.rs to the overlays.
use dna_db.Prelude.{
  ℕ, ◌≡◌, ◌∙◌, ap, refl, Option, String, string_eq, eq_self, if◌then◌else◌, Bool-cases, inl, inr,
}
use dna_db.Auth.{
  IdentityRecord, SessionToken, IdentityStore, session_expired, session_revoked, is_expired_at,
  ok as granted, err as refused, Result as AuthResult, validate_session, revoke_session,
  get_identity_record, authenticate_with,
}
use dna_db.Auth.Sessions.{authenticate-validate, revoke-validate}
use dna_db.Overlay.{ResolvedOverlay, Registry, auth_error, Result, ok, err, ◌>>=◌, resolve_overlay}

-- What follows the validation of the token.
abbrev pub resolve_validated :
    Registry → AuthResult SessionToken → Result (SessionToken × ResolvedOverlay)
resolve_validated defs (refused e) = err (auth_error e)
resolve_validated defs (granted session) = do
  resolved ← resolve_overlay defs session.overlay
  ok (session, resolved)

-- Reading the clock is the argument `now_ns`.
unfoldable pub resolve_for_session :
    Registry → IdentityStore → String → ℕ → Result (SessionToken × ResolvedOverlay)
resolve_for_session defs auth token now_ns =
    resolve_validated defs (validate_session auth token now_ns)

resolve_for_session_valid :
    (defs : Registry) (auth : IdentityStore) (token : String) (later : ℕ) (s : SessionToken)
    (r : IdentityRecord)
    → validate_session auth token later
      ≡ (if is_expired_at s later then refused session_expired else granted s)
    → s.overlay ≡ r.identity.overlay
    → resolve_for_session defs auth token later ≡ (
        if is_expired_at s later
        then err (auth_error session_expired)
        else resolve_overlay defs r.identity.overlay >>= λ resolved. ok (s, resolved))
unfolding resolve_for_session
resolve_for_session_valid defs auth token later s r valid overlay =
    ap (resolve_validated defs) valid ∙ elim (Bool-cases (is_expired_at s later)) [
      | inl expired ↦ rw expired refl
      | inr alive ↦ rw (alive, overlay) refl
    ]

-- A token that was got with a credential sees, until it expires, what the overlay of its identity
-- resolves to, or the error of resolving it; and from the moment it is revoked it sees nothing.
pub resolve_for_session-authenticate :
    (hash_secret : String → String) (credential : IdentityRecord → Option String) (defs : Registry)
    (store store' revoked : IdentityStore) (name secret token : String) (now later : ℕ)
    (s : SessionToken)
    → authenticate_with hash_secret credential store name secret token now ≡ granted (s, store')
    → revoke_session store' token ≡ granted revoked
    → ((r : IdentityRecord) × (get_identity_record store name ≡ granted r)
        × (resolve_for_session defs store' token later ≡ (
            if is_expired_at s later
            then err (auth_error session_expired)
            else resolve_overlay defs r.identity.overlay >>= λ resolved. ok (s, resolved))))
      × (resolve_for_session defs revoked token later ≡ err (auth_error session_revoked))
unfolding resolve_for_session
resolve_for_session-authenticate hash_secret credential defs store store' revoked name secret token
      now later s h v =
    let ((r, known, opens, whose, overlay), valid) =
      authenticate-validate hash_secret credential store store' name secret token now later s h in
    let gone : validate_session revoked token later ≡ refused session_revoked =
      revoke-validate store' revoked token token later v ∙ (rw (eq_self token) refl) in
    (
      (r, known, resolve_for_session_valid defs store' token later s r valid overlay),
      ap (resolve_validated defs) gone,
    )
