-- ===== src/Auth/Identities.antt =====
-- engine/src/auth.rs: identities by name, and their credentials.
use dna_db.Prelude.{
  ℕ, ◌≡◌, inl, inr, true, false, some, String, ◌==◌, nat_eq, string_eq, eq_self, arith, Bool-cases,
}
use dna_db.Prelude.Map.{insert, contains_key, get-insert}
use dna_db.Auth.{
  Identity, identity_of, record_of, CreateIdentityRequest, IdentityStore, duplicate_identity, ok,
  err, create_identity, get_identity_record, get_identity_by_name,
}

-- What `create_identity` checks, and what it stores.
create_identity_made :
    (hash_secret : String → String) (store store' : IdentityStore) (req : CreateIdentityRequest)
    (id : ℕ) (identity : Identity)
    → create_identity hash_secret store req id ≡ ok (identity, store')
    → (contains_key req.name store.identity_id_by_name ≡ false)
      × (identity ≡ identity_of req id)
      × (store' ≡ record store {
        identity_id_by_name = insert req.name id store.identity_id_by_name;
        identities_by_id = insert id (record_of hash_secret req id) store.identities_by_id;
      })
      × ((req.token_expiry_seconds == 0) ≡ false)
unfolding create_identity
create_identity_made hash_secret store store' req id identity h =
    elim (Bool-cases (contains_key req.name store.identity_id_by_name)) [
      | inl taken ↦ ground (arith, h, taken)
      | inr free ↦ (free, ground (arith, h, free), ground (arith, h, free), ground (arith, h, free))
    ]

create_identity_taken :
    (hash_secret : String → String) (store : IdentityStore) (req : CreateIdentityRequest) (id : ℕ)
    → (req.token_expiry_seconds == 0) ≡ false
    → contains_key req.name store.identity_id_by_name ≡ true
    → create_identity hash_secret store req id ≡ err (duplicate_identity req.name)
unfolding create_identity
create_identity_taken hash_secret store req id positive taken = ground (arith, positive, taken)

-- A name that was created was free. It is found again, with the identity that was returned and the
-- hashes of the request's secrets; a second such request is refused.
pub get-create_identity :
    (hash_secret : String → String) (store store' : IdentityStore) (req : CreateIdentityRequest)
    (id : ℕ) (identity : Identity) (again : ℕ)
    → create_identity hash_secret store req id ≡ ok (identity, store')
    → (contains_key req.name store.identity_id_by_name ≡ false)
      × (get_identity_by_name store' req.name ≡ some identity)
      × (get_identity_record store' req.name ≡ ok (record_of hash_secret req id))
      × (create_identity hash_secret store' req again ≡ err (duplicate_identity req.name))
unfolding get_identity_by_name get_identity_record
get-create_identity hash_secret store store' req id identity again h =
    let (free, same, made, positive) =
      create_identity_made hash_secret store store' req id identity h in
    let by_name = get-insert req.name req.name id store.identity_id_by_name in
    let by_id = get-insert id id (record_of hash_secret req id) store.identities_by_id in
    (
      free,
      ground (arith, same, made, by_name, by_id, eq_self req.name, eq_self id),
      ground (arith, made, by_name, by_id, eq_self req.name, eq_self id),
      create_identity_taken hash_secret store' req again positive
          (ground (arith, made, by_name, eq_self req.name)),
    )
