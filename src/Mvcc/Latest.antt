-- ===== src/Mvcc/Latest.antt =====
-- engine/src/mvcc.rs: the timestamp of the last version.
use dna_db.Prelude.{ℕ, suc, ◌≤◌, ◌≡◌, refl, true, some, [], ◌∷◌, ◌++◌, All, last?, arith}
use dna_db.Mvcc.{
  VersionEntry, VersionChain, lt_some, ts_of, add_version, insert_version, delete, latest_ts,
}
use dna_db.Mvcc.Order.{Versions, IsSortedFrom, IsSorted, place, add_version-eq-place, IsBelow}

module _ {R : Type 0} where
  below_of_last :
      (t : ℕ) (v : VersionEntry R) (vs : Versions R)
      → IsSortedFrom (v ∷ vs)
      → lt_some (ts_of (last? (v ∷ vs))) (suc t) ≡ true
      → All (λ (w : VersionEntry R). w.ts ≤ t) (v ∷ vs)
  below_of_last t v [] s h = (ground arith, tt)
  below_of_last t v (w ∷ vs) s h = let rest = below_of_last t w vs s.1 h in (omega arith, rest)

  -- Where the last timestamp is not later than `t`, none is.
  pub IsBelow-latest :
      (t : ℕ) (chain : VersionChain R)
      → IsSorted chain
      → lt_some (latest_ts chain) (suc t) ≡ true
      → IsBelow t chain
  unfolding latest_ts
  IsBelow-latest t chain s h = from chain.versions s h
    where
      from :
          (vs : Versions R)
          → IsSortedFrom vs
          → lt_some (ts_of (last? vs)) (suc t) ≡ true
          → All (λ (w : VersionEntry R). w.ts ≤ t) vs
      from [] s h = tt
      from (v ∷ vs) s h = below_of_last t v vs s h

  place_last :
      (ver : VersionEntry R) (vs : Versions R)
      → All (λ (v : VersionEntry R). v.ts ≤ ver.ts) vs
      → place ver vs ≡ vs ++ ver ∷ []
  place_last ver [] b = refl
  place_last ver (v ∷ vs) b = ground (arith, place_last ver vs b.1)

  last?-append : (ver : VersionEntry R) (vs : Versions R) → last? (vs ++ ver ∷ []) ≡ some ver
  last?-append ver [] = refl
  last?-append ver (v ∷ []) = refl
  last?-append ver (v ∷ w ∷ vs) = last?-append ver (w ∷ vs)

  latest_ts-add_version :
      (ver : VersionEntry R) (chain : VersionChain R)
      → IsSorted chain
      → IsBelow ver.ts chain
      → latest_ts (record chain { versions = add_version ver chain.versions }) ≡ some ver.ts
  unfolding latest_ts
  latest_ts-add_version ver chain s b =
      rw
        (
          add_version-eq-place ver chain.versions s,
          place_last ver chain.versions b,
          last?-append ver chain.versions,
        )
        refl

  -- An insert or a delete that is not earlier than any version is the latest.
  pub latest_ts-insert_version :
      (row : R) (txn_id ts : ℕ) (chain : VersionChain R)
      → IsSorted chain
      → IsBelow ts chain
      → latest_ts (insert_version row txn_id ts chain) ≡ some ts
  unfolding insert_version
  latest_ts-insert_version row txn_id ts chain s b = latest_ts-add_version _ chain s b

  pub latest_ts-delete :
      (txn_id ts : ℕ) (chain : VersionChain R)
      → IsSorted chain
      → IsBelow ts chain
      → latest_ts (delete txn_id ts chain) ≡ some ts
  unfolding delete
  latest_ts-delete txn_id ts chain s b = latest_ts-add_version _ chain s b

  -- A chain without versions after `t` does not end after `t`.
  pub latest_of_below :
      (t ts : ℕ) (chain : VersionChain R) → IsBelow t chain → latest_ts chain ≡ some ts → ts ≤ t
  unfolding latest_ts
  latest_of_below t ts chain b e = from chain.versions b e
    where
      from :
          (vs : Versions R)
          → All (λ (w : VersionEntry R). w.ts ≤ t) vs
          → ts_of (last? vs) ≡ some ts
          → ts ≤ t
      from [] a q = absurd (cc q)
      from (v ∷ []) a q = let same : v.ts ≡ ts = cc q in omega (arith, a.0, same)
      from (v ∷ w ∷ vs) a q = from (w ∷ vs) a.1 q
