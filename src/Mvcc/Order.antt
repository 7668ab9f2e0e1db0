-- ===== src/Mvcc/Order.antt =====
-- engine/src/mvcc.rs: the order of the versions in a chain.
use mathlib.Core.List.{reverse, reverse-cons}
use dna_db.Prelude.{
  ℕ, ◌≤◌, ◌<◌, ◌≡◌, refl, true, Option, none, some, List, [], ◌∷◌, ◌++◌, All, last?, find,
  find-append, or_else, partition_point, insert_at, leb, arith, if◌then◌else◌, Bool-cases, inl, inr,
  leb→le,
}
use dna_db.Mvcc.{VersionEntry, VersionChain, lt_some, ts_of, add_version, insert_version, delete}

abbrev pub Versions : Type 0 → Type 0
Versions R = List (VersionEntry R)

module _ {R : Type 0} where
  -- Timestamps do not fall along the chain.
  abbrev pub IsSortedFrom : Versions R → Type 0
  IsSortedFrom [] = Unit {0}
  IsSortedFrom (v ∷ vs) = All (λ w. v.ts ≤ w.ts) vs × IsSortedFrom vs

  abbrev pub IsSorted : VersionChain R → Type 0
  IsSorted chain = IsSortedFrom chain.versions

  -- The newest version at or before a snapshot, from the front of the chain.
  abbrev pub newest : ℕ → Versions R → Option (VersionEntry R)
  newest snap [] = none
  newest snap (v ∷ vs) = or_else (newest snap vs) (if leb v.ts snap then some v else none)

  pub find-reverse-eq-newest :
      (snap : ℕ) (vs : Versions R) → find (λ v. leb v.ts snap) (reverse vs) ≡ newest snap vs
  find-reverse-eq-newest snap [] = refl
  find-reverse-eq-newest snap (v ∷ vs) =
      rw (reverse-cons v vs, find-append _ (reverse vs) (v ∷ []), find-reverse-eq-newest snap vs)
        (ground arith)

  -- Where a version with timestamp `ts` goes in a sorted chain: behind those that are not later.
  abbrev pub place : VersionEntry R → Versions R → Versions R
  place ver [] = ver ∷ []
  place ver (v ∷ vs) = let rest = v ∷ place ver vs in if leb v.ts ver.ts then rest else ver ∷ v ∷ vs

  insert_at-eq-place :
      (ver : VersionEntry R) (vs : Versions R)
      → insert_at (partition_point (λ v. leb v.ts ver.ts) vs) ver vs ≡ place ver vs
  insert_at-eq-place ver [] = refl
  insert_at-eq-place ver (v ∷ vs) = ground (arith, insert_at-eq-place ver vs)

  -- The last timestamp bounds the first.
  first_below :
      (t : ℕ) (v : VersionEntry R) (vs : Versions R)
      → IsSortedFrom (v ∷ vs)
      → lt_some (ts_of (last? (v ∷ vs))) t ≡ true
      → v.ts < t
  first_below t v [] s h = ground arith
  first_below t v (w ∷ vs) s h = omega (arith, first_below t w vs s.1 h)

  append-eq-place :
      (ver : VersionEntry R) (vs : Versions R)
      → IsSortedFrom vs
      → lt_some (ts_of (last? vs)) ver.ts ≡ true
      → vs ++ ver ∷ [] ≡ place ver vs
  append-eq-place ver [] s h = refl
  append-eq-place ver (v ∷ []) s h = ground arith
  append-eq-place ver (v ∷ w ∷ vs) s h =
      ground (arith, first_below ver.ts w vs s.1 h, append-eq-place ver (w ∷ vs) s.1 h)

  -- Both branches put the version at its place in the order.
  pub add_version-eq-place :
      (ver : VersionEntry R) (vs : Versions R) → IsSortedFrom vs → add_version ver vs ≡ place ver vs
  unfolding add_version
  add_version-eq-place ver vs s = elim (Bool-cases (lt_some (ts_of (last? vs)) ver.ts)) [
    | inl late ↦ rw late (append-eq-place ver vs s late)
    | inr early ↦ rw early (insert_at-eq-place ver vs)
  ]

  place-All :
      (P : VersionEntry R → Type 0) (ver : VersionEntry R) (vs : Versions R)
      → P ver
      → All P vs
      → All P (place ver vs)
  place-All P ver [] p h = (p, tt)
  place-All P ver (v ∷ vs) p h = ground (arith, place-All P ver vs p h.1)

  All-later :
      (t u : ℕ) (vs : Versions R)
      → t ≤ u
      → All (λ (w : VersionEntry R). u ≤ w.ts) vs
      → All (λ (w : VersionEntry R). t ≤ w.ts) vs
  All-later t u [] h a = tt
  All-later t u (v ∷ vs) h a = (omega arith, All-later t u vs h a.1)

  place-IsSorted :
      (ver : VersionEntry R) (vs : Versions R) → IsSortedFrom vs → IsSortedFrom (place ver vs)
  place-IsSorted ver [] s = (tt, tt)
  place-IsSorted ver (v ∷ vs) s = elim (Bool-cases (leb v.ts ver.ts)) [
    | inl le ↦
        rw le (place-All (λ w. v.ts ≤ w.ts) ver vs (leb→le _ _ le) s.0, place-IsSorted ver vs s.1)
    | inr gt ↦ rw gt ((ground arith, All-later ver.ts v.ts vs (ground arith) s.0), s)
  ]

  pub insert_version-IsSorted :
      (row : R) (txn_id ts : ℕ) (chain : VersionChain R)
      → IsSorted chain
      → IsSorted (insert_version row txn_id ts chain)
  unfolding insert_version
  insert_version-IsSorted row txn_id ts chain s =
      rw (add_version-eq-place _ chain.versions s) (place-IsSorted _ chain.versions s)

  pub delete-IsSorted :
      (txn_id ts : ℕ) (chain : VersionChain R) → IsSorted chain → IsSorted (delete txn_id ts chain)
  unfolding delete
  delete-IsSorted txn_id ts chain s =
      rw (add_version-eq-place _ chain.versions s) (place-IsSorted _ chain.versions s)

  -- A bound on the timestamps of a chain, which an insert or a delete within it keeps.
  abbrev pub IsBelow : ℕ → VersionChain R → Type 0
  IsBelow clock chain = All (λ (v : VersionEntry R). v.ts ≤ clock) chain.versions

  pub insert_version-IsBelow :
      (clock : ℕ) (row : R) (txn_id ts : ℕ) (chain : VersionChain R)
      → ts ≤ clock
      → IsSorted chain
      → IsBelow clock chain
      → IsBelow clock (insert_version row txn_id ts chain)
  unfolding insert_version
  insert_version-IsBelow clock row txn_id ts chain h s b =
      rw (add_version-eq-place _ chain.versions s)
        (place-All (λ v. v.ts ≤ clock) _ chain.versions h b)

  pub delete-IsBelow :
      (clock txn_id ts : ℕ) (chain : VersionChain R)
      → ts ≤ clock
      → IsSorted chain
      → IsBelow clock chain
      → IsBelow clock (delete txn_id ts chain)
  unfolding delete
  delete-IsBelow clock txn_id ts chain h s b =
      rw (add_version-eq-place _ chain.versions s)
        (place-All (λ v. v.ts ≤ clock) _ chain.versions h b)
