-- ===== src/Mvcc/Visibility.antt =====
-- engine/src/mvcc.rs: what a snapshot sees after an insert or a delete.
use dna_db.Prelude.{
  ℕ, ◌≤◌, ◌<◌, ◌≡◌, refl, ap, Bool, false, not, ◌&&◌, ◌||◌, Option, none, some, [], ◌∷◌, All, leb,
  ltb, arith, if◌then◌else◌,
}
use dna_db.Mvcc.{
  VersionEntry, VersionChain, row_of, add_version, new, insert_version, delete, visible_at,
}
use dna_db.Mvcc.Order.{
  Versions, IsSortedFrom, IsSorted, newest, find-reverse-eq-newest, place, add_version-eq-place,
  insert_version-IsSorted, delete-IsSorted, IsBelow,
}

module _ {R : Type 0} where
  -- Whether a version later than `ts` is at or before the snapshot.
  abbrev pub superseded : ℕ → ℕ → Versions R → Bool
  superseded ts snap [] = false
  superseded ts snap (v ∷ vs) = (ltb ts v.ts && leb v.ts snap) || superseded ts snap vs

  -- A snapshot sees nothing of versions that are all later.
  newest_of_later :
      (ts t snap : ℕ) (vs : Versions R)
      → snap < t
      → All (λ (w : VersionEntry R). t ≤ w.ts) vs
      → (newest snap vs ≡ none) × (superseded ts snap vs ≡ false)
  newest_of_later ts t snap [] h a = (refl, refl)
  newest_of_later ts t snap (v ∷ vs) h a = ground (arith, newest_of_later ts t snap vs h a.1)

  newest-place :
      (snap : ℕ) (ver : VersionEntry R) (vs : Versions R)
      → IsSortedFrom vs
      → newest snap (place ver vs)
        ≡ (if leb ver.ts snap && not (superseded ver.ts snap vs) then some ver else newest snap vs)
  newest-place snap ver [] s = ground arith
  newest-place snap ver (v ∷ vs) s =
      ground (arith, newest-place snap ver vs s.1, newest_of_later ver.ts v.ts snap vs)

  pub visible_at-newest :
      (snap : ℕ) (chain : VersionChain R)
      → visible_at snap chain ≡ row_of (newest snap chain.versions)
  unfolding visible_at
  visible_at-newest snap chain = ap row_of (find-reverse-eq-newest snap chain.versions)

  -- What a snapshot sees once a version with the row `r` is added at `ts`.
  abbrev pub seen_after : ℕ → ℕ → VersionChain R → Option R → Option R
  seen_after ts snap chain r =
      if leb ts snap && not (superseded ts snap chain.versions) then r else visible_at snap chain

  visible_at-add_version :
      (ver : VersionEntry R) (snap : ℕ) (chain : VersionChain R)
      → IsSorted chain
      → visible_at snap (record chain { versions = add_version ver chain.versions })
        ≡ seen_after ver.ts snap chain ver.row
  visible_at-add_version ver snap chain s =
      rw
        (
          visible_at-newest,
          visible_at-newest snap chain,
          add_version-eq-place ver chain.versions s,
          newest-place snap ver chain.versions s,
        )
        (ground arith)

  pub visible_at-insert_version :
      (row : R) (txn_id ts snap : ℕ) (chain : VersionChain R)
      → IsSorted chain
      → visible_at snap (insert_version row txn_id ts chain) ≡ seen_after ts snap chain (some row)
  unfolding insert_version
  visible_at-insert_version row txn_id ts snap chain s = visible_at-add_version _ snap chain s

  pub visible_at-delete :
      (txn_id ts snap : ℕ) (chain : VersionChain R)
      → IsSorted chain
      → visible_at snap (delete txn_id ts chain) ≡ seen_after ts snap chain none
  unfolding delete
  visible_at-delete txn_id ts snap chain s = visible_at-add_version _ snap chain s

  -- Nothing supersedes a version that is not earlier than any other.
  pub superseded_of_below :
      (ts snap : ℕ) (vs : Versions R)
      → All (λ (v : VersionEntry R). v.ts ≤ ts) vs
      → superseded ts snap vs ≡ false
  superseded_of_below ts snap [] b = refl
  superseded_of_below ts snap (v ∷ vs) b = ground (arith, superseded_of_below ts snap vs b.1)

  -- On a chain in order: a chain that takes an insert or a delete at `ts`, whatever `ts` is, stays in
  -- order; after it a snapshot from `ts` on that sees no later version sees the new row, or nothing
  -- after a delete, and every other snapshot sees what it saw.
  pub insert_delete_lem :
      (row : R) (txn_id ts snap : ℕ) (chain : VersionChain R)
      → IsSorted chain
      → IsSorted (insert_version row txn_id ts chain)
        × IsSorted (delete txn_id ts chain)
        × (visible_at snap (insert_version row txn_id ts chain)
            ≡ seen_after ts snap chain (some row))
        × (visible_at snap (delete txn_id ts chain) ≡ seen_after ts snap chain none)
  insert_delete_lem row txn_id ts snap chain s = (
    insert_version-IsSorted row txn_id ts chain s,
    delete-IsSorted txn_id ts chain s,
    visible_at-insert_version row txn_id ts snap chain s,
    visible_at-delete txn_id ts snap chain s,
  )

  pub visible_at-new : (snap record_id : ℕ) → visible_at snap (new {R = R} record_id) ≡ none
  unfolding visible_at new
  visible_at-new snap record_id = refl

  -- Every snapshot from the last timestamp on sees the last version.
  newest_of_below :
      (clock snap : ℕ) (vs : Versions R)
      → All (λ (v : VersionEntry R). v.ts ≤ clock) vs
      → clock ≤ snap
      → newest snap vs ≡ newest clock vs
  newest_of_below clock snap [] b h = refl
  newest_of_below clock snap (v ∷ vs) b h = ground (arith, newest_of_below clock snap vs b.1 h)

  pub visible_at_of_below :
      (clock snap : ℕ) (chain : VersionChain R)
      → IsBelow clock chain
      → clock ≤ snap
      → visible_at snap chain ≡ visible_at clock chain
  visible_at_of_below clock snap chain b h =
      rw (visible_at-newest snap chain, visible_at-newest clock chain)
        (ap row_of (newest_of_below clock snap chain.versions b h))
