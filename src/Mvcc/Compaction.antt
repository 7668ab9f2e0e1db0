-- ===== src/Mvcc/Compaction.antt =====
-- engine/src/mvcc.rs: what compaction keeps of a chain.
use dna_db.Prelude.{
  All, ◌⊎◌, ℕ, zero, suc, ◌-◌, ◌≤◌, ◌<◌, ◌≡◌, refl, ap, ◌∙◌, some, List, [], ◌∷◌, ◌++◌, length,
  get_elem?, take, drop, slice, position, or_else, unwrap_or, min, max, leb, ltb, ◌==◌, nat_eq,
  arith, Bool-cases, Option-cases, inl, inr, take-append-drop, drop-drop, length-drop,
}
use dna_db.Mvcc.{
  VersionEntry, VersionChain, row_of, one_at, compact_from, version_count, visible_at,
  compact_for_oldest_snapshot_with_floor,
}
use dna_db.Mvcc.Order.{IsBelow, IsSorted, IsSortedFrom, newest}
use dna_db.Mvcc.Visibility.{visible_at-newest}

-- How many versions are dropped from the front, when the tail starts at `start`.
abbrev dropped : ℕ → ℕ → ℕ → ℕ
dropped floor start n = start - 1 - min (floor - (n - (start - 1))) (start - 1)

module _ {R : Type 0} where
  one_at-append :
      (i : ℕ) (vs : List (VersionEntry R))
      → i < length vs
      → one_at i vs ++ drop (suc i) vs ≡ drop i vs
  one_at-append i [] h = absurd (omega arith)
  one_at-append zero (v ∷ vs) h = refl
  one_at-append (suc i) (v ∷ vs) h = one_at-append i vs (omega arith)

  slice-append :
      (lo hi : ℕ) (vs : List (VersionEntry R)) → lo ≤ hi → slice lo hi vs ++ drop hi vs ≡ drop lo vs
  slice-append lo hi vs h =
      rw (← drop-drop (hi - lo) lo hi vs (omega arith)) (take-append-drop (hi - lo) (drop lo vs))

  -- With a tail that starts behind the first version, compaction drops versions from the front only.
  compact_from-eq-drop :
      (m start : ℕ) (vs : List (VersionEntry R))
      → 0 < start
      → start ≤ length vs
      → compact_from m start vs ≡ drop (dropped (max m 1) start (length vs)) vs
  unfolding compact_from
  compact_from-eq-drop m start vs p h =
      rw (baseline, length-drop (start - 1) vs)
        (elim (Bool-cases (ltb (length vs - (start - 1)) (max m 1))) [
          | inl short ↦
              rw short
                (slice-append (dropped (max m 1) start (length vs)) (start - 1) vs (omega arith))
          | inr long ↦ rw long (ap (λ (k : ℕ). drop k vs) (ground arith))
        ])
    where
      same : suc (start - 1) ≡ start
      same = omega arith

      baseline : one_at (start - 1) vs ++ drop start vs ≡ drop (start - 1) vs
      baseline = rw same at (one_at-append (start - 1) vs (omega arith))

  -- The versions in front of the tail are at or before the boundary.
  position_before :
      (oldest i : ℕ) (vs : List (VersionEntry R))
      → i < unwrap_or (position (λ v. ltb oldest v.ts) vs) (length vs)
      → (v : VersionEntry R) × (get_elem? vs i ≡ some v) × (v.ts ≤ oldest)
  position_before oldest i [] h = absurd (omega arith)
  position_before oldest zero (v ∷ vs) h = (v, refl, ground arith)
  position_before oldest (suc i) (v ∷ vs) h = ground (arith, position_before oldest i vs)

  position_le :
      (oldest : ℕ) (vs : List (VersionEntry R))
      → unwrap_or (position (λ v. ltb oldest v.ts) vs) (length vs) ≤ length vs
  position_le oldest [] = omega arith
  position_le oldest (v ∷ vs) = ground (arith, position_le oldest vs)

  newest-append :
      (snap : ℕ) (xs ys : List (VersionEntry R))
      → newest snap (xs ++ ys) ≡ or_else (newest snap ys) (newest snap xs)
  newest-append snap [] ys = ground arith
  newest-append snap (x ∷ xs) ys = ground (arith, newest-append snap xs ys)

  newest-IsSome :
      (snap i : ℕ) (vs : List (VersionEntry R)) {v : VersionEntry R}
      → get_elem? vs i ≡ some v
      → v.ts ≤ snap
      → (w : VersionEntry R) × (newest snap vs ≡ some w)
  newest-IsSome snap i [] e h = absurd (cc)
  newest-IsSome snap zero (x ∷ vs) e h = elim (Option-cases (newest snap vs)) [
    | inl q ↦ (x, ground arith)
    | inr (w, q) ↦ (w, rw q)
  ]
  newest-IsSome snap (suc i) (x ∷ vs) {v} e h =
      let (w, q) = newest-IsSome snap i vs {v = v} e h in (w, rw q)

  -- What is kept of a chain: a suffix that has at least `floor` versions, unless the chain is shorter,
  -- and begins with a version at or before the boundary, unless it is the whole chain.
  record Kept (oldest floor : ℕ) (vs kept : List (VersionEntry R)) : Type 0 where
    count : ℕ
    is_suffix : kept ≡ drop count vs
    floor_kept : min floor (length vs) ≤ length kept
    baseline :
        (count ≡ 0) ⊎ ((v : VersionEntry R) × (get_elem? vs count ≡ some v) × (v.ts ≤ oldest))

  Kept-all : (oldest floor : ℕ) (vs : List (VersionEntry R)) → Kept oldest floor vs vs
  Kept-all oldest floor vs = record {
    count = 0;
    is_suffix = refl;
    floor_kept = omega arith;
    baseline = inl refl;
  }

  Kept-compact_from :
      (oldest m start : ℕ) (vs : List (VersionEntry R))
      → start ≡ unwrap_or (position (λ v. ltb oldest v.ts) vs) (length vs)
      → 0 < start
      → Kept oldest (max m 1) vs (compact_from m start vs)
  Kept-compact_from oldest m start vs e p = record {
    count = k;
    is_suffix = suffix;
    floor_kept = rw (suffix, length-drop k vs) (omega (arith, fits));
    baseline = inr (position_before oldest k vs (omega (arith, fits)));
  }
    where
      k : ℕ
      k = dropped (max m 1) start (length vs)

      fits : start ≤ length vs
      fits = rw e (position_le oldest vs)

      suffix : compact_from m start vs ≡ drop k vs
      suffix = compact_from-eq-drop m start vs p fits

  -- Compaction keeps a suffix of the chain.
  compact-Kept :
      (oldest m : ℕ) (chain : VersionChain R)
      → Kept oldest
          (max m 1)
          chain.versions
          (compact_for_oldest_snapshot_with_floor oldest m chain).versions
  unfolding compact_for_oldest_snapshot_with_floor
  compact-Kept oldest m chain = elim (Bool-cases (leb (length chain.versions) 1)) [
    | inl short ↦ rw short (Kept-all oldest (max m 1) chain.versions)
    | inr long ↦ rw long (elim (Bool-cases (start == 0)) [
      | inl none_before ↦ rw none_before (Kept-all oldest (max m 1) chain.versions)
      | inr some_before ↦
          rw some_before (Kept-compact_from oldest m start chain.versions refl (ground arith))
    ])
  ]
    where
      start : ℕ
      start = unwrap_or (position (λ v. ltb oldest v.ts) chain.versions) (length chain.versions)

  get_elem?-drop : (k : ℕ) (vs : List (VersionEntry R)) → get_elem? (drop k vs) 0 ≡ get_elem? vs k
  get_elem?-drop zero vs = refl
  get_elem?-drop (suc k) [] = refl
  get_elem?-drop (suc k) (v ∷ vs) = get_elem?-drop k vs

  newest-Kept :
      (snap oldest floor : ℕ) (vs kept : List (VersionEntry R))
      → Kept oldest floor vs kept
      → oldest ≤ snap
      → newest snap kept ≡ newest snap vs
  newest-Kept snap oldest floor vs kept k h = elim k.baseline [
    | inl z ↦ rw (k.is_suffix, z) refl
    | inr (v, at, le) ↦
        let (w, q) =
          newest-IsSome snap 0 (drop k.count vs) (get_elem?-drop k.count vs ∙ at) (omega arith) in
        rw k.is_suffix (
          cc (
            q,
            newest-append snap (take k.count vs) (drop k.count vs),
            take-append-drop k.count vs,
          ))
  ]

  -- For every snapshot from the oldest active one on, compaction with any floor changes nothing that
  -- the snapshot sees; and it keeps `m` versions at least, and one at least, of a chain that has them.
  pub visible_at-compact :
      (oldest m snap : ℕ) (chain : VersionChain R)
      → oldest ≤ snap
      → (visible_at snap (compact_for_oldest_snapshot_with_floor oldest m chain)
          ≡ visible_at snap chain)
        × (min (max m 1) (version_count chain)
            ≤ version_count (compact_for_oldest_snapshot_with_floor oldest m chain))
  unfolding version_count
  visible_at-compact oldest m snap chain h = (
    rw (visible_at-newest, visible_at-newest snap chain)
        (ap row_of (newest-Kept snap oldest (max m 1) _ _ kept h)),
    kept.floor_kept,
  )
    where
      kept :
          Kept oldest
            (max m 1)
            chain.versions
            (compact_for_oldest_snapshot_with_floor oldest m chain).versions
      kept = compact-Kept oldest m chain

  IsSorted-drop : (k : ℕ) (vs : List (VersionEntry R)) → IsSortedFrom vs → IsSortedFrom (drop k vs)
  IsSorted-drop zero vs s = s
  IsSorted-drop (suc k) [] s = s
  IsSorted-drop (suc k) (v ∷ vs) s = IsSorted-drop k vs s.1

  pub compact-IsSorted :
      (oldest m : ℕ) (chain : VersionChain R)
      → IsSorted chain
      → IsSorted (compact_for_oldest_snapshot_with_floor oldest m chain)
  compact-IsSorted oldest m chain s =
      let kept = compact-Kept oldest m chain in
      rw kept.is_suffix (IsSorted-drop kept.count chain.versions s)

  All-drop :
      (P : VersionEntry R → Type 0) (k : ℕ) (vs : List (VersionEntry R))
      → All P vs
      → All P (drop k vs)
  All-drop P zero vs h = h
  All-drop P (suc k) [] h = h
  All-drop P (suc k) (v ∷ vs) h = All-drop P k vs h.1

  pub compact-IsBelow :
      (clock oldest m : ℕ) (chain : VersionChain R)
      → IsBelow clock chain
      → IsBelow clock (compact_for_oldest_snapshot_with_floor oldest m chain)
  compact-IsBelow clock oldest m chain b =
      let kept = compact-Kept oldest m chain in
      rw kept.is_suffix (All-drop (λ v. v.ts ≤ clock) kept.count chain.versions b)
