-- ===== src/Mvcc.antt =====
-- engine/src/mvcc.rs: version chains, what a snapshot sees, and compaction. A record is of any type
-- `R`; timestamps and ids are `u64`.
pub mod Order
pub mod Visibility
pub mod Latest
pub mod Compaction
mod Tests
use mathlib.Core.Option
use mathlib.Core.List.{reverse}
use dna_db.Prelude.{
  ℕ, zero, ◌+◌, ◌-◌, Bool, true, Option, none, some, List, [], ◌∷◌, ◌++◌, length, get_elem?, drop,
  slice, last?, find, unwrap_or, partition_point, position, insert_at, min, max, ltb, leb, ◌==◌,
  nat_eq, if◌then◌else◌,
}

-- `row` is the source's `record`; `none` is a delete tombstone.
pub record VersionEntry (R : Type 0) : Type 0 where
  pub txn_id : ℕ
  pub ts : ℕ
  pub row : Option R

pub record VersionChain (R : Type 0) : Type 0 where
  pub record_id : ℕ
  pub versions : List (VersionEntry R)

-- `o < Some(b)` on options of numbers.
abbrev pub lt_some : Option ℕ → ℕ → Bool
lt_some none b = true
lt_some (some a) b = ltb a b

module _ {R : Type 0} where
  -- VersionChain::new
  unfoldable pub new : ℕ → VersionChain R
  new record_id = record { record_id = record_id; versions = [] }

  abbrev ts_of : Option (VersionEntry R) → Option ℕ
  ts_of none = none
  ts_of (some v) = some v.ts

  unfoldable pub latest_ts : VersionChain R → Option ℕ
  latest_ts chain = ts_of (last? chain.versions)

  -- The body that `insert_version` and `delete` share.
  unfoldable pub add_version : VersionEntry R → List (VersionEntry R) → List (VersionEntry R)
  add_version ver versions =
      if lt_some (ts_of (last? versions)) ver.ts
      then versions ++ ver ∷ []
      else insert_at (partition_point (λ v. leb v.ts ver.ts) versions) ver versions

  unfoldable pub insert_version : R → ℕ → ℕ → VersionChain R → VersionChain R
  unfolding add_version
  insert_version row txn_id ts chain = record chain {
    versions = add_version (record { txn_id = txn_id; ts = ts; row = some row }) chain.versions;
  }

  unfoldable pub delete : ℕ → ℕ → VersionChain R → VersionChain R
  unfolding add_version
  delete txn_id ts chain = record chain {
    versions = add_version (record { txn_id = txn_id; ts = ts; row = none }) chain.versions;
  }

  abbrev row_of : Option (VersionEntry R) → Option R
  row_of none = none
  row_of (some v) = v.row

  unfoldable pub visible_at : ℕ → VersionChain R → Option R
  visible_at snapshot_ts chain = row_of (find (λ v. leb v.ts snapshot_ts) (reverse chain.versions))

  unfoldable pub version_count : VersionChain R → ℕ
  version_count chain = length chain.versions

  -- `self.versions[i].clone()` in a vector; the index is in bounds where this is called.
  abbrev one_at : ℕ → List (VersionEntry R) → List (VersionEntry R)
  one_at i versions = elim (get_elem? versions i) [ none ↦ [] | some v ↦ v ∷ [] ]

  -- What is left once `keep_tail_start` is known and is not 0.
  compact_from : ℕ → ℕ → List (VersionEntry R) → List (VersionEntry R)
  compact_from min_versions_to_keep keep_tail_start versions =
      let compacted = one_at (keep_tail_start - 1) versions ++ drop keep_tail_start versions in
      let floor = max min_versions_to_keep 1 in
      let need = floor - length compacted in
      let take' = min need (keep_tail_start - 1) in
      let prepend_start = keep_tail_start - 1 - take' in
      if ltb (length compacted) floor
      then slice prepend_start (keep_tail_start - 1) versions ++ compacted
      else compacted

  unfoldable pub compact_for_oldest_snapshot_with_floor : ℕ → ℕ → VersionChain R → VersionChain R
  unfolding compact_from
  compact_for_oldest_snapshot_with_floor oldest_active_snapshot min_versions_to_keep chain =
      let versions = chain.versions in
      let keep_tail_start =
        unwrap_or (position (λ v. ltb oldest_active_snapshot v.ts) versions) (length versions) in
      if leb (length versions) 1
      then chain
      else if keep_tail_start == 0
      then chain
      else record chain { versions = compact_from min_versions_to_keep keep_tail_start versions }

  pub compact_for_oldest_snapshot : ℕ → VersionChain R → VersionChain R
  unfolding compact_for_oldest_snapshot_with_floor
  compact_for_oldest_snapshot oldest_active_snapshot chain =
      compact_for_oldest_snapshot_with_floor oldest_active_snapshot 1 chain
