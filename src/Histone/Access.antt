-- ===== src/Histone/Access.antt =====
-- engine/src/histone.rs: the access counters of a block.
use dna_db.Prelude.{
  ℕ, ◌+◌, ◌≤◌, ◌<◌, ◌≡◌, refl, List, [], ◌∷◌, length, u32_max, u64_max, saturating_add, arith,
}
use dna_db.Histone.{BlockAccessStats, new_stats, record_block_access, should_promote_warm_to_hot}

-- The accesses at these times, one after another.
abbrev pub record_accesses : List ℕ → BlockAccessStats → BlockAccessStats
record_accesses [] stats = stats
record_accesses (now ∷ times) stats = record_accesses times (record_block_access stats now)

-- Counters that no sequence of accesses leaves.
abbrev IsCounted : ℕ → BlockAccessStats → Type 0
IsCounted n stats =
    (stats.access_count_total ≡ n)
    × (stats.access_count_recent ≤ stats.access_count_total)
    × (stats.access_count_recent ≤ u32_max)

record_block_access-IsCounted :
    (n now : ℕ) (stats : BlockAccessStats)
    → n < u64_max
    → IsCounted n stats
    → IsCounted (n + 1) (record_block_access stats now)
unfolding record_block_access saturating_add should_promote_warm_to_hot
record_block_access-IsCounted n now stats room c = ground (arith, c)

record_accesses-IsCounted :
    (times : List ℕ) (n : ℕ) (stats : BlockAccessStats)
    → n + length times ≤ u64_max
    → IsCounted n stats
    → IsCounted (n + length times) (record_accesses times stats)
record_accesses-IsCounted [] n stats room c = ground (arith, c)
record_accesses-IsCounted (now ∷ times) n stats room c = ground (
  arith,
  record_accesses-IsCounted times (n + 1) (record_block_access stats now) (omega arith)
      (record_block_access-IsCounted n now stats (omega arith) c),
)

-- After any sequence of accesses to a new block the total counts them, and the recent count is not
-- above the total nor the largest `u32`. There are at most as many accesses as a `u64` counts.
pub record_accesses_lem :
    (created : ℕ) (times : List ℕ)
    → length times ≤ u64_max
    → let stats = record_accesses times (new_stats created) in
      (stats.access_count_total ≡ length times)
      × (stats.access_count_recent ≤ length times)
      × (stats.access_count_recent ≤ u32_max)
record_accesses_lem created times room =
    let c =
      record_accesses-IsCounted times 0 (new_stats created) (omega arith)
        (refl, omega arith, omega arith) in
    (omega (arith, c), omega (arith, c), omega (arith, c))
