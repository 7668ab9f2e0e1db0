-- ===== src/Histone/Tiers.antt =====
-- engine/src/histone.rs: what a tier decision depends on.
use dna_db.Prelude.{ℕ, ◌≤◌, ◌≡◌, Bool, false, not, ◌&&◌, ◌==◌, nat_eq, arith}
use dna_db.Histone.{
  Temperature, warm, frozen, BlockAccessStats, tier_rank, same_tier, classify_temperature,
  evaluate_tier_transition, is_cold_or_frozen,
}

-- With no access a block never gets warmer: the later it is classified, the lower is its tier.
pub classify_cools :
    (now later last_access_ns telomere_count : ℕ) (immortal : Bool)
    → now ≤ later
    → tier_rank (classify_temperature later last_access_ns telomere_count immortal)
      ≤ tier_rank (classify_temperature now last_access_ns telomere_count immortal)
unfolding classify_temperature
classify_cools now later last_access_ns telomere_count immortal h = ground arith

-- A decision freezes a block exactly where its telomere count is zero and it is not immortal, whether
-- it was accessed or not. It starts at the current tier, and says that it changes the tier exactly
-- where the new tier is another one. A cold or frozen block that is accessed and is not to be frozen
-- gets warm.
pub evaluate_tier_lem :
    (current : Temperature) (stats : BlockAccessStats) (now telomere_count : ℕ)
    (immortal accessed : Bool)
    → let d = evaluate_tier_transition current stats now telomere_count immortal accessed in
      let expired = (telomere_count == 0) && not immortal in
      (same_tier d.next frozen ≡ expired)
      × (d.previous ≡ current)
      × (d.changed ≡ not (same_tier d.previous d.next))
      × ((not expired && accessed && is_cold_or_frozen current && not (same_tier d.next warm))
          ≡ false)
unfolding evaluate_tier_transition
evaluate_tier_lem current stats now telomere_count immortal accessed = ground arith
