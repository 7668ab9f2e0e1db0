-- ===== src/Histone/Tests.antt =====
-- Runs of engine/src/histone.rs, and its theorems at concrete blocks.
use dna_db.Prelude.{ℕ, ◌≡◌, refl, Bool, true, false, not, ◌&&◌, none, some, List, [], ◌∷◌, nat_eq}
use dna_db.Prelude.Map.{Map, get}
use dna_db.Histone.{
  Temperature, hot, warm, cold, frozen, new_stats, HistoneBlock, RebalanceAction, freeze, promote,
  CompactionSegment, CompactionPlan, same_tier, is_cold_or_frozen, evaluate_tier_transition,
  run_rebalance_tick, plan_compaction,
}
use dna_db.Histone.Tiers.{evaluate_tier_lem}

abbrev block : ℕ → Temperature → HistoneBlock
block id temperature = record {
  block_id = id;
  strands = [];
  temperature = temperature;
  semantic_key = none;
  compressed = false;
  last_access_ns = 0;
}

abbrev blocks : List HistoneBlock
blocks = block 9 hot ∷ block 4 cold ∷ []

abbrev telomeres : Map ℕ (ℕ × Bool)
telomeres = (9, (0, false)) ∷ []

abbrev frozen_block : RebalanceAction
frozen_block = record { block_id = 9; from = hot; to = frozen; kind = freeze }

abbrev warmed_block : RebalanceAction
warmed_block = record { block_id = 4; from = cold; to = warm; kind = promote }

ticks : run_rebalance_tick 1000 blocks [] telomeres (4 ∷ 9 ∷ []) ≡ warmed_block ∷ frozen_block ∷ []
unfolding run_rebalance_tick get
ticks = refl

evaluate_tier_lem_example :
    (same_tier (evaluate_tier_transition cold (new_stats 5) 100 1 false true).next frozen ≡ false)
    × ((evaluate_tier_transition cold (new_stats 5) 100 1 false true).previous ≡ cold)
    × ((evaluate_tier_transition cold (new_stats 5) 100 1 false true).changed
        ≡ not (
            same_tier
              (evaluate_tier_transition cold (new_stats 5) 100 1 false true).previous
              (evaluate_tier_transition cold (new_stats 5) 100 1 false true).next))
    × ((not false
          && true
          && is_cold_or_frozen cold
          && not
              (same_tier (evaluate_tier_transition cold (new_stats 5) 100 1 false true).next warm))
        ≡ false)
evaluate_tier_lem_example = evaluate_tier_lem cold (new_stats 5) 100 1 false true

abbrev segment : ℕ → Temperature → CompactionSegment
segment id temperature = record { segment_id = id; temperature = temperature; records = [] }

abbrev segments : List CompactionSegment
segments = segment 3 frozen ∷ segment 2 hot ∷ segment 1 cold ∷ []

abbrev plan : CompactionPlan
plan = record { selected_segment_ids = 1 ∷ 3 ∷ []; output_segment_id = 8 }

plans : plan_compaction segments 8 ≡ some plan
unfolding plan_compaction
plans = refl
