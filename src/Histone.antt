-- ===== src/Histone.antt =====
-- engine/src/histone.rs: the temperature of a block, the rebalance tick, and the plan of a compaction.
-- A `Duration` is its nanoseconds.
pub mod Tiers
pub mod Tick
pub mod Access
mod Tests
use dna_db.Prelude.{
  ℕ, zero, suc, ◌+◌, ◌-◌, ◌*◌, ◌^◌, ◌≡◌, ◌↔◌, refl, Bool, true, false, not, ◌&&◌, ◌||◌, Option,
  none, some, List, [], ◌∷◌, length, map, retain, unwrap_or, String, ltb, leb, u16_max, u32_max,
  saturating_add, if◌then◌else◌, ◌==◌, nat_eq, Eq, contains, sort_by_key, arith, min,
}
use dna_db.Prelude.Map.{Map, get}

pub data Temperature : Type 0 where
  hot warm cold frozen : Temperature

pub record HistoneBlock : Type 0 where
  pub block_id : ℕ
  pub strands : List (List ℕ)
  pub temperature : Temperature
  pub semantic_key : Option String
  pub compressed : Bool
  pub last_access_ns : ℕ

pub record BlockAccessStats : Type 0 where
  pub last_access_ns : ℕ
  pub access_count_total : ℕ
  pub access_count_recent : ℕ

-- BlockAccessStats::new
abbrev pub new_stats : ℕ → BlockAccessStats
new_stats last_access_ns = record {
  last_access_ns = last_access_ns;
  access_count_total = 0;
  access_count_recent = 0;
}

pub record TierDecision : Type 0 where
  pub previous : Temperature
  pub next : Temperature
  pub changed : Bool

pub data RebalanceActionKind : Type 0 where
  noop promote demote freeze compress : RebalanceActionKind

pub record RebalanceAction : Type 0 where
  pub block_id : ℕ
  pub from : Temperature
  pub to : Temperature
  pub kind : RebalanceActionKind

pub record CompactionRecord : Type 0 where
  pub record_id : ℕ
  pub clustering_key : Option String
  pub payload : List ℕ

pub record CompactionSegment : Type 0 where
  pub segment_id : ℕ
  pub temperature : Temperature
  pub records : List CompactionRecord

pub record CompactionPlan : Type 0 where
  pub selected_segment_ids : List ℕ
  pub output_segment_id : ℕ

abbrev pub hot_window : ℕ
hot_window = 5 * 60 * 1000000000

abbrev pub warm_window : ℕ
warm_window = 7 * 24 * 60 * 60 * 1000000000

abbrev pub reaccess_promotion_window : ℕ
reaccess_promotion_window = 10 * 60 * 1000000000

abbrev pub tier_rank : Temperature → ℕ
tier_rank frozen = 0
tier_rank cold = 1
tier_rank warm = 2
tier_rank hot = 3

-- `==` on temperatures.
abbrev pub same_tier : Temperature → Temperature → Bool
same_tier a b = tier_rank a == tier_rank b

unfoldable pub classify_temperature : ℕ → ℕ → ℕ → Bool → Temperature
classify_temperature now_ns last_access_ns telomere_count immortal =
    if (telomere_count == 0) && not immortal
    then frozen
    else let idle = now_ns - last_access_ns in
      if leb idle hot_window then hot else if leb idle warm_window then warm else cold

unfoldable pub on_access_promote_immediate : Temperature → Temperature
on_access_promote_immediate cold = warm
on_access_promote_immediate frozen = warm
on_access_promote_immediate warm = warm
on_access_promote_immediate hot = hot

unfoldable pub should_promote_warm_to_hot : ℕ → ℕ → Bool
should_promote_warm_to_hot last_access_ns now_ns =
    leb (now_ns - last_access_ns) reaccess_promotion_window

-- `u32::saturating_add(1)`
abbrev pub u32_successor : ℕ → ℕ
u32_successor n = min u32_max (n + 1)

unfoldable pub record_block_access : BlockAccessStats → ℕ → BlockAccessStats
unfolding should_promote_warm_to_hot
record_block_access stats now_ns = record {
  access_count_recent =
      if should_promote_warm_to_hot stats.last_access_ns now_ns
      then u32_successor stats.access_count_recent
      else 1;
  access_count_total = saturating_add stats.access_count_total 1;
  last_access_ns = now_ns;
}

abbrev pub is_cold_or_frozen : Temperature → Bool
is_cold_or_frozen cold = true
is_cold_or_frozen frozen = true
is_cold_or_frozen warm = false
is_cold_or_frozen hot = false

-- `next` after the block for an access.
abbrev pub next_tier : Temperature → BlockAccessStats → Temperature → Bool → Temperature
unfolding on_access_promote_immediate
next_tier current stats next was_accessed =
    if was_accessed
    then (if is_cold_or_frozen current
        then on_access_promote_immediate current
        else if same_tier current warm && leb 2 stats.access_count_recent
        then hot
        else next)
    else next

unfoldable pub evaluate_tier_transition :
    Temperature → BlockAccessStats → ℕ → ℕ → Bool → Bool → TierDecision
unfolding classify_temperature next_tier
evaluate_tier_transition current stats now_ns telomere_count immortal was_accessed =
    let next = classify_temperature now_ns stats.last_access_ns telomere_count immortal in
    if same_tier next frozen
    then record { previous = current; next = next; changed = not (same_tier current next) }
    else let next' = next_tier current stats next was_accessed in
      record { previous = current; next = next'; changed = not (same_tier current next') }

unfoldable pub action_kind : TierDecision → RebalanceActionKind
action_kind decision =
    if not decision.changed
    then noop
    else if same_tier decision.next frozen
    then freeze
    else if same_tier decision.next cold
    then compress
    else if ltb (tier_rank decision.previous) (tier_rank decision.next)
    then promote
    else demote

-- A round of the loop of `run_rebalance_tick`.
unfoldable pub block_action :
    ℕ → Map ℕ BlockAccessStats → Map ℕ (ℕ × Bool) → List ℕ → HistoneBlock → RebalanceAction
unfolding action_kind evaluate_tier_transition
block_action now_ns stats_by_block telomere_state_by_block accessed_blocks block =
    let stats = unwrap_or (get block.block_id stats_by_block) (new_stats block.last_access_ns) in
    let (telomere_count, immortal) =
      unwrap_or (get block.block_id telomere_state_by_block) (u16_max, true) in
    let was_accessed = contains accessed_blocks block.block_id in
    let decision =
      evaluate_tier_transition block.temperature stats now_ns telomere_count immortal
        was_accessed in
    record {
      block_id = block.block_id;
      from = decision.previous;
      to = decision.next;
      kind = action_kind decision;
    }

-- The actions; the source wraps them in a struct of one field.
unfoldable pub run_rebalance_tick :
    ℕ
    → List HistoneBlock
    → Map ℕ BlockAccessStats
    → Map ℕ (ℕ × Bool)
    → List ℕ
    → List RebalanceAction
unfolding block_action
run_rebalance_tick now_ns blocks stats_by_block telomere_state_by_block accessed_blocks =
    sort_by_key (λ a. a.block_id)
      (map (block_action now_ns stats_by_block telomere_state_by_block accessed_blocks) blocks)

unfoldable pub plan_compaction : List CompactionSegment → ℕ → Option CompactionPlan
plan_compaction segments next_segment_id =
    let selected =
      sort_by_key (λ n. n)
        (map (λ (s : CompactionSegment). s.segment_id)
          (retain (λ (s : CompactionSegment). is_cold_or_frozen s.temperature) segments)) in
    if ltb (length selected) 2
    then none
    else some (record { selected_segment_ids = selected; output_segment_id = next_segment_id })
