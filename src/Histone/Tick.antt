-- ===== src/Histone/Tick.antt =====
-- engine/src/histone.rs: the actions of a rebalance tick, and the plan of a compaction.
use dna_db.Prelude.{
  ℕ, ◌≤◌, ◌≡◌, refl, ap, ◌∙◌, Bool, true, not, ◌&&◌, ◌||◌, some, List, [], ◌∷◌, length, length-map,
  map, retain, u16_max, unwrap_or, contains, ltb, if◌then◌else◌, ◌==◌, nat_eq, any, sort_by_key,
  IsSortedFrom, sort_by_key-IsSortedFrom, any-sort_by_key, length-sort_by_key, arith, Bool-cases,
  inl, inr,
}
use dna_db.Prelude.Map.{Map, get}
use dna_db.Histone.{
  Temperature, hot, warm, cold, frozen, BlockAccessStats, TierDecision, HistoneBlock,
  RebalanceAction, RebalanceActionKind, new_stats, noop, promote, demote, freeze, compress,
  tier_rank, same_tier, action_kind, block_action, evaluate_tier_transition, run_rebalance_tick,
  CompactionSegment, CompactionPlan, is_cold_or_frozen, plan_compaction,
}
use dna_db.Histone.Tiers.{evaluate_tier_lem}

-- What the tiers of an action say of its kind.
abbrev pub kind_of : Temperature → Temperature → RebalanceActionKind
kind_of from to = if same_tier from to then noop else elim to [
  | frozen ↦ freeze
  | cold ↦ compress
  | warm ↦ (if ltb (tier_rank from) 2 then promote else demote)
  | hot ↦ promote
]

action_kind-kind_of :
    (d : TierDecision)
    → d.changed ≡ not (same_tier d.previous d.next)
    → action_kind d ≡ kind_of d.previous d.next
unfolding action_kind
action_kind-kind_of d h = ground (arith, h)

-- The action for a block has its id and starts at its temperature, and its kind is what the two tiers
-- say: no action where they agree, else a freeze to frozen, a compression to cold, and a promotion or
-- a demotion to the others.
pub block_action_kind :
    (now : ℕ) (stats : Map ℕ BlockAccessStats) (telomeres : Map ℕ (ℕ × Bool)) (accessed : List ℕ)
    (b : HistoneBlock)
    → let a = block_action now stats telomeres accessed b in
      (a.block_id ≡ b.block_id) × (a.from ≡ b.temperature) × (a.kind ≡ kind_of a.from a.to)
unfolding block_action
block_action_kind now stats telomeres accessed b =
    let t = unwrap_or (get b.block_id telomeres) (u16_max, true) in
    let stats' = unwrap_or (get b.block_id stats) (new_stats b.last_access_ns) in
    let was_accessed = contains accessed b.block_id in
    let d = evaluate_tier_transition b.temperature stats' now t.0 t.1 was_accessed in
    let (frozen_if, starts, changes, warms) =
      evaluate_tier_lem b.temperature stats' now t.0 t.1 was_accessed in
    (refl, starts, action_kind-kind_of d changes)

any-map {ℓ κ} :
    {A : Type ℓ} {B : Type κ} (f : A → B) (p : B → Bool) (xs : List A)
    → any p (map f xs) ≡ any (λ x. p (f x)) xs
any-map f p [] = refl
any-map f p (x ∷ xs) = ap (λ b. p (f x) || b) (any-map f p xs)

any-retain {ℓ} :
    {A : Type ℓ} (p q : A → Bool) (xs : List A) → any p (retain q xs) ≡ any (λ x. q x && p x) xs
any-retain p q [] = refl
any-retain p q (x ∷ xs) = ground (arith, any-retain p q xs)

-- A tick answers each block with one action: they are in the order of the block ids, there are as
-- many as blocks, and each property that some action has is had by the action of some block, and the
-- other way round.
pub run_rebalance_tick_lem :
    (now : ℕ) (blocks : List HistoneBlock) (stats : Map ℕ BlockAccessStats)
    (telomeres : Map ℕ (ℕ × Bool)) (accessed : List ℕ) (p : RebalanceAction → Bool)
    → let actions = run_rebalance_tick now blocks stats telomeres accessed in
      IsSortedFrom (λ a. a.block_id) 0 actions
      × (length actions ≡ length blocks)
      × (any p actions ≡ any (λ b. p (block_action now stats telomeres accessed b)) blocks)
unfolding run_rebalance_tick
run_rebalance_tick_lem now blocks stats telomeres accessed p =
    let made = map (block_action now stats telomeres accessed) blocks in
    (
      sort_by_key-IsSortedFrom (λ a. a.block_id) made,
      length-sort_by_key (λ a. a.block_id) made
          ∙ length-map (block_action now stats telomeres accessed) blocks,
      any-sort_by_key (λ a. a.block_id) p made
          ∙ any-map (block_action now stats telomeres accessed) p blocks,
    )

-- A compaction is planned only for two segments or more. It then selects, in the order of their ids,
-- the ids of the cold and the frozen segments and no others.
pub plan_compaction_lem :
    (segments : List CompactionSegment) (next id : ℕ) (plan : CompactionPlan)
    → plan_compaction segments next ≡ some plan
    → (2 ≤ length plan.selected_segment_ids)
      × IsSortedFrom (λ n. n) 0 plan.selected_segment_ids
      × (plan.output_segment_id ≡ next)
      × (any (λ n. n == id) plan.selected_segment_ids
          ≡ any (λ s. is_cold_or_frozen s.temperature && (s.segment_id == id)) segments)
unfolding plan_compaction
plan_compaction_lem segments next id plan h =
    let picked = retain (λ (s : CompactionSegment). is_cold_or_frozen s.temperature) segments in
    let ids = map (λ (s : CompactionSegment). s.segment_id) picked in
    let selected = sort_by_key (λ (n : ℕ). n) ids in
    elim (Bool-cases (ltb (length selected) 2)) [
      | inl few ↦ ground (arith, h, few)
      | inr enough ↦
          let same : plan.selected_segment_ids ≡ selected = ground (arith, h, enough) in
          (
            rw same (ground (arith, enough)),
            rw same (sort_by_key-IsSortedFrom (λ (n : ℕ). n) ids),
            ground (arith, h, enough),
            rw same (
                any-sort_by_key (λ (n : ℕ). n) (λ n. n == id) ids
                ∙ any-map (λ (s : CompactionSegment). s.segment_id) (λ n. n == id) picked
                ∙ any-retain _ _ segments),
          )
    ]
