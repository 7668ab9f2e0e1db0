-- ===== src/Lifecycle.antt =====
-- engine/src/lifecycle.rs: which strands expire, and the pool of deleted ones. A `Duration` is its
-- nanoseconds, and `now_ns` an argument, as it is there.
pub mod Expiry
pub mod Pool
pub mod Refresh
mod Tests
use dna_db.Prelude.{
  ℕ, zero, suc, ◌+◌, ◌-◌, ◌*◌, ◌%◌, ◌^◌, ◌≡◌, refl, Bool, true, false, not, ◌&&◌, ◌||◌, Option,
  none, some, List, [], ◌∷◌, length, retain, unwrap_or, String, ltb, leb, u16_max, saturating_add,
  if◌then◌else◌, ◌==◌, nat_eq, arith,
}
use dna_db.Prelude.Map.{Map, get, insert, remove}
use dna_db.Model.{Strand, Telomere, RefreshPolicy, auto_on_read, manual, immortal}

pub data LifecycleMode : Type 0 where
  immortal_mode telomere_mode : LifecycleMode

pub data ExpireAction : Type 0 where
  no_action archive_it delete_it : ExpireAction

pub record LifecyclePolicy : Type 0 where
  pub mode : LifecycleMode
  pub initial_count : ℕ
  pub refresh_policy : RefreshPolicy
  pub on_expire : ExpireAction
  pub minimum_age_ns : ℕ

abbrev pub immortal_default : LifecyclePolicy
immortal_default = record {
  mode = immortal_mode;
  initial_count = u16_max;
  refresh_policy = immortal;
  on_expire = no_action;
  minimum_age_ns = 0;
}

abbrev pub telomere_opt_in : ℕ → RefreshPolicy → ExpireAction → ℕ → LifecyclePolicy
telomere_opt_in initial_count refresh_policy on_expire minimum_age = record {
  mode = telomere_mode;
  initial_count = initial_count;
  refresh_policy = refresh_policy;
  on_expire = on_expire;
  minimum_age_ns = minimum_age % 2 ^ 64;
}

abbrev pub LifecyclePolicyStore : Type 0
LifecyclePolicyStore = Map ℕ LifecyclePolicy

unfoldable pub effective_policy_for_collection : ℕ → LifecyclePolicyStore → LifecyclePolicy
effective_policy_for_collection collection_id collection_policies =
    unwrap_or (get collection_id collection_policies) immortal_default

unfoldable pub set_policy : ℕ → LifecyclePolicy → LifecyclePolicyStore → LifecyclePolicyStore
set_policy collection_id policy store = insert collection_id policy store

unfoldable pub clear_policy : ℕ → LifecyclePolicyStore → LifecyclePolicyStore
clear_policy collection_id store = remove collection_id store

unfoldable pub policy_for : LifecyclePolicyStore → ℕ → LifecyclePolicy
unfolding effective_policy_for_collection
policy_for store collection_id = effective_policy_for_collection collection_id store

pub data LifecycleDecision : Type 0 where
  keep needs_manual_refresh archive soft_delete : LifecycleDecision

abbrev pub rank : LifecycleDecision → ℕ
rank keep = 0
rank needs_manual_refresh = 1
rank archive = 2
rank soft_delete = 3

-- Ord::max, which returns the second of two that are equal.
abbrev pub max_decision : LifecycleDecision → LifecycleDecision → LifecycleDecision
max_decision a b = if ltb (rank b) (rank a) then a else b

pub record DeletedStrandRecord : Type 0 where
  pub signature : List ℕ
  pub collection_id : ℕ
  pub deleted_at_ns : ℕ
  pub purge_after_ns : ℕ
  pub reason : String

pub record DeleteConfig : Type 0 where
  pub grace_period_ns : ℕ

abbrev pub with_grace_period : ℕ → DeleteConfig
with_grace_period period = record { grace_period_ns = period % 2 ^ 64 }

abbrev pub default_soft_delete : DeleteConfig
default_soft_delete = with_grace_period (30 * 24 * 60 * 60 * 1000000000)

abbrev pub is_immortal : LifecycleMode → Bool
is_immortal immortal_mode = true
is_immortal telomere_mode = false

unfoldable pub initialize_telomere_for_new_strand : Strand → LifecyclePolicy → ℕ → Strand
initialize_telomere_for_new_strand strand policy now_ns =
    let is_so = is_immortal policy.mode in
    record strand {
      telomere = record {
        immortal = is_so;
        count = if is_so then u16_max else policy.initial_count;
        refresh_policy = policy.refresh_policy;
        last_refresh = now_ns;
      };
    }

unfoldable pub apply_replication_event : Strand → Strand
apply_replication_event strand =
    if strand.telomere.immortal
    then strand
    else record strand { telomere = record strand.telomere { count = strand.telomere.count - 1 } }

unfoldable pub refresh_strand_telomere : Strand → LifecyclePolicy → ℕ → Strand
refresh_strand_telomere strand policy now_ns =
    if is_immortal policy.mode || strand.telomere.immortal
    then record strand {
      telomere = record {
        last_refresh = now_ns;
        immortal = true;
        count = u16_max;
        refresh_policy = immortal;
      };
    }
    else record strand {
      telomere = record {
        last_refresh = now_ns;
        immortal = false;
        count = policy.initial_count;
        refresh_policy = policy.refresh_policy;
      };
    }

-- The loop of `refresh_collection_strands`: the strands, and the number of refreshed ones.
unfoldable pub refresh_strands :
    List Strand → ℕ → LifecyclePolicy → ℕ → (Strand → Bool) → ℕ → List Strand × ℕ
refresh_strands [] collection_id policy now_ns predicate refreshed = ([], refreshed)
refresh_strands (strand ∷ strands) collection_id policy now_ns predicate refreshed =
    if not (strand.collection_id == collection_id) || not (predicate strand)
    then (let (rest, n) = refresh_strands strands collection_id policy now_ns predicate refreshed in
        (strand ∷ rest, n))
    else (let (rest, n) =
          refresh_strands strands collection_id policy now_ns predicate
            (saturating_add refreshed 1) in
        (refresh_strand_telomere strand policy now_ns ∷ rest, n))

unfoldable pub refresh_collection_strands :
    List Strand → ℕ → LifecyclePolicy → ℕ → (Strand → Bool) → List Strand × ℕ
unfolding refresh_strands
refresh_collection_strands strands collection_id policy now_ns predicate =
    refresh_strands strands collection_id policy now_ns predicate 0

unfoldable pub soft_delete_record_for_strand :
    Strand → ℕ → DeleteConfig → String → DeletedStrandRecord
soft_delete_record_for_strand strand now_ns cfg reason = record {
  signature = strand.signature;
  collection_id = strand.collection_id;
  deleted_at_ns = now_ns;
  purge_after_ns = saturating_add now_ns cfg.grace_period_ns;
  reason = reason;
}

-- Byte by byte, as arrays compare.
abbrev pub signature_leb : List ℕ → List ℕ → Bool
signature_leb [] b = true
signature_leb (x ∷ a) [] = false
signature_leb (x ∷ a) (y ∷ b) = ltb x y || ((x == y) && signature_leb a b)

-- `sort_unstable` on signatures
abbrev pub insert_sorted : List ℕ → List (List ℕ) → List (List ℕ)
insert_sorted s [] = s ∷ []
insert_sorted s (t ∷ ts) =
    let rest = insert_sorted s ts in if signature_leb s t then s ∷ t ∷ ts else t ∷ rest

abbrev pub sort_unstable : List (List ℕ) → List (List ℕ)
sort_unstable [] = []
sort_unstable (s ∷ ss) = insert_sorted s (sort_unstable ss)

abbrev pub is_expired : ℕ → DeletedStrandRecord → Bool
is_expired now_ns r = leb r.purge_after_ns now_ns

-- `retain` of `sweep_deleted_pool`: the pool, and the signatures that its closure pushes.
unfoldable pub sweep_records :
    List DeletedStrandRecord → ℕ → List DeletedStrandRecord × List (List ℕ)
sweep_records [] now_ns = ([], [])
sweep_records (r ∷ rs) now_ns =
    let (kept, purged) = sweep_records rs now_ns in
    if is_expired now_ns r then (kept, r.signature ∷ purged) else (r ∷ kept, purged)

unfoldable pub sweep_deleted_pool :
    List DeletedStrandRecord → ℕ → List DeletedStrandRecord × List (List ℕ)
unfolding sweep_records
sweep_deleted_pool deleted_pool now_ns =
    let (kept, purged) = sweep_records deleted_pool now_ns in (kept, sort_unstable purged)

unfoldable pub evaluate_lifecycle_action : Strand → LifecyclePolicy → ℕ → LifecycleDecision
evaluate_lifecycle_action strand policy now_ns =
    if is_immortal policy.mode || strand.telomere.immortal
    then keep
    else if ltb 0 strand.telomere.count
    then keep
    else if ltb (now_ns - strand.created_at) policy.minimum_age_ns
    then keep
    else max_decision
        (elim policy.refresh_policy [
          | auto_on_read ↦ keep
          | manual ↦ needs_manual_refresh
          | immortal ↦ keep
        ])
        (elim policy.on_expire [
          | no_action ↦ keep
          | archive_it ↦ archive
          | delete_it ↦ soft_delete
        ])
