-- ===== src/GroupCommit.antt =====
-- engine/src/group_commit.rs: when the writers of a group sync. An `Instant` and a `Duration` are
-- numbers of nanoseconds, and the readings of the clock are arguments.
pub mod Bounds
mod Tests
use dna_db.Prelude.{
  ℕ, zero, suc, ◌+◌, ◌-◌, Bool, true, false, ◌||◌, Option, none, some, leb, ltb, max, if◌then◌else◌,
}

pub record GroupCommitPolicy : Type 0 where
  pub max_batch : ℕ
  pub max_interval : Option ℕ

pub record GroupCommit : Type 0 where
  pub policy : GroupCommitPolicy
  pub pending_since_sync : ℕ
  pub unsynced_since : Option ℕ

-- GroupCommit::new
abbrev pub new_group : GroupCommitPolicy → GroupCommit
new_group policy = record { policy = policy; pending_since_sync = 0; unsynced_since = none }

-- `is_some_and` of the interval and of the start of the group.
abbrev interval_hit : Option ℕ → Option ℕ → ℕ → Bool
interval_hit none since now = false
interval_hit (some iv) none now = false
interval_hit (some iv) (some t) now = leb iv (now - t)

abbrev or_now : Option ℕ → ℕ → Option ℕ
or_now none now = some now
or_now (some t) now = some t

-- `now` is read where the group starts, and `later` where its age is asked for. The answer says
-- whether the caller is to sync.
unfoldable pub after_record : GroupCommit → ℕ → ℕ → Bool × GroupCommit
after_record g now later =
    let pending = g.pending_since_sync + 1 in
    let since = or_now g.unsynced_since now in
    if leb (max g.policy.max_batch 1) pending || interval_hit g.policy.max_interval since later
    then (true, record { policy = g.policy; pending_since_sync = 0; unsynced_since = none })
    else (false, record { policy = g.policy; pending_since_sync = pending; unsynced_since = since })

unfoldable pub has_pending : GroupCommit → Bool
has_pending g = ltb 0 g.pending_since_sync
