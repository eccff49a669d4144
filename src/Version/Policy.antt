-- ===== src/Version/Policy.antt =====
-- Automatic commits, crates/vecvec-core/src/version/policy.rs. The clock is the number of
-- milliseconds that `now_ms` returns at the call.
pub mod Firing
use vecvec.Prelude.{
  ℕ, ◌+◌, ◌-◌, ◌^◌, Bool, true, false, ◌&&◌, ◌||◌, Option, none, some, leb, ltb, min, if◌then◌else◌,
  is_some,
}

-- `VersioningPolicy`
pub record VersioningPolicy : Type 0 where
  pub every_n_writes : Option ℕ
  pub interval_ms : Option ℕ

unfoldable pub manual : VersioningPolicy
manual = record { every_n_writes = none; interval_ms = none }

unfoldable pub every : ℕ → VersioningPolicy
every n = record { every_n_writes = some n; interval_ms = none }

unfoldable pub is_automatic : VersioningPolicy → Bool
is_automatic p = is_some p.every_n_writes || is_some p.interval_ms

-- `TriggerEvaluator`
pub record TriggerEvaluator : Type 0 where
  pub policy : VersioningPolicy
  pub writes_since_commit : ℕ
  pub last_commit_ms : ℕ

unfoldable pub new : VersioningPolicy → ℕ → TriggerEvaluator
new policy now = record { policy = policy; writes_since_commit = 0; last_commit_ms = now }

-- `record_writes`: the addition saturates at 64 bits.
unfoldable pub record_writes : ℕ → TriggerEvaluator → TriggerEvaluator
record_writes n ev = record ev {
  writes_since_commit = min (ev.writes_since_commit + n) (2 ^ 64 - 1);
}

unfoldable pub pending_writes : TriggerEvaluator → ℕ
pending_writes ev = ev.writes_since_commit

-- The first `if let` of `should_commit`.
abbrev enough_writes : Option ℕ → ℕ → Bool
enough_writes none writes = false
enough_writes (some n) writes = leb n writes

-- The second one; `saturating_sub` stops at zero.
abbrev enough_time : Option ℕ → ℕ → ℕ → Bool
enough_time none writes elapsed = false
enough_time (some ms) writes elapsed = ltb 0 writes && leb ms elapsed

unfoldable pub should_commit : TriggerEvaluator → ℕ → Bool
should_commit ev now =
    if enough_writes ev.policy.every_n_writes ev.writes_since_commit
    then true
    else if enough_time ev.policy.interval_ms ev.writes_since_commit (now - ev.last_commit_ms)
    then true
    else false

-- What `note_commit` leaves pending.
abbrev left_over : Option ℕ → ℕ → ℕ
left_over none writes = 0
left_over (some n) writes = if leb n writes then writes - n else 0

unfoldable pub note_commit : TriggerEvaluator → ℕ → TriggerEvaluator
note_commit ev now = record ev {
  writes_since_commit = left_over ev.policy.every_n_writes ev.writes_since_commit;
  last_commit_ms = now;
}
