-- ===== src/Durable/Trigger.antt =====
-- When a durable collection compacts, crates/vecvec-core/src/durable.rs. The clock is the number of
-- milliseconds that `now_ms` returns at the call.
use vecvec.Prelude.{
  ℕ, ◌-◌, ◌<◌, ◌≤◌, ◌≡◌, ◌↔◌, ◌⊎◌, Bool, true, false, Option, none, some, leb, if◌then◌else◌, arith,
}
use vecvec.Collection.State.{CompactionPolicy}

-- `CompactionTrigger`
pub record CompactionTrigger : Type 0 where
  pub policy : CompactionPolicy
  pub last_compaction_ms : ℕ

unfoldable pub new : CompactionPolicy → ℕ → CompactionTrigger
new policy now = record { policy = policy; last_compaction_ms = now }

-- The two `if let`s of `should_compact`.
abbrev pub enough_segments : Option ℕ → ℕ → Bool
enough_segments none segment_count = false
enough_segments (some max) segment_count = leb max segment_count

abbrev pub long_enough : Option ℕ → ℕ → Bool
long_enough none elapsed = false
long_enough (some ms) elapsed = leb ms elapsed

unfoldable pub should_compact : ℕ → ℕ → CompactionTrigger → Bool
should_compact segment_count now t =
    if leb segment_count 1
    then false
    else if enough_segments t.policy.max_segments segment_count
    then true
    else if long_enough t.policy.interval_ms (now - t.last_compaction_ms)
    then true
    else false

unfoldable pub note_compaction : ℕ → CompactionTrigger → CompactionTrigger
note_compaction now t = record t { last_compaction_ms = now }

-- Compaction is due exactly if there are two segments or more, and there are as many as the policy
-- allows or its interval has passed since the last compaction.
pub should_compact_iff :
    (t : CompactionTrigger) (segment_count now : ℕ)
    → (should_compact segment_count now t ≡ true) ↔ (
        (1 < segment_count)
        × (((n : ℕ) × (t.policy.max_segments ≡ some n) × (n ≤ segment_count))
            ⊎ ((ms : ℕ) × (t.policy.interval_ms ≡ some ms) × (ms ≤ now - t.last_compaction_ms))))
unfolding should_compact
should_compact_iff t segment_count now = (λ h. ground arith, λ h. ground arith)
