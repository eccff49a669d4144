-- ===== src/Version/Policy/Firing.antt =====
-- When commits fire, over a run of batches: each batch is recorded, and a commit is made if the
-- evaluator asks for one, as `write_batch` does.
use vecvec.Prelude.{
  ℕ, ◌+◌, ◌*◌, ◌-◌, ◌^◌, ◌≡◌, ◌<◌, ◌≤◌, ◌↔◌, ◌⊎◌, ap, Bool, true, false, none, some, List, [], ◌∷◌,
  arith, if◌then◌else◌, All,
}
use vecvec.Version.Policy.{
  VersioningPolicy, TriggerEvaluator, record_writes, should_commit, note_commit, every,
}

-- A commit is due exactly if enough writes are pending, or if any is and enough time has passed.
pub should_commit_iff :
    (ev : TriggerEvaluator) (now : ℕ)
    → (should_commit ev now ≡ true) ↔ (
        ((n : ℕ) × (ev.policy.every_n_writes ≡ some n) × (n ≤ ev.writes_since_commit))
        ⊎ ((ms : ℕ) × (ev.policy.interval_ms ≡ some ms)
            × (0 < ev.writes_since_commit)
            × (ms ≤ now - ev.last_commit_ms)))
unfolding should_commit
should_commit_iff ev now = (λ h. ground arith, λ h. ground arith)

-- One batch of `n` writes at a time: the evaluator behind it, and whether it committed.
unfoldable pub step : TriggerEvaluator → ℕ → ℕ → TriggerEvaluator × Bool
step ev n now =
    let ev' = record_writes n ev in
    if should_commit ev' now then (note_commit ev' now, true) else (ev', false)

-- A run of batches, each with its size and its time; the number of commits is counted.
unfoldable pub run : TriggerEvaluator → List (ℕ × ℕ) → TriggerEvaluator × ℕ
run ev [] = (ev, 0)
run ev ((n, now) ∷ batches) =
    let (ev', committed) = step ev n now in
    let (ev'', commits) = run ev' batches in (ev'', if committed then commits + 1 else commits)

step-every :
    (n k now : ℕ) (ev : TriggerEvaluator)
    → ev.policy ≡ every n
    → ev.writes_since_commit < n
    → k ≤ n
    → 2 * n < 2 ^ 64
    → ((step ev k now).0.policy ≡ every n)
      × ((step ev k now).0.writes_since_commit < n)
      × ((if (step ev k now).1 then n else 0) + (step ev k now).0.writes_since_commit
          ≡ ev.writes_since_commit + k)
unfolding step record_writes should_commit note_commit every
step-every n k now ev p lt le small =
    let every_n : ev.policy.every_n_writes ≡ some n =
      ap (λ (q : VersioningPolicy). q.every_n_writes) p in
    let no_interval : ev.policy.interval_ms ≡ none =
      ap (λ (q : VersioningPolicy). q.interval_ms) p in
    (ground arith, ground arith, ground arith)

abbrev pub total : List (ℕ × ℕ) → ℕ
total [] = 0
total ((n, now) ∷ batches) = n + total batches

add_up :
    (a b c d e n commits : ℕ) (committed : Bool)
    → (if committed then n else 0) + a ≡ b + c
    → commits * n + d ≡ a + e
    → (if committed then commits + 1 else commits) * n + d ≡ b + (c + e)
add_up a b c d e n commits true h k = omega arith
add_up a b c d e n commits false h k = omega arith

-- Under the policy of a commit every `n` writes, with batches of at most `n`, from fewer than `n`
-- pending writes on, and for `n` below 2 ^ 63, a commit is made at each multiple of `n` exactly:
-- after any run the commits times `n` and the writes that are still pending add up to all writes,
-- and fewer than `n` are pending.
pub run-every :
    (n : ℕ) (batches : List (ℕ × ℕ)) (ev : TriggerEvaluator)
    → ev.policy ≡ every n
    → ev.writes_since_commit < n
    → All (λ (b : ℕ × ℕ). b.0 ≤ n) batches
    → 2 * n < 2 ^ 64
    → ((run ev batches).1 * n + (run ev batches).0.writes_since_commit
        ≡ ev.writes_since_commit + total batches)
      × ((run ev batches).0.writes_since_commit < n)
unfolding run
run-every n [] ev p lt fit small = (omega arith, lt)
run-every n ((k, now) ∷ batches) ev p lt (le, fit) small =
    let (p', lt', sum) = step-every n k now ev p lt le small in
    let (rest, below) = run-every n batches (step ev k now).0 p' lt' fit small in
    (
      add_up (step ev k now).0.writes_since_commit ev.writes_since_commit k
          (run (step ev k now).0 batches).0.writes_since_commit (total batches) n
          (run (step ev k now).0 batches).1 (step ev k now).1 sum rest,
      below,
    )
