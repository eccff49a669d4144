-- ===== src/Examples/Versioning.antt =====
-- Versions, policies and collections of garbage at concrete inputs.
use vecvec.Prelude.{
  ℕ, ◌+◌, ◌*◌, ◌-◌, ◌<◌, ◌≤◌, ◌≡◌, ◌↔◌, refl, String, true, false, not, ◌&&◌, ◌||◌, ◌==◌, none,
  some, List, [], ◌∷◌, any, arith, ◌⊎◌, is_some, if◌then◌else◌,
}
use vecvec.Prelude.Maps.{mem, lookup, string_key, nat_key}
use text.Mathlib.Text.{◌==◌ as str_eq}
use vecvec.Version.Deletion
use vecvec.Version.Deletion.{DeletionVector}
use vecvec.Version.Manifest.{Manifest, SegmentRef, segment_ids}
use vecvec.Version.Policy.{TriggerEvaluator, every, should_commit}
use vecvec.Version.Policy.Firing.{should_commit_iff, run, run-every, total}
use vecvec.Version.Store
use vecvec.Version.Store.{
  VersionStore, RetentionRules, VersionSelector, Diff, tag, branch, head, version, get, resolve,
  set_tag, set_branch, ok, err, no_such_version, gc, retained_versions, last_versions, pointed,
  with_head, live_ids, diff, snapshot, from_snapshot,
}
use vecvec.Version.Store.Pointers.{IsValid, new-IsValid, commit-IsValid, commit_effect}
use vecvec.Version.Store.Collect.{
  get-gc, mem-orphan_segments, refers, gc_safe, gc-IsValid, gc_dangling_tag,
}
use vecvec.Version.Store.Differ.{is_live, diff_exact}
use vecvec.Version.Store.Retained.{is_recent, is_named, is_head, mem-retained_versions}
use vecvec.Version.Store.Snapshots.{from_snapshot-snapshot}
use vecvec.Examples.Data.{listed}

-- A policy of a commit every 3 writes, and four batches of 2.
abbrev started : TriggerEvaluator
started = record {
  policy = record { every_n_writes = some 3; interval_ms = none };
  writes_since_commit = 0;
  last_commit_ms = 100;
}

abbrev batches : List (ℕ × ℕ)
batches = (2, 110) ∷ (2, 120) ∷ (2, 130) ∷ (2, 140) ∷ []

should_commit_iff_example :
    (should_commit (record started { writes_since_commit = 4 }) 200 ≡ true) ↔ (
      ((n : ℕ) × (some 3 ≡ some n) × (n ≤ 4))
      ⊎ ((ms : ℕ) × (none ≡ some ms) × (0 < 4) × (ms ≤ 200 - 100)))
should_commit_iff_example = should_commit_iff (record started { writes_since_commit = 4 }) 200

every_third : started.policy ≡ every 3
unfolding every
every_third = refl

run-every_example :
    ((run started batches).1 * 3 + (run started batches).0.writes_since_commit ≡ 0 + total batches)
    × ((run started batches).0.writes_since_commit < 3)
run-every_example =
    run-every 3 batches started every_third (omega arith)
      (omega arith, (omega arith, (omega arith, (omega arith, tt)))) (omega arith)

abbrev refs_a : List SegmentRef
refs_a = record { id = 0; id_lo = 0; id_hi = 2; count = 3 } ∷ []

abbrev refs_b : List SegmentRef
refs_b = record { id = 1; id_lo = 3; id_hi = 4; count = 2 } ∷ []

abbrev one_gone : DeletionVector
one_gone = record { bitmap = 3 ∷ [] }

-- Version 0 with the tag "first" and segment 0, then version 1 with segment 1 only.
abbrev store1 : VersionStore
store1 = (Store.commit "manual" none (some "first") refs_a Deletion.new 10 Store.new).0

abbrev store2 : VersionStore
store2 = (Store.commit "manual" none none refs_b one_gone 20 store1).0

abbrev made1 : Manifest
made1 = (Store.commit "manual" none (some "first") refs_a Deletion.new 10 Store.new).1

abbrev made2 : Manifest
made2 = (Store.commit "manual" none none refs_b one_gone 20 store1).1

store1-IsValid : IsValid store1
store1-IsValid =
    commit-IsValid "manual" none (some "first") refs_a Deletion.new 10 Store.new new-IsValid

commit-IsValid_example : IsValid store2
commit-IsValid_example = commit-IsValid "manual" none none refs_b one_gone 20 store1 store1-IsValid

commit_effect_example :
    (get 0 Store.new ≡ none)
    × ((v : ℕ) → get v store1 ≡ (if 0 == v then some made1 else get v Store.new))
    × (resolve head store1 ≡ some made1.version)
    × (made1.version ≡ 0)
    × (made1.parent ≡ none)
    × ((name : String)
        → resolve (tag name) store1
          ≡ (if str_eq "first" name then some 0 else resolve (tag name) Store.new))
    × ((name : String) → resolve (branch name) store1 ≡ resolve (branch name) Store.new)
unfolding Store.new
commit_effect_example =
    commit_effect "manual" none (some "first") refs_a Deletion.new 10 Store.new new-IsValid

-- Keep the last version, with the tags or without.
abbrev last_tagged : RetentionRules
last_tagged = record { keep_last = some 1; keep_tagged = true; keep_branch_heads = true }

abbrev last_only : RetentionRules
last_only = record { keep_last = some 1; keep_tagged = false; keep_branch_heads = true }

mem-retained_versions_example : mem 0 (retained_versions last_tagged store2) ≡ (
    (is_some (lookup 0 store2.commits) && is_recent (some 1) 0 store2.commits)
    || ((true && is_named 0 store2.tags)
        || ((true && is_named 0 store2.branches) || is_head 0 store2.head)))
mem-retained_versions_example =
    mem-retained_versions last_tagged store2 0 commit-IsValid_example.sorted

get-gc_example :
    get 0 (gc last_only store2).0
    ≡ (if mem 0 (retained_versions last_only store2) then get 0 store2 else none)
get-gc_example = get-gc last_only store2 0

mem-orphan_segments_example : mem 0 (gc last_only store2).1.orphan_segments ≡ (
    any (refers store2.commits 0) (gc last_only store2).1.removed_versions
    && not (any (refers store2.commits 0) (retained_versions last_only store2)))
mem-orphan_segments_example = mem-orphan_segments last_only store2 0

gc_safe_example : mem 0 (segment_ids made2) ≡ false
unfolding gc get Store.plan_gc retained_versions Store.commit Store.new
gc_safe_example = gc_safe last_only store2 1 0 made2 refl refl

gc-IsValid_example : IsValid (gc last_tagged store2).0
gc-IsValid_example = gc-IsValid last_tagged store2 commit-IsValid_example refl refl

gc_dangling_tag_example :
    (resolve (tag "first") (gc last_only store2).0 ≡ some 0)
    × (get 0 (gc last_only store2).0 ≡ none)
unfolding Store.commit Store.new retained_versions
gc_dangling_tag_example = gc_dangling_tag last_only store2 "first" 0 refl refl

diff_exact_example :
    ((get 0 store2 ≡ none) × (diff 0 1 store2 ≡ err (no_such_version 0)))
    ⊎ ((is_some (get 0 store2) ≡ true)
        × (get 1 store2 ≡ none)
        × (diff 0 1 store2 ≡ err (no_such_version 1)))
    ⊎ ((a : Manifest) × (b : Manifest) × (d : Diff) × (get 0 store2 ≡ some a)
        × (get 1 store2 ≡ some b)
        × (diff 0 1 store2 ≡ ok d)
        × ((i : ℕ) → mem i d.added ≡ (is_live i b && not (is_live i a)))
        × ((i : ℕ) → mem i d.removed ≡ (is_live i a && not (is_live i b))))
diff_exact_example = diff_exact 0 1 store2

from_snapshot-snapshot_example : from_snapshot (snapshot store2) ≡ store2
from_snapshot-snapshot_example = from_snapshot-snapshot store2 commit-IsValid_example
