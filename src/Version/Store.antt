-- ===== src/Version/Store.antt =====
-- The commit DAG, crates/vecvec-core/src/version/store.rs. Version numbers are 64-bit counters
-- that are taken not to run out.
pub mod Pointers
pub mod Retained
pub mod Collect
pub mod Differ
pub mod Snapshots
use vecvec.Prelude.{
  ℕ, zero, suc, ◌+◌, ◌-◌, String, Bool, true, false, not, Option, none, some, List, [], ◌∷◌, ◌++◌,
  take, keep, if◌then◌else◌, is_some, length,
}
use mathlib.Core.List.{reverse}
use vecvec.Prelude.Maps.{
  HashMap, TreeMap, lookup, put, insert, without, keys, values, nat_key, string_key, mem,
  set_insert, set_extend,
}
use vecvec.Version.Deletion
use vecvec.Version.Deletion.{Treemap, DeletionVector}
use vecvec.Version.Manifest.{Manifest, SegmentRef, segment_ids}

-- `VersionSelector`
pub data VersionSelector : Type 0 where
  version : ℕ → VersionSelector
  tag : String → VersionSelector
  branch : String → VersionSelector
  head : VersionSelector

-- `Diff`
pub record Diff : Type 0 where
  pub from : ℕ
  pub to : ℕ
  pub added : List ℕ
  pub removed : List ℕ

-- `RetentionRules`, and its default
pub record RetentionRules : Type 0 where
  pub keep_last : Option ℕ
  pub keep_tagged : Bool
  pub keep_branch_heads : Bool

unfoldable pub keep_all : RetentionRules
keep_all = record { keep_last = none; keep_tagged = true; keep_branch_heads = true }

-- `GcReport`
pub record GcReport : Type 0 where
  pub removed_versions : List ℕ
  pub orphan_segments : List ℕ

-- `VersionError`, and a `Result` with it.
pub data VersionError : Type 0 where
  no_such_version : ℕ → VersionError
  unresolvable : VersionError

pub data Checked {ℓ} (A : Type ℓ) : Type ℓ where
  ok : A → Checked A
  err : VersionError → Checked A

module _ ⦃tm : Treemap⦄ where
  -- `VersionStore`
  pub record VersionStore : Type 0 where
    pub commits : TreeMap Manifest
    pub head : Option ℕ
    pub branches : HashMap String ℕ
    pub tags : HashMap String ℕ
    pub next_version : ℕ

  unfoldable pub new : VersionStore
  new = record { commits = []; head = none; branches = []; tags = []; next_version = 0 }

  abbrev put_tag : Option String → ℕ → HashMap String ℕ → HashMap String ℕ
  put_tag none v tags = tags
  put_tag (some name) v tags = put name v tags

  unfoldable pub commit :
      String
      → Option String
      → Option String
      → List SegmentRef
      → DeletionVector
      → ℕ
      → VersionStore
      → VersionStore × Manifest
  commit trigger message label segments deletions created_at_ms s =
      let number = s.next_version in
      let manifest : Manifest = record {
        version = number;
        parent = s.head;
        created_at_ms = created_at_ms;
        trigger = trigger;
        message = message;
        segments = segments;
        deletions = deletions;
      } in
      (
        record {
          commits = insert number manifest s.commits;
          head = some number;
          branches = s.branches;
          tags = put_tag label number s.tags;
          next_version = number + 1;
        },
        manifest,
      )

  -- `VersionStoreSnapshot`
  pub record VersionStoreSnapshot : Type 0 where
    pub manifests : List Manifest
    pub head : Option ℕ
    pub branches : HashMap String ℕ
    pub tags : HashMap String ℕ
    pub next_version : ℕ

  unfoldable pub snapshot : VersionStore → VersionStoreSnapshot
  snapshot s = record {
    manifests = values s.commits;
    head = s.head;
    branches = s.branches;
    tags = s.tags;
    next_version = s.next_version;
  }

  -- `collect` into a `BTreeMap` by version.
  abbrev pub by_version : TreeMap Manifest → List Manifest → TreeMap Manifest
  by_version m [] = m
  by_version m (x ∷ xs) = by_version (insert x.version x m) xs

  unfoldable pub from_snapshot : VersionStoreSnapshot → VersionStore
  from_snapshot s = record {
    commits = by_version [] s.manifests;
    head = s.head;
    branches = s.branches;
    tags = s.tags;
    next_version = s.next_version;
  }

  abbrev pub extend_all : List ℕ → List Manifest → List ℕ
  extend_all ids [] = ids
  extend_all ids (m ∷ ms) = extend_all (set_extend ids (segment_ids m)) ms

  unfoldable pub all_referenced_segments : VersionStore → List ℕ
  all_referenced_segments s = extend_all [] (values s.commits)

  unfoldable pub get : ℕ → VersionStore → Option Manifest
  get number s = lookup number s.commits

  -- `list`
  unfoldable pub list : VersionStore → List Manifest
  list s = values s.commits

  unfoldable pub len : VersionStore → ℕ
  len s = length s.commits

  unfoldable pub resolve : VersionSelector → VersionStore → Option ℕ
  resolve (version v) s = if is_some (lookup v s.commits) then some v else none
  resolve (tag t) s = lookup t s.tags
  resolve (branch b) s = lookup b s.branches
  resolve head s = s.head

  unfoldable pub set_tag : String → ℕ → VersionStore → Checked VersionStore
  set_tag name number s =
      if is_some (lookup number s.commits)
      then ok (record s { tags = put name number s.tags })
      else err (no_such_version number)

  unfoldable pub set_branch : String → ℕ → VersionStore → Checked VersionStore
  set_branch name number s =
      if is_some (lookup number s.commits)
      then ok (record s { branches = put name number s.branches })
      else err (no_such_version number)

  -- The inner loop of `live_ids`: `n` ids from `id` on.
  abbrev live_range : DeletionVector → ℕ → ℕ → List ℕ → List ℕ
  live_range deletions zero id live = live
  live_range deletions (suc n) id live =
      live_range deletions n (id + 1)
        (if not (Deletion.contains id deletions) then set_insert id live else live)

  abbrev live_segments : DeletionVector → List SegmentRef → List ℕ → List ℕ
  live_segments deletions [] live = live
  live_segments deletions (seg ∷ segs) live =
      live_segments deletions segs (live_range deletions (seg.id_hi + 1 - seg.id_lo) seg.id_lo live)

  unfoldable pub live_ids : Manifest → List ℕ
  live_ids m = live_segments m.deletions m.segments []

  -- `a.difference(&b)`
  abbrev pub difference : List ℕ → List ℕ → List ℕ
  difference a b = keep (λ i. not (mem i b)) a

  unfoldable pub diff : ℕ → ℕ → VersionStore → Checked Diff
  unfolding get
  diff from to s = elim (get from s) [
    | none ↦ err (no_such_version from)
    | some a ↦ elim (get to s) [
      | none ↦ err (no_such_version to)
      | some b ↦ ok (record {
        from = from;
        to = to;
        added = difference (live_ids b) (live_ids a);
        removed = difference (live_ids a) (live_ids b);
      })
    ]
  ]

  abbrev pub pointed : HashMap String ℕ → List ℕ
  pointed [] = []
  pointed ((name, v) ∷ m) = v ∷ pointed m

  abbrev pub with_head : Option ℕ → List ℕ
  with_head none = []
  with_head (some h) = h ∷ []

  abbrev pub last_versions : Option ℕ → TreeMap Manifest → List ℕ
  last_versions none commits = keys commits
  last_versions (some k) commits = take k (reverse (keys commits))

  unfoldable pub retained_versions : RetentionRules → VersionStore → List ℕ
  retained_versions rules s =
      let heads = with_head s.head in
      let branched =
        if rules.keep_branch_heads then set_extend heads (pointed s.branches) else heads in
      let tagged = if rules.keep_tagged then set_extend branched (pointed s.tags) else branched in
      set_extend tagged (last_versions rules.keep_last s.commits)

  -- The loop that collects `retained_segments`.
  abbrev segments_of : TreeMap Manifest → List ℕ → List ℕ → List ℕ
  segments_of commits acc [] = acc
  segments_of commits acc (v ∷ vs) =
      segments_of commits
        (elim (lookup v commits) [ none ↦ acc | some m ↦ set_extend acc (segment_ids m) ]) vs

  -- The loop that collects `orphan_segments`, and the loop inside it.
  abbrev orphans_in : List ℕ → List ℕ → List ℕ → List ℕ
  orphans_in retained acc [] = acc
  orphans_in retained acc (sid ∷ sids) =
      orphans_in retained (if not (mem sid retained) then set_insert sid acc else acc) sids

  abbrev orphans_of : TreeMap Manifest → List ℕ → List ℕ → List ℕ → List ℕ
  orphans_of commits retained acc [] = acc
  orphans_of commits retained acc (v ∷ vs) =
      orphans_of commits retained
        (elim (lookup v commits) [ none ↦ acc | some m ↦ orphans_in retained acc (segment_ids m) ])
        vs

  unfoldable pub plan_gc : RetentionRules → VersionStore → GcReport
  plan_gc rules s =
      let retained = retained_versions rules s in
      let removed = keep (λ v. not (mem v retained)) (keys s.commits) in
      let retained_segments = segments_of s.commits [] retained in
      record {
        removed_versions = removed;
        orphan_segments = orphans_of s.commits retained_segments [] removed;
      }

  abbrev remove_all : List ℕ → TreeMap Manifest → TreeMap Manifest
  remove_all [] commits = commits
  remove_all (v ∷ vs) commits = remove_all vs (without v commits)

  unfoldable pub gc : RetentionRules → VersionStore → VersionStore × GcReport
  gc rules s =
      let report = plan_gc rules s in
      (record s { commits = remove_all report.removed_versions s.commits }, report)
