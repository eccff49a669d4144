-- ===== src/Collection/State.antt =====
-- The state of a collection, its configuration, and the access that recovery has to it:
-- crates/vecvec-core/src/collection.rs. A 64-bit counter wraps.
use vecvec.Prelude.{
  ℕ, ◌+◌, ◌-◌, ◌%◌, ◌^◌, String, Bool, Option, none, List, [], ◌∷◌, is_some, ◌||◌, ◌==◌, keep,
  length,
}
use vecvec.Prelude.Maps.{HashMap, TreeMap, lookup, insert, nat_key, mem, set_extend}
use vecvec.Error.{Result, ok, ◌>>=◌}
use vecvec.Distance.{Floats, Metric}
use vecvec.Segment.Sealed
use vecvec.Segment.Sealed.{HnswConfig, SealedSegment, SegmentSet, total_rows, from_sealed}
use vecvec.Segment.Appendable
use vecvec.Segment.Appendable.{AppendableSegment}
use vecvec.Version.Policy.{VersioningPolicy}
use vecvec.Version.Deletion
use vecvec.Version.Deletion.{Treemap, DeletionVector}
use vecvec.Version.Store
use vecvec.Version.Store.{
  VersionStore, VersionStoreSnapshot, snapshot, from_snapshot, all_referenced_segments,
}

-- `CompactionPolicy`
pub record CompactionPolicy : Type 0 where
  pub max_segments : Option ℕ
  pub interval_ms : Option ℕ

-- `CompactionPolicy::manual`
unfoldable pub never : CompactionPolicy
never = record { max_segments = none; interval_ms = none }

-- `CompactionPolicy::is_automatic`
unfoldable pub is_automatic : CompactionPolicy → Bool
is_automatic p = is_some p.max_segments || is_some p.interval_ms

-- `CollectionConfig`
pub record CollectionConfig : Type 0 where
  pub name : String
  pub dim : ℕ
  pub metric : Metric
  pub hnsw : HnswConfig
  pub versioning : VersioningPolicy
  pub compaction : CompactionPolicy

module _ ⦃fl : Floats⦄ ⦃tm : Treemap⦄ where
  -- `Collection`; `P` is the type of payloads, `serde_json::Value`.
  pub record Collection (P : Type 0) : Type 0 where
    pub config : CollectionConfig
    pub appendable : AppendableSegment
    pub working : SegmentSet
    pub all_segments : TreeMap SealedSegment
    pub working_deletions : DeletionVector
    pub payloads : HashMap ℕ P
    pub versions : VersionStore
    pub next_global_id : ℕ
    pub next_segment_id : ℕ

  -- The loop that fills the registry.
  abbrev pub register_all : List SealedSegment → TreeMap SealedSegment → TreeMap SealedSegment
  register_all [] map = map
  register_all (s ∷ ss) map = register_all ss (insert s.id s map)

  abbrev pub ids_in : List SealedSegment → List ℕ
  ids_in [] = []
  ids_in (s ∷ ss) = s.id ∷ ids_in ss

  module _ {P : Type 0} where
    -- `create`
    unfoldable pub create : CollectionConfig → Result (Collection P)
    create config = Appendable.new config.dim config.metric >>= (λ appendable. ok (record {
      config = config;
      appendable = appendable;
      working = Sealed.empty;
      all_segments = [];
      working_deletions = Deletion.new;
      payloads = [];
      versions = Store.new;
      next_global_id = 0;
      next_segment_id = 0;
    }))

    -- `len`; the subtraction saturates.
    unfoldable pub len : Collection P → ℕ
    len c = total_rows c.working + Appendable.len c.appendable - Deletion.len c.working_deletions

    unfoldable pub is_empty : Collection P → Bool
    unfolding len
    is_empty c = len c == 0

    unfoldable pub sealed_count : Collection P → ℕ
    sealed_count c = length c.working.sealed

    -- `alloc_global_id`
    unfoldable pub alloc_global_id : Collection P → Collection P × ℕ
    alloc_global_id c =
        (record c { next_global_id = (c.next_global_id + 1) % 2 ^ 64 }, c.next_global_id)

    unfoldable pub set_payloads : HashMap ℕ P → Collection P → Collection P
    set_payloads payloads c = record c { payloads = payloads }

    unfoldable pub set_deletions : DeletionVector → Collection P → Collection P
    set_deletions deletions c = record c { working_deletions = deletions }

    unfoldable pub set_allocators : ℕ → ℕ → Collection P → Collection P
    set_allocators next_global next_segment c = record c {
      next_global_id = next_global;
      next_segment_id = next_segment;
    }

    unfoldable pub install_recovered : List SealedSegment → List ℕ → Collection P → Collection P
    install_recovered all working_ids c = record c {
      all_segments = register_all all c.all_segments;
      working = from_sealed (keep (λ s. mem s.id working_ids) all);
    }

    unfoldable pub version_snapshot : Collection P → VersionStoreSnapshot
    version_snapshot c = snapshot c.versions

    unfoldable pub load_version_snapshot : VersionStoreSnapshot → Collection P → Collection P
    load_version_snapshot saved c = record c { versions = from_snapshot saved }

    unfoldable pub get_segment : ℕ → Collection P → Option SealedSegment
    get_segment id c = lookup id c.all_segments

    unfoldable pub working_segment_ids : Collection P → List ℕ
    working_segment_ids c = ids_in c.working.sealed

    unfoldable pub segment_ids_to_persist : Collection P → List ℕ
    segment_ids_to_persist c =
        set_extend (set_extend [] (ids_in c.working.sealed)) (all_referenced_segments c.versions)
