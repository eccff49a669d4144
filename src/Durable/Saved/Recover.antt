-- ===== src/Durable/Saved/Recover.antt =====
-- Loading a saved directory, in `open` of crates/vecvec-core/src/durable.rs, before its log is read.
use vecvec.Prelude.{
  ℕ, ◌≡◌, ◌≢◌, refl, sym, ap, ◌∙◌, subst, true, ◌||◌, Option, none, some, List, [], is_some, arith,
  keep, if◌then◌else◌, ==-false,
}
use vecvec.Prelude.Maps.{lookup, nat_key, mem, set_extend, mem-set_extend, values}
use vecvec.Prelude.Ascending.{IsAscending, set_extend-IsAscending}
use vecvec.Error.{ok}
use vecvec.Distance.{Floats}
use vecvec.Vector
use vecvec.Segment.IdMap
use vecvec.Segment.Sealed
use vecvec.Segment.Sealed.{SealedSegment}
use vecvec.Segment.Appendable
use vecvec.Segment.Appendable.{new-Holds}
use vecvec.Version.Deletion
use vecvec.Version.Deletion.{Treemap}
use vecvec.Version.Manifest.{segment_ids}
use vecvec.Version.Store
use vecvec.Version.Store.{
  VersionStore, VersionStoreSnapshot, from_snapshot, all_referenced_segments, extend_all,
  by_version,
}
use vecvec.Collection.State.{
  Collection, CollectionConfig, create, ids_in, register_all, install_recovered, set_allocators,
  set_deletions, set_payloads, load_version_snapshot,
}
use vecvec.Collection.Loops.{registered}
use vecvec.Collection.Registry.{AllRegistered-eq}
use vecvec.Collection.Contents.{Contents}
use vecvec.Collection.Tidy.{mem-extend_all}
use vecvec.Durable.Disk.{Disk}
use vecvec.Durable.State.{referenced, load_versions, ids_to_load, installed, recover}
use vecvec.Durable.Saved.{
  head_generation, head_working, head_global, head_segment, head_deletions, head_payloads, IsSaved,
  IsLoaded,
}
use vecvec.Durable.Saved.Loading.{
  keep_all, extend_all-IsAscending, any-by_version, keep-registered, lookup-register_all,
  registered-ids_in, load_all-registered,
}
use vecvec.Prelude.{append-nil}

module _ ⦃fl : Floats⦄ ⦃tm : Treemap⦄ where
  -- The version store that is loaded.
  abbrev store_of : Option VersionStoreSnapshot → VersionStore
  store_of none = Store.new
  store_of (some saved) = from_snapshot saved

  mem-referenced :
      (i : ℕ) (versions : Option VersionStoreSnapshot)
      → mem i (all_referenced_segments (store_of versions)) ≡ true
      → mem i (referenced versions) ≡ true
  unfolding all_referenced_segments from_snapshot Store.new
  mem-referenced i none h = h
  mem-referenced i (some saved) h =
      mem-extend_all i [] saved.manifests
      ∙ any-by_version (λ m. mem i (segment_ids m)) [] saved.manifests
          (sym (mem-extend_all i [] (values (by_version [] saved.manifests))) ∙ h)

  referenced-IsAscending :
      (versions : Option VersionStoreSnapshot) → IsAscending (referenced versions)
  referenced-IsAscending none = tt
  referenced-IsAscending (some saved) = extend_all-IsAscending [] saved.manifests tt

  module _ {P : Type 0} where
    -- The collection that `create` makes, with its versions loaded.
    abbrev blank : CollectionConfig → Option VersionStoreSnapshot → Collection P
    blank config versions = record {
      config = config;
      appendable = record { vectors = Vector.blank config.dim config.metric; ids = IdMap.new };
      working = Sealed.empty;
      all_segments = [];
      working_deletions = Deletion.new;
      payloads = [];
      versions = store_of versions;
      next_global_id = 0;
      next_segment_id = 0;
    }

    create-blank :
        (config : CollectionConfig)
        → config.dim ≢ 0
        → create {P = P} config ≡ ok (blank config none)
    unfolding create Appendable.new Vector.new
    create-blank config n = rw (==-false config.dim 0 n) refl

    load_versions-blank :
        (config : CollectionConfig) (versions : Option VersionStoreSnapshot)
        → load_versions versions (blank config none) ≡ blank config versions
    unfolding load_version_snapshot
    load_versions-blank config none = refl
    load_versions-blank config (some saved) = refl

    -- The collection with the head's numbers and the given segments.
    abbrev filled :
        CollectionConfig → Disk P → List SealedSegment → List SealedSegment → Collection P
    filled config disk segments all = record (blank config disk.versions) {
      working = Sealed.from_sealed segments;
      all_segments = register_all all [];
      working_deletions = head_deletions disk.head;
      payloads = head_payloads disk.head;
      next_global_id = head_global disk.head;
      next_segment_id = head_segment disk.head;
    }

    installed-filled :
        (config : CollectionConfig) (disk : Disk P) (all : List SealedSegment)
        → installed disk.head all (blank config disk.versions) ≡ (
          filled config disk (keep (λ s. mem s.id (head_working disk.head)) all) all,
          head_generation disk.head,
        )
    unfolding install_recovered set_allocators set_deletions set_payloads
    installed-filled config disk all =
        elim disk.head
          as (λ h. installed h all (blank config disk.versions) ≡ (
            record (blank config disk.versions) {
              working = Sealed.from_sealed (keep (λ s. mem s.id (head_working h)) all);
              all_segments = register_all all [];
              working_deletions = head_deletions h;
              payloads = head_payloads h;
              next_global_id = head_global h;
              next_segment_id = head_segment h;
            },
            head_generation h,
          )) [ none ↦ refl | some head ↦ refl ]

    pub mem-ids_to_load :
        (disk : Disk P) (i : ℕ)
        → (mem i (head_working disk.head) || mem i (referenced disk.versions)) ≡ true
        → mem i (ids_to_load disk) ≡ true
    mem-ids_to_load disk i =
        elim disk.head
          as (λ h.
            (mem i (head_working h) || mem i (referenced disk.versions)) ≡ true
            → mem i (elim h [
              | none ↦ referenced disk.versions
              | some head ↦
                  set_extend
                    (set_extend (set_extend [] head.all_segment_ids) head.working_segment_ids)
                    (referenced disk.versions)
            ])
              ≡ true) [
                | none ↦ λ e. e
                | some head ↦ λ e. ground (
                  arith,
                  mem-set_extend i
                      (set_extend (set_extend [] head.all_segment_ids) head.working_segment_ids)
                      (referenced disk.versions),
                  mem-set_extend i (set_extend [] head.all_segment_ids) head.working_segment_ids,
                )
              ]

    ids_to_load-IsAscending : (disk : Disk P) → IsAscending (ids_to_load disk)
    ids_to_load-IsAscending disk =
        elim disk.head
          as (λ h. IsAscending (elim h [
            | none ↦ referenced disk.versions
            | some head ↦
                set_extend
                  (set_extend (set_extend [] head.all_segment_ids) head.working_segment_ids)
                  (referenced disk.versions)
          ])) [
            | none ↦ referenced-IsAscending disk.versions
            | some head ↦
                set_extend-IsAscending
                  (set_extend (set_extend [] head.all_segment_ids) head.working_segment_ids)
                  (referenced disk.versions)
                  (set_extend-IsAscending (set_extend [] head.all_segment_ids)
                    head.working_segment_ids (set_extend-IsAscending [] head.all_segment_ids tt))
          ]

    -- Opening a directory that holds the contents `w` loads them.
    pub recover-IsLoaded :
        (config : CollectionConfig) (disk : Disk P) (w : Contents P)
        → config.dim ≢ 0
        → IsSaved disk w
        → (c : Collection P) × (recover config disk ≡ ok (c, head_generation disk.head))
          × IsLoaded config disk w c
    unfolding recover
    recover-IsLoaded config disk w n saved =
        let ids = ids_to_load disk in
        let all = registered disk.segments ids in
        let hw = head_working disk.head in
        let wanted : (i : ℕ) → mem i (ids_in saved.segments) ≡ true → mem i ids ≡ true =
          λ i h. mem-ids_to_load disk i (ground (arith, ap (mem i) saved.working, h)) in
        let kept : keep (λ (s : SealedSegment). mem s.id hw) all ≡ saved.segments =
          keep-registered disk.segments saved.owned (λ i. mem i hw) ids
          ∙ ap (registered disk.segments) (
              keep_all hw ids (subst IsAscending saved.working saved.ascending)
                (ids_to_load-IsAscending disk) (λ i h. wanted i (ap (mem i) saved.working ∙ h)))
          ∙ ap (registered disk.segments) (sym saved.working)
          ∙ registered-ids_in disk.segments saved.segments saved.stored in
        let registry : (i : ℕ)
            → lookup i (register_all all [])
              ≡ (if mem i ids then lookup i disk.segments else none) =
          λ i. lookup-register_all disk.segments saved.owned i ids [] saved.present in
        let run : recover config disk
            ≡ ok (filled config disk saved.segments all, head_generation disk.head) =
          (rw
            (
              create-blank config n,
              load_all-registered ids disk saved.present,
              load_versions-blank config disk.versions,
            )
            (ap ok (
              installed-filled config disk all
              ∙ ap (λ ss. (filled config disk ss all, head_generation disk.head)) kept))) in
        (
          filled config disk saved.segments all,
          run,
          record {
            represents = record {
              sealed_rows = w.rows;
              open_rows = [];
              sealed = saved.rows;
              unsealed = new-Holds config.dim config.metric;
              dim = refl;
              metric = refl;
              all_rows = sym (append-nil w.rows);
              deletions = saved.deletions;
              payloads = saved.payloads;
            };
            tidy = record {
              ascending = saved.ascending;
              below = saved.numbered;
              current =
                  AllRegistered-eq disk.segments (register_all all []) saved.segments
                    (λ i h. registry i ∙ ground (arith, wanted i h)) saved.stored;
              owned = λ id s e. saved.owned id s (ground (arith, registry id, e));
              referenced = λ id e.
                  let known : mem id ids ≡ true =
                    mem-ids_to_load disk id (ground (arith, mem-referenced id disk.versions e)) in
                  ap is_some (registry id) ∙ ground (arith, known, saved.present id known);
            };
            config_eq = refl;
            next_global = refl;
            next_segment = refl;
            registry = λ i h. registry i ∙ ground (arith, h);
          },
        )
