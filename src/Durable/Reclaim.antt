-- ===== src/Durable/Reclaim.antt =====
-- Garbage collection on disk, `gc` of crates/vecvec-core/src/durable.rs.
use vecvec.Prelude.{
  ℕ, ◌≡◌, ◌≢◌, refl, sym, ap, ◌∙◌, subst, Bool, true, false, not, ◌||◌, ◌&&◌, none, some, List, [],
  ◌∷◌, ◌++◌, is_some, arith, keep, if◌then◌else◌, ◌==◌, ==-false, Bool-cases, Option-cases, inl,
  inr, ◌⊎◌,
}
use vecvec.Prelude.Maps.{
  HashMap, TreeMap, lookup, without, lookup-put, lookup-without, nat_key, mem, mem-append,
}
use vecvec.Error.{ok, err, io}
use vecvec.Distance.{Floats}
use vecvec.Segment.Sealed.{SealedSegment}
use vecvec.Version.Deletion.{Treemap}
use vecvec.Version.Store
use vecvec.Version.Store.{RetentionRules}
use vecvec.Collection.State.{
  segment_ids_to_persist, Collection, CollectionConfig, create, get_segment, ids_in,
}
use vecvec.Collection.Loops.{drop_orphans}
use vecvec.Collection.Write
use vecvec.Collection.Collecting.{lookup-drop_orphans}
use vecvec.Vector
use vecvec.Segment.Appendable
use vecvec.Collection.Tidy.{IsTidy}
use vecvec.Durable.Disk.{
  FsyncMode, Disk, change, with_config, write_sealed, remove, load, write_versions,
}
use vecvec.Durable.State.{
  DurableCollection, load_all, persist_one, persist_missing, persist_versions, open_durable,
  recover, ids_to_load,
}
use vecvec.Durable.Write.{remove_all, gc}
use vecvec.Durable.Files.{head_ids, mem-ids_to_load_eq}

missing-other :
    {V : Type 0} (i j : ℕ) (v : V) (m : HashMap ℕ V)
    → lookup j m ≡ some v
    → lookup i m ≡ none
    → (j == i) ≡ false
missing-other i j v m there gone = elim (Bool-cases (j == i)) [
  | inl e ↦ let same : j ≡ i = ground (arith, e) in let same_value = ap (λ k. lookup k m) same in cc
  | inr e ↦ e
]

module _ ⦃fl : Floats⦄ ⦃tm : Treemap⦄ where
  mem-pick :
      (gone : Bool) (id sid : ℕ) (dropped : List ℕ)
      → mem id (if gone then dropped ++ sid ∷ [] else dropped)
        ≡ (mem id dropped || (gone && id == sid))
  mem-pick true id sid dropped = ground (arith, mem-append id dropped (sid ∷ []))
  mem-pick false id sid dropped = ground arith

  -- What is dropped was an orphan, and is not live.
  mem-drop_orphans :
      (id : ℕ) (working sids : List ℕ) (all : TreeMap SealedSegment) (dropped : List ℕ)
      → mem id (drop_orphans working sids all dropped).1 ≡ true
      → (mem id dropped || (mem id sids && not (mem id working))) ≡ true
  mem-drop_orphans id working [] all dropped m = ground arith
  mem-drop_orphans id working (sid ∷ sids) all dropped m =
      let gone = not (mem sid working) && is_some (lookup sid all) in
      let rest =
        mem-drop_orphans id working sids (if gone then without sid all else all)
          (if gone then dropped ++ sid ∷ [] else dropped) m in
      ground (arith, mem-pick gone id sid dropped, rest)

  -- Removing more files of segments keeps a segment away.
  removed_from :
      (id j : ℕ) (dropped : List ℕ) (segments : HashMap ℕ SealedSegment)
      → (lookup id segments ≡ none) ⊎ (mem id (j ∷ dropped) ≡ true)
      → (lookup id (without j segments) ≡ none) ⊎ (mem id dropped ≡ true)
  removed_from id j dropped segments h = elim (Bool-cases (j == id)) [
    | inl e ↦ inl (ground (arith, lookup-without j id segments, e))
    | inr e ↦ elim h [
      | inl k ↦ inl (ground (arith, lookup-without j id segments, e, k))
      | inr k ↦ inr (ground (arith, k, e))
    ]
  ]

  module _ {P : Type 0} where
    load-lookup :
        (id : ℕ) (disk : Disk P)
        → load id disk ≡ elim (lookup id disk.segments) [ none ↦ err io | some s ↦ ok s ]
    unfolding load
    load-lookup id disk = refl

    load_all-missing :
        (id : ℕ) (ids : List ℕ) (disk : Disk P)
        → mem id ids ≡ true
        → lookup id disk.segments ≡ none
        → load_all ids disk ≡ err io
    load_all-missing id [] disk m h = absurd (ground (arith, m))
    load_all-missing id (j ∷ ids) disk m h = elim (Option-cases (lookup j disk.segments)) [
      | inl e ↦ rw (load-lookup j disk, e) refl
      | inr (s, e) ↦
          rw
            (
              load-lookup j disk,
              e,
              load_all-missing id ids disk
                  (ground (arith, m, missing-other id j s disk.segments e h)) h,
            )
            refl
    ]

    -- What the writes of a pass leave alone, where one id is not registered.
    record Unfiled (id : ℕ) (d e : DurableCollection P) : Type 0 where
      collection : e.collection ≡ d.collection
      head : e.dir.disk.head ≡ d.dir.disk.head
      missing : lookup id e.dir.disk.segments ≡ none

    module _ (id : ℕ) where
      persist_one-missing :
          (j : ℕ) (d : DurableCollection P)
          → lookup id d.collection.all_segments ≡ none
          → ((i : ℕ) (s : SealedSegment) → lookup i d.collection.all_segments ≡ some s → s.id ≡ i)
          → lookup id d.dir.disk.segments ≡ none
          → Unfiled id d (persist_one j d)
      unfolding get_segment change write_sealed
      persist_one-missing j d gone owned lacks = elim (Bool-cases (mem j d.persisted_segments)) [
        | inl e ↦ rw e (record { collection = refl; head = refl; missing = lacks })
        | inr e ↦ elim (Option-cases (lookup j d.collection.all_segments)) [
          | inl f ↦
              rw (e, persist_one, f) (record { collection = refl; head = refl; missing = lacks })
          | inr (s, f) ↦
              rw (e, persist_one, f)
                (record {
                  collection = refl;
                  head = refl;
                  missing = ground (
                    arith,
                    lookup-put s.id id s d.dir.disk.segments,
                    owned j s f,
                    missing-other id j s d.collection.all_segments f gone,
                    lacks,
                  );
                })
        ]
      ]

      persist_missing-missing :
          (ids : List ℕ) (d : DurableCollection P)
          → lookup id d.collection.all_segments ≡ none
          → ((i : ℕ) (s : SealedSegment) → lookup i d.collection.all_segments ≡ some s → s.id ≡ i)
          → lookup id d.dir.disk.segments ≡ none
          → Unfiled id d (persist_missing ids d)
      persist_missing-missing [] d gone owned lacks = record {
        collection = refl;
        head = refl;
        missing = lacks;
      }
      persist_missing-missing (j ∷ ids) d gone owned lacks =
          let a = persist_one-missing j d gone owned lacks in
          let b =
            persist_missing-missing ids (persist_one j d)
              (subst (λ (c : Collection P). lookup id c.all_segments ≡ none) (sym a.collection)
                gone)
              (subst
                (λ (c : Collection P).
                  (i : ℕ) (s : SealedSegment) → lookup i c.all_segments ≡ some s → s.id ≡ i)
                (sym a.collection) owned)
              a.missing in
          record {
            collection = b.collection ∙ a.collection;
            head = b.head ∙ a.head;
            missing = b.missing;
          }

      remove_all-missing :
          (dropped : List ℕ) (d : DurableCollection P)
          → (lookup id d.dir.disk.segments ≡ none) ⊎ (mem id dropped ≡ true)
          → Unfiled id d (remove_all dropped d)
      unfolding change remove
      remove_all-missing [] d (inl h) = record { collection = refl; head = refl; missing = h }
      remove_all-missing [] d (inr h) = absurd (ground (arith, h))
      remove_all-missing (j ∷ dropped) d h =
          let rest =
            remove_all-missing dropped
              (record d {
                dir = change (remove j) d.dir;
                persisted_segments = keep (λ i. not (i == j)) d.persisted_segments;
              })
              (removed_from id j dropped d.dir.disk.segments h) in
          record { collection = rest.collection; head = rest.head; missing = rest.missing }

    recover-missing :
        (disk : Disk P) (config : CollectionConfig) (id : ℕ)
        → config.dim ≢ 0
        → mem id (ids_to_load disk) ≡ true
        → lookup id disk.segments ≡ none
        → recover config (with_config disk.config config disk) ≡ err io
    unfolding recover create Appendable.new Vector.new
    recover-missing disk config id n needed lacks =
        elim disk.config as (λ o. recover config (with_config o config disk) ≡ err io) [
          | none ↦
              let made : Disk P = record disk { config = some config } in
              rw (==-false config.dim 0 n, load_all-missing id (ids_to_load disk) made needed lacks)
                refl
          | some old ↦
              rw (==-false config.dim 0 n, load_all-missing id (ids_to_load disk) disk needed lacks)
                refl
        ]

    -- A segment that the head or a version needs, and that is gone.
    open-missing :
        (disk : Disk P) (config : CollectionConfig) (fsync : FsyncMode) (now id : ℕ)
        → config.dim ≢ 0
        → mem id (ids_to_load disk) ≡ true
        → lookup id disk.segments ≡ none
        → open_durable disk config fsync now ≡ err io
    unfolding open_durable
    open-missing disk config fsync now id n needed lacks =
        rw (recover-missing disk config id n needed lacks) refl

    gc-Unfiled :
        (retention : RetentionRules) (d : DurableCollection P) (id : ℕ)
        → IsTidy d.collection
        → mem id (gc retention d).1 ≡ true
        → ((gc retention d).0.dir.disk.head ≡ d.dir.disk.head)
          × (lookup id (gc retention d).0.dir.disk.segments ≡ none)
    unfolding gc Write.gc persist_versions write_versions change
    gc-Unfiled retention d id tidy dropped =
        let c = (Write.gc retention d.collection).0 in
        let orphans = (Store.gc retention d.collection.versions).1.orphan_segments in
        let live = ids_in d.collection.working.sealed in
        let law = λ (i : ℕ). lookup-drop_orphans i live orphans d.collection.all_segments [] in
        let a =
          remove_all-missing id (Write.gc retention d.collection).1 (record d { collection = c })
            (inr dropped) in
        let removed =
          remove_all (Write.gc retention d.collection).1 (record d { collection = c }) in
        let orphan = mem-drop_orphans id live orphans d.collection.all_segments [] dropped in
        let gone : lookup id c.all_segments ≡ none = ground (arith, law id, orphan) in
        let owned : (i : ℕ) (s : SealedSegment) → lookup i c.all_segments ≡ some s → s.id ≡ i =
          λ i s h. tidy.owned i s (ground (arith, law i, h)) in
        let b =
          persist_missing-missing id (segment_ids_to_persist removed.collection) removed
            (subst (λ (x : Collection P). lookup id x.all_segments ≡ none) (sym a.collection) gone)
            (subst
              (λ (x : Collection P).
                (i : ℕ) (s : SealedSegment) → lookup i x.all_segments ≡ some s → s.id ≡ i)
              (sym a.collection) owned)
            a.missing in
        (b.head ∙ a.head, b.missing)

    -- Where a pass drops a segment that the head of the last checkpoint lists, on a collection whose
    -- segments are registered under their own ids, the directory does not open any more: for every
    -- configuration of a positive dimension it is an i/o error.
    pub gc-open_fails :
        (retention : RetentionRules) (d : DurableCollection P) (id : ℕ) (config : CollectionConfig)
        (fsync : FsyncMode) (now : ℕ)
        → config.dim ≢ 0
        → IsTidy d.collection
        → mem id (gc retention d).1 ≡ true
        → mem id (head_ids d.dir.disk.head) ≡ true
        → open_durable (gc retention d).0.dir.disk config fsync now ≡ err io
    gc-open_fails retention d id config fsync now n tidy dropped listed =
        let (head, lacks) = gc-Unfiled retention d id tidy dropped in
        let disk = (gc retention d).0.dir.disk in
        open-missing disk config fsync now id n
          (ground (arith, mem-ids_to_load_eq disk id, ap (λ h. mem id (head_ids h)) head, listed))
          lacks
