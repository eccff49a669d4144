-- ===== src/Durable/State.antt =====
-- A durable collection and how it is opened, crates/vecvec-core/src/durable.rs. The clock is the
-- number of milliseconds that `now_ms` returns.
use vecvec.Prelude.{ℕ, Option, none, some, List, [], ◌∷◌, if◌then◌else◌}
use vecvec.Prelude.Maps.{set_extend, set_insert, mem, nat_key}
use vecvec.Error.{Result, ok, err, panic, ◌>>=◌}
use vecvec.Distance.{Floats}
use vecvec.Segment.Sealed.{SealedSegment}
use vecvec.Persist.Wal.{WalOp, upsert, delete}
use vecvec.Version.Deletion.{Treemap}
use vecvec.Version.Policy
use vecvec.Version.Store.{VersionStoreSnapshot, extend_all}
use vecvec.Collection.State.{
  Collection, CollectionConfig, create, install_recovered, set_allocators, set_deletions,
  set_payloads, load_version_snapshot, get_segment, segment_ids_to_persist, version_snapshot,
}
use vecvec.Collection.Write
use vecvec.Collection.Write.{insert_with_id_and_payload}
use vecvec.Durable.Trigger
use vecvec.Durable.Disk.{
  FsyncMode, CheckpointHead, Disk, Dir, change, write_config_if_absent, write_sealed, load,
  write_versions, log_of, open_log,
}

module _ ⦃fl : Floats⦄ ⦃tm : Treemap⦄ where
  -- `DurableCollection`
  pub record DurableCollection (P : Type 0) : Type 0 where
    pub collection : Collection P
    pub dir : Dir P
    pub generation : ℕ
    pub fsync : FsyncMode
    pub trigger : Policy.TriggerEvaluator
    pub compaction : Trigger.CompactionTrigger
    pub persisted_segments : List ℕ

  -- The segments that the saved versions refer to.
  abbrev pub referenced : Option VersionStoreSnapshot → List ℕ
  referenced none = []
  referenced (some saved) = extend_all [] saved.manifests

  module _ {P : Type 0} where
    -- `apply_op`: what it does not apply it skips.
    abbrev pub or_skip : Collection P → Result (Collection P) → Result (Collection P)
    or_skip c panic = panic
    or_skip c (err e) = ok c
    or_skip c (ok d) = ok d

    unfoldable pub apply_op : Collection P → WalOp fl.F32 P → Result (Collection P)
    apply_op c (upsert id vector payload) =
        or_skip c (insert_with_id_and_payload id vector payload c)
    apply_op c (delete id) = ok (Write.delete id c).0

    -- The replay of a log.
    abbrev pub replay : Collection P → List (WalOp fl.F32 P) → Result (Collection P)
    replay c [] = ok c
    replay c (op ∷ ops) = apply_op c op >>= (λ d. replay d ops)

    -- The loop that loads segments.
    abbrev pub load_all : List ℕ → Disk P → Result (List SealedSegment)
    load_all [] disk = ok []
    load_all (id ∷ ids) disk = load id disk >>= (λ s. load_all ids disk >>= (λ ss. ok (s ∷ ss)))

    abbrev pub load_versions : Option VersionStoreSnapshot → Collection P → Collection P
    load_versions none c = c
    load_versions (some saved) c = load_version_snapshot saved c

    -- What `open` loads, before it replays the log: the ids, the collection, the generation.
    abbrev pub ids_to_load : Disk P → List ℕ
    ids_to_load disk = elim disk.head [
      | none ↦ referenced disk.versions
      | some head ↦
          set_extend (set_extend (set_extend [] head.all_segment_ids) head.working_segment_ids)
            (referenced disk.versions)
    ]

    abbrev pub installed :
        Option (CheckpointHead P) → List SealedSegment → Collection P → Collection P × ℕ
    installed none segments c = (install_recovered segments [] c, 0)
    installed (some head) segments c = (
      set_payloads head.payloads (
          set_deletions head.deletions (
            set_allocators head.next_global_id head.next_segment_id
              (install_recovered segments head.working_segment_ids c))),
      head.wal_generation,
    )

    unfoldable pub recover : CollectionConfig → Disk P → Result (Collection P × ℕ)
    recover config disk = create config >>= (λ c.
        load_all (ids_to_load disk) disk
        >>= (λ segments. ok (installed disk.head segments (load_versions disk.versions c))))

    -- `open`
    unfoldable pub open_durable :
        Disk P → CollectionConfig → FsyncMode → ℕ → Result (DurableCollection P)
    unfolding write_config_if_absent change
    open_durable disk config fsync now =
        let dir = write_config_if_absent config (record { disk = disk; passed = [] }) in
        recover config dir.disk >>= (λ (c, generation).
          let dir' = change (open_log generation) dir in
          replay c (log_of generation dir'.disk).ops >>= (λ d. ok (record {
            collection = d;
            dir = dir';
            generation = generation;
            fsync = fsync;
            trigger = Policy.new config.versioning now;
            compaction = Trigger.new config.compaction now;
            persisted_segments = ids_to_load disk;
          })))

    -- The loop of `persist_versions`.
    abbrev pub persist_one : ℕ → DurableCollection P → DurableCollection P
    persist_one id d =
        if mem id d.persisted_segments then d else elim (get_segment id d.collection) [
          | none ↦ d
          | some s ↦ record d {
            dir = change (write_sealed s) d.dir;
            persisted_segments = set_insert id d.persisted_segments;
          }
        ]

    abbrev pub persist_missing : List ℕ → DurableCollection P → DurableCollection P
    persist_missing [] d = d
    persist_missing (id ∷ ids) d = persist_missing ids (persist_one id d)

    unfoldable pub persist_versions : DurableCollection P → DurableCollection P
    persist_versions d =
        let e = persist_missing (segment_ids_to_persist d.collection) d in
        record e { dir = change (write_versions (version_snapshot e.collection)) e.dir }
