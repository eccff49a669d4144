-- ===== src/Durable/Write.antt =====
-- The operations of a durable collection, crates/vecvec-core/src/durable.rs. Each takes the time
-- that its clock shows, and the collection's clock when it commits.
use vecvec.Prelude.{
  ℕ, ◌+◌, String, Bool, not, Option, none, some, List, [], ◌∷◌, ◌++◌, length, if◌then◌else◌, ◌==◌,
  is_some, keep,
}
use vecvec.Prelude.Maps.{set_insert}
use vecvec.Error.{dimension_mismatch, Result, ok, err, ◌>>=◌}
use vecvec.Distance.{Floats}
use vecvec.Persist.Wal.{upsert, delete}
use vecvec.Version.Deletion.{Treemap}
use vecvec.Version.Policy
use vecvec.Version.Store.{RetentionRules}
use vecvec.Collection.State.{
  Collection, alloc_global_id, get_segment, segment_ids_to_persist, sealed_count,
  working_segment_ids,
}
use vecvec.Collection.Write
use vecvec.Collection.Write.{insert_with_id_and_payload}
use vecvec.Collection.Read.{create_tag, create_branch}
use vecvec.Durable.Trigger.{should_compact, note_compaction}
use vecvec.Durable.Disk.{
  FsyncMode, sync, async, CheckpointHead, Dir, change, write_sealed, remove, write_head, open_log,
  append_log, flush_log, remove_log,
}
use vecvec.Durable.State.{DurableCollection, persist_versions}

-- `WriteBatchResult`
pub record WriteBatchResult : Type 0 where
  pub ids : List ℕ
  pub deleted : ℕ
  pub version : Option ℕ

module _ ⦃fl : Floats⦄ where
  abbrev pub Points : Type 0 → Type 0
  Points P = List (List fl.F32 × Option P)

  -- The loop of `write_batch` that checks the dimensions.
  abbrev pub check_dims : {P : Type 0} → ℕ → Points P → Result {0} Unit
  check_dims dim [] = ok tt
  check_dims dim ((v, p) ∷ upserts) =
      let rest = check_dims dim upserts in
      if not (length v == dim) then err (dimension_mismatch dim (length v)) else rest

module _ ⦃fl : Floats⦄ ⦃tm : Treemap⦄ {P : Type 0} where
  -- The loops of `write_batch` that log the deletes and the upserts, and apply them.
  abbrev pub log_deletes : ℕ → List ℕ → Dir P → Dir P
  log_deletes generation [] dir = dir
  log_deletes generation (id ∷ ids) dir =
      log_deletes generation ids (change (append_log generation (delete id)) dir)

  abbrev pub log_upserts : ℕ → Points P → Collection P → Dir P → Collection P × List ℕ × Dir P
  log_upserts generation [] c dir = (c, [], dir)
  log_upserts generation ((v, p) ∷ upserts) c dir =
      let (d, id) = alloc_global_id c in
      let (e, ids, dir') =
        log_upserts generation upserts d (change (append_log generation (upsert id v p)) dir) in
      (e, id ∷ ids, dir')

  abbrev pub flush_in : FsyncMode → ℕ → Dir P → Dir P
  flush_in sync generation dir = change (flush_log generation) dir
  flush_in async generation dir = dir

  abbrev pub delete_all : List ℕ → Collection P → Collection P × ℕ
  delete_all [] c = (c, 0)
  delete_all (id ∷ ids) c =
      let (d, newly) = Write.delete id c in
      let (e, deleted) = delete_all ids d in (e, if newly then deleted + 1 else deleted)

  abbrev pub insert_all : List ℕ → Points P → Collection P → Result (Collection P)
  insert_all [] upserts c = ok c
  insert_all (id ∷ ids) [] c = ok c
  insert_all (id ∷ ids) ((v, p) ∷ upserts) c =
      insert_with_id_and_payload id v p c >>= (λ d. insert_all ids upserts d)

  -- `collection.commit` and `persist_versions`
  abbrev pub commit_durably :
      String
      → Option String
      → Option String
      → ℕ
      → DurableCollection P
      → Result (DurableCollection P × ℕ)
  commit_durably trigger message tag now d =
      Write.commit trigger message tag now d.collection
      >>= (λ (c, version). ok (persist_versions (record d { collection = c }), version))

  abbrev pub explicit_commit :
      Option (Option String × Option String)
      → ℕ
      → DurableCollection P
      → Result (DurableCollection P × Option ℕ)
  explicit_commit none now d = ok (d, none)
  explicit_commit (some (message, tag)) now d =
      commit_durably "batch" message tag now d >>= (λ (e, version). ok (e, some version))

  -- The version bookkeeping of `write_batch`.
  abbrev pub auto_commit :
      Option ℕ → ℕ → ℕ → DurableCollection P → Result (DurableCollection P × Option ℕ)
  auto_commit (some version) written now d =
      let t = Policy.note_commit (Policy.record_writes written d.trigger) now in
      ok (record d { trigger = t }, some version)
  auto_commit none written now d =
      let t = Policy.record_writes written d.trigger in
      let e : DurableCollection P = record d { trigger = t } in
      if Policy.should_commit t now
      then (commit_durably "auto" none none now e >>= (λ (f, version).
          ok (record f { trigger = Policy.note_commit f.trigger now }, some version)))
      else ok (e, none)

  -- `write_batch` up to the explicit commit: what is logged, and then applied.
  unfoldable pub apply_batch :
      Points P → List ℕ → DurableCollection P → Result (DurableCollection P × List ℕ × ℕ)
  apply_batch upserts deletes d =
      let (c, ids, logged) =
        log_upserts d.generation upserts d.collection (log_deletes d.generation deletes d.dir) in
      let dir = flush_in d.fsync d.generation logged in
      let (e, deleted) = delete_all deletes c in
      insert_all ids upserts e >>= (λ f. ok (record d { collection = f; dir = dir }, ids, deleted))

  unfoldable pub write_batch :
      Points P
      → List ℕ
      → Option (Option String × Option String)
      → ℕ
      → DurableCollection P
      → Result (DurableCollection P × WriteBatchResult)
  unfolding apply_batch
  write_batch upserts deletes commit now d =
      check_dims d.collection.config.dim upserts
      >>= (λ _. apply_batch upserts deletes d)
      >>= (λ (e, ids, deleted). explicit_commit commit now e >>= (λ (f, explicit).
          auto_commit explicit (length ids) now f
          >>= (λ (g, version). ok (g, record { ids = ids; deleted = deleted; version = version }))))

  unfoldable pub upsert_points :
      Points P → ℕ → DurableCollection P → Result (DurableCollection P × List ℕ)
  unfolding write_batch
  upsert_points points now d =
      write_batch points [] none now d >>= (λ (e, result). ok (e, result.ids))

  -- `delete`
  unfoldable pub delete_point : ℕ → DurableCollection P → DurableCollection P × Bool
  delete_point id d =
      let dir =
        flush_in d.fsync d.generation (change (append_log d.generation (delete id)) d.dir) in
      let (c, newly) = Write.delete id d.collection in
      (record d { collection = c; dir = dir }, newly)

  unfoldable pub commit :
      Option String → Option String → ℕ → DurableCollection P → Result (DurableCollection P × ℕ)
  commit message tag now d = commit_durably "manual" message tag now d

  unfoldable pub restore : ℕ → ℕ → DurableCollection P → Result (DurableCollection P × ℕ)
  restore version now d =
      Write.restore version now d.collection
      >>= (λ (c, new_version). ok (persist_versions (record d { collection = c }), new_version))

  unfoldable pub tag_version : String → ℕ → DurableCollection P → Result (DurableCollection P)
  tag_version name version d =
      create_tag name version d.collection
      >>= (λ c. ok (persist_versions (record d { collection = c })))

  unfoldable pub branch_version : String → ℕ → DurableCollection P → Result (DurableCollection P)
  branch_version name version d =
      create_branch name version d.collection
      >>= (λ c. ok (persist_versions (record d { collection = c })))

  -- The loop of `checkpoint`, with the ids that it has listed.
  abbrev pub persist_all : List ℕ → DurableCollection P → List ℕ → DurableCollection P × List ℕ
  persist_all [] d listed = (d, listed)
  persist_all (id ∷ ids) d listed = elim (get_segment id d.collection) [
    | none ↦ persist_all ids d listed
    | some s ↦
        persist_all ids
          (record d {
            dir = change (write_sealed s) d.dir;
            persisted_segments = set_insert id d.persisted_segments;
          })
          (listed ++ id ∷ [])
  ]

  -- The head that a checkpoint writes.
  abbrev pub head_of : ℕ → List ℕ → Collection P → CheckpointHead P
  head_of generation all c = record {
    wal_generation = generation;
    working_segment_ids = working_segment_ids c;
    all_segment_ids = all;
    next_global_id = c.next_global_id;
    next_segment_id = c.next_segment_id;
    deletions = c.working_deletions;
    payloads = c.payloads;
  }

  unfoldable pub checkpoint : DurableCollection P → Result (DurableCollection P)
  checkpoint d = Write.seal d.collection >>= (λ (c, sealed).
      let (e, all) = persist_all (segment_ids_to_persist c) (record d { collection = c }) [] in
      let next = d.generation + 1 in
      let opened = change (open_log next) e.dir in
      let switched = change (write_head (head_of next all c)) opened in
      ok (record e { dir = change (remove_log d.generation) switched; generation = next }))

  -- `compact`
  unfoldable pub compact : DurableCollection P → Result (DurableCollection P × Option ℕ)
  unfolding checkpoint
  compact d = Write.compact d.collection >>= (λ (c, merged).
      let e : DurableCollection P = record d { collection = c } in
      if is_some merged then (checkpoint e >>= (λ f. ok (f, merged))) else ok (e, merged))

  unfoldable pub maybe_compact : ℕ → DurableCollection P → Result (DurableCollection P × Option ℕ)
  unfolding compact
  maybe_compact now d =
      if not (should_compact (sealed_count d.collection) now d.compaction)
      then ok (d, none)
      else (compact d >>= (λ (e, merged). ok (
        if is_some merged then record e { compaction = note_compaction now e.compaction } else e,
        merged,
      )))

  -- The loop of `gc` over what was dropped.
  abbrev pub remove_all : List ℕ → DurableCollection P → DurableCollection P
  remove_all [] d = d
  remove_all (id ∷ ids) d = remove_all ids (record d {
    dir = change (remove id) d.dir;
    persisted_segments = keep (λ i. not (i == id)) d.persisted_segments;
  })

  unfoldable pub gc : RetentionRules → DurableCollection P → DurableCollection P × List ℕ
  gc retention d =
      let (c, dropped) = Write.gc retention d.collection in
      (persist_versions (remove_all dropped (record d { collection = c })), dropped)
