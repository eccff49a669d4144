-- ===== src/Durable/Recovery.antt =====
-- The operations of crates/vecvec-core/src/durable.rs keep a collection safe, at every moment.
use vecvec.Prelude.{
  ℕ, zero, suc, ◌+◌, ◌<◌, ◌≤◌, ◌^◌, ◌≡◌, ◌≢◌, refl, sym, ap, ◌∙◌, subst, Option, none, some, List,
  [], ◌∷◌, length, take, take_of_length-le, arith, String, Bool-cases, inl, inr,
}
use vecvec.Error.{ok, ◌>>=◌, >>=-assoc, ok-injective}
use vecvec.Distance.{Floats, Metric}
use vecvec.Persist.Wal.{WalOp, delete}
use vecvec.Version.Deletion.{Treemap}
use vecvec.Version.Policy
use vecvec.Collection.State.{Collection}
use vecvec.Collection.Write
use vecvec.Collection.Contents.{Contents, Represents, applied_all, deleted}
use vecvec.Collection.Keeping.{commit-Represents}
use vecvec.Collection.Shapes.{filed_by}
use vecvec.Collection.Tidy.Keeps.{commit-IsTidy}
use vecvec.Durable.Trigger
use vecvec.Durable.Disk.{sync}
use vecvec.Durable.State.{DurableCollection, persist_versions}
use vecvec.Durable.Write.{
  Points, WriteBatchResult, check_dims, apply_batch, commit_durably, explicit_commit, auto_commit,
  write_batch, delete_point, commit,
}
use vecvec.Durable.Safe.{IsSafe, IsSafe-Advances}
use vecvec.Durable.Versions.{persist_versions-IsSafe}
use vecvec.Durable.Checkpoint.{seal_total}
use vecvec.Durable.Records.{ids_from, check_dims-AllWide}
use vecvec.Durable.Batch.{records, cut_at, outcome, apply_batch-IsSafe}

module _ ⦃fl : Floats⦄ ⦃tm : Treemap⦄ {P : Type 0} where
  IsSafe-triggers :
      (Q : Contents P → Type 0) (d : DurableCollection P) (w : Contents P)
      → (t : Policy.TriggerEvaluator) (k : Trigger.CompactionTrigger) → IsSafe Q d w
      → IsSafe Q (record d { trigger = t; compaction = k }) w
  IsSafe-triggers Q d w t k safe = record {
    base = safe.base;
    durable = record {
      dim = safe.durable.dim;
      standing = safe.durable.standing;
      generation = safe.durable.generation;
      represents = safe.durable.represents;
      below = safe.durable.below;
      tidy = safe.durable.tidy;
      numbered = safe.durable.numbered;
      agrees = safe.durable.agrees;
      persisted = safe.durable.persisted;
    };
    held = safe.held;
    synced = safe.synced;
    passed = safe.passed;
  }

  commit_total :
      (trigger : String) (message tag : Option String) (now : ℕ) (c : Collection P)
      → c.config.dim ≢ 0
      → (d : Collection P) × (n : ℕ) × (Write.commit trigger message tag now c ≡ ok (d, n))
  unfolding Write.commit
  commit_total trigger message tag now c n =
      let (d, o, sealed) = seal_total c n in
      let (versions, manifest) = filed_by trigger message tag now d in
      (record d { versions = versions }, manifest.version, rw sealed refl)

  module _ (Q : Contents P → Type 0) (w : Contents P) (q : Q w) where
    commit_durably-IsSafe :
        (trigger : String) (message tag : Option String) (now : ℕ) (d : DurableCollection P)
        → IsSafe Q d w
        → d.collection.next_segment_id + 1 < 2 ^ 64
        → (e : DurableCollection P) × (n : ℕ) × (commit_durably trigger message tag now d
            ≡ ok (e, n))
          × IsSafe Q e w
          × (e.fsync ≡ d.fsync)
    commit_durably-IsSafe trigger message tag now d safe room =
        let v = safe.durable in
        let (c, n, made) = commit_total trigger message tag now d.collection v.dim in
        let rep =
          commit-Represents trigger message tag now d.collection c n w
            (subst (Represents d.collection) safe.held v.represents) made in
        let (tidy, adv) = commit-IsTidy d.collection v.tidy room trigger message tag now c n made in
        let (safe', _, mode) =
          persist_versions-IsSafe Q w q (record d { collection = c })
            (IsSafe-Advances Q d c w safe rep tidy adv) in
        (persist_versions (record d { collection = c }), n, rw made refl, safe', mode)

    -- An explicit commit keeps the contents, and a crash during it finds them.
    pub commit-IsSafe :
        (message tag : Option String) (now : ℕ) (d : DurableCollection P)
        → IsSafe Q d w
        → d.collection.next_segment_id + 1 < 2 ^ 64
        → (e : DurableCollection P) × (n : ℕ) × (commit message tag now d ≡ ok (e, n))
          × IsSafe Q e w
          × (e.fsync ≡ d.fsync)
    unfolding commit
    commit-IsSafe message tag now d = commit_durably-IsSafe "manual" message tag now d

    -- The commits that end a batch.
    ending-IsSafe :
        (request : Option (Option String × Option String)) (written now : ℕ)
        → (d : DurableCollection P) → IsSafe Q d w
        → d.collection.next_segment_id + 1 < 2 ^ 64
        → (e : DurableCollection P) × (version : Option ℕ) × ((explicit_commit request now d
              >>= (λ (f, explicit). auto_commit explicit written now f))
            ≡ ok (e, version))
          × IsSafe Q e w
          × (e.fsync ≡ d.fsync)
    ending-IsSafe none written now d safe room =
        let t = Policy.record_writes written d.trigger in
        let counted = IsSafe-triggers Q d w t d.compaction safe in
        elim (Bool-cases (Policy.should_commit t now)) [
          | inl fire ↦
              let (f, n, made, safe', mode) =
                commit_durably-IsSafe "auto" none none now (record d { trigger = t }) counted
                  room in
              (
                record f { trigger = Policy.note_commit f.trigger now },
                some n,
                rw (fire, made) refl,
                IsSafe-triggers Q f w (Policy.note_commit f.trigger now) f.compaction safe',
                mode,
              )
          | inr rest ↦ (record d { trigger = t }, none, rw rest refl, counted, refl)
        ]
    ending-IsSafe (some (message, tag)) written now d safe room =
        let (f, n, made, safe', mode) = commit_durably-IsSafe "batch" message tag now d safe room in
        let t = Policy.note_commit (Policy.record_writes written f.trigger) now in
        (
          record f { trigger = t },
          some n,
          rw made refl,
          IsSafe-triggers Q f w t f.compaction safe',
          mode,
        )

  -- A batch on a safe collection in sync mode succeeds.
  module _ (Q : Contents P → Type 0) (w : Contents P) (d : DurableCollection P)
      (safe : IsSafe Q d w) (mode : d.fsync ≡ sync) (upserts : Points P) (deletes : List ℕ)
      (every : (m : ℕ) → Q (cut_at Q w d safe mode upserts deletes m))
      (small : d.collection.next_global_id + length upserts < 2 ^ 64)
      (room : length w.rows + length upserts ≤ 2 ^ 32)
      (segments : d.collection.next_segment_id + 1 < 2 ^ 64) where
    pub ended_at : Q (outcome Q w d safe mode upserts deletes)
    ended_at =
        let ops = records Q w d safe mode upserts deletes in
        subst (λ x. Q (applied_all d.collection.config.metric w x))
          (take_of_length-le (length ops) ops (omega arith)) (every (length ops))

    -- A batch of vectors of the right dimension succeeds on a collection in sync mode whose memory
    -- and files agree, as long as there are ids for its points and a segment, and there is room for
    -- its rows. It answers with consecutive ids, the contents are those before with the deletes and
    -- then the upserts applied, memory and files agree again, and a crash at any moment since the
    -- collection was opened leaves contents of the kind `Q`, if all that the batch passes is.
    pub write_batch-IsSafe :
        (request : Option (Option String × Option String)) (now : ℕ)
        → check_dims d.collection.config.dim upserts ≡ ok tt
        → (e : DurableCollection P) × (r : WriteBatchResult) × (write_batch upserts deletes request
              now d
            ≡ ok (e, r))
          × (r.ids ≡ ids_from d.collection.next_global_id upserts)
          × IsSafe Q e (outcome Q w d safe mode upserts deletes)
          × (e.fsync ≡ sync)
    unfolding write_batch
    write_batch-IsSafe request now wide =
        let ids = ids_from d.collection.next_global_id upserts in
        let (f, count, ran, safe', mode', same, _) =
          apply_batch-IsSafe Q w d safe mode upserts deletes every
            (check_dims-AllWide d.collection.config.dim upserts wide) small room in
        let (e, version, done, safe'', mode'') =
          ending-IsSafe Q (outcome Q w d safe mode upserts deletes) ended_at request (length ids)
            now f safe' (subst (λ k. k + 1 < 2 ^ 64) (sym same) segments) in
        (
          e,
          record { ids = ids; deleted = count; version = version },
          rw (wide, ran)
              (sym (
                  >>=-assoc (explicit_commit request now f)
                    (λ (g, explicit). auto_commit explicit (length ids) now g)
                    (λ (g, version).
                      ok (g, record { ids = ids; deleted = count; version = version })))
                ∙ rw done refl),
          refl,
          safe'',
          mode'' ∙ mode',
        )

  cut_delete :
      (Q : Contents P → Type 0) (w : Contents P) (metric : Metric) (id m : ℕ)
      → Q w
      → Q (deleted id w)
      → Q (applied_all metric w (take m (delete id ∷ [])))
  cut_delete Q w metric id zero q q' = q
  cut_delete Q w metric id (suc m) q q' =
      subst (λ ops. Q (applied_all metric w (delete id ∷ ops)))
        (sym (take_of_length-le {A = WalOp fl.F32 P} m [] (omega arith))) q'

  -- So does a delete.
  pub delete_point-IsSafe :
      (Q : Contents P → Type 0) (w : Contents P) (d : DurableCollection P) (id : ℕ)
      → IsSafe Q d w
      → d.fsync ≡ sync
      → Q w
      → Q (deleted id w)
      → d.collection.next_global_id < 2 ^ 64
      → length w.rows ≤ 2 ^ 32
      → IsSafe Q (delete_point id d).0 (deleted id w) × ((delete_point id d).0.fsync ≡ sync)
  unfolding delete_point apply_batch
  delete_point-IsSafe Q w d id safe mode q q' small room =
      let (e, n, ran, safe', mode', _, _) =
        apply_batch-IsSafe Q w d safe mode [] (id ∷ [])
          (λ m. cut_delete Q w d.collection.config.metric id m q q') tt (omega arith)
          (omega arith) in
      let same : e ≡ (delete_point id d).0 = ap (λ x. x.0) (sym (ok-injective _ _ ran)) in
      (
        subst (λ x. IsSafe Q x (deleted id w)) same safe',
        subst (λ (x : DurableCollection P). x.fsync ≡ sync) same mode',
      )
