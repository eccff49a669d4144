-- ===== src/Durable/Batch.antt =====
-- Batches of writes, `write_batch` of crates/vecvec-core/src/durable.rs, up to
-- their commits.
use vecvec.Prelude.{
  ℕ, ◌+◌, ◌<◌, ◌≤◌, ◌^◌, ◌≡◌, refl, sym, ap, ◌∙◌, subst, List, [], length, append-nil, take, arith,
  All, is_some,
}
use mathlib.Core.Path.{ap₂}
use vecvec.Prelude.Maps.{lookup, nat_key, mem}
use vecvec.Error.{ok}
use vecvec.Distance.{Floats, Metric}
use vecvec.Persist.Wal.{WalOp}
use vecvec.Version.Deletion.{Treemap}
use vecvec.Collection.State.{Collection, CollectionConfig}
use vecvec.Collection.Contents.{Contents, Represents, applied_all}
use vecvec.Collection.Tidy.{SameFrame-trans, SameFrame-IsTidy}
use vecvec.Durable.Disk.{sync, Dir, change, flush_log}
use vecvec.Durable.State.{DurableCollection}
use vecvec.Durable.Write.{
  Points, log_deletes, log_upserts, flush_in, delete_all, insert_all, apply_batch,
}
use vecvec.Durable.Replay.{
  AllApply, AllApply-append, applied_all-append, AllBelow, AllBelow-weaken, Stands,
}
use vecvec.Durable.Saved.{head_generation, head_working, head_segment}
use vecvec.Durable.Standing.{live_log, found, IsStanding}
use vecvec.Durable.Files.{Leaves}
use vecvec.Durable.Safe.{IsSafe}
use vecvec.Durable.Logging.{log_all, log_all-append, Logs, log_all-Logs, flush-Logs}
use vecvec.Durable.Records.{
  ids_from, deletes_of, upserts_of, batch_of, AllWide, log_deletes-log_all, taken,
  log_upserts-log_all, rows-deletes, deletes-AllApply, upserts-AllApply, delete_all-Stands,
  insert_all-Stands,
}

module _ ⦃fl : Floats⦄ ⦃tm : Treemap⦄ {P : Type 0} where
  -- Where everything in the log is synced, a batch of vectors of the right dimension, for which
  -- there are ids and room, is logged, synced and applied: the contents are those before with the
  -- deletes and then the upserts applied.
  module _ (Q : Contents P → Type 0) (w : Contents P) (d : DurableCollection P)
      (safe : IsSafe Q d w) (mode : d.fsync ≡ sync) (upserts : Points P) (deletes : List ℕ) where
    abbrev pub first_id : ℕ
    first_id = d.collection.next_global_id

    abbrev pub records : List (WalOp fl.F32 P)
    records = batch_of first_id upserts deletes

    abbrev metric : Metric
    metric = d.collection.config.metric

    -- What the batch makes of the contents, if it is cut after `m` records.
    abbrev pub cut_at : ℕ → Contents P
    cut_at m = applied_all metric w (take m records)

    abbrev pub outcome : Contents P
    outcome = applied_all metric w records

    module _ (every : (m : ℕ) → Q (cut_at m)) (wide : AllWide d.collection.config.dim upserts)
        (small : first_id + length upserts < 2 ^ 64)
        (room : length w.rows + length upserts ≤ 2 ^ 32) where
      between : Contents P
      between = applied_all metric w (deletes_of P deletes)

      below_w : AllBelow first_id w.rows
      below_w = subst (λ (x : Contents P). AllBelow first_id x.rows) safe.held safe.durable.below

      ups-AllApply : AllApply d.collection.config between (upserts_of first_id upserts)
      unfolding between
      ups-AllApply =
          let same = rows-deletes metric deletes w in
          upserts-AllApply d.collection.config first_id upserts between
            (subst (AllBelow first_id) (sym same) below_w) wide small
            (omega (arith, ap length same, room))

      pub records-AllApply : AllApply d.collection.config w records
      unfolding between
      records-AllApply =
          AllApply-append d.collection.config (deletes_of P deletes) (upserts_of first_id upserts) w
            (deletes-AllApply d.collection.config deletes w) ups-AllApply

      logged :
          Logs d.collection.config safe.base w
            (live_log d.dir.disk).ops
            Q
            records
            every
            safe.held
            records
            d.dir.disk
            (log_all d.generation records d.dir)
      logged =
          log_all-Logs d.collection.config safe.base w (live_log d.dir.disk).ops Q records every
            safe.held d.generation records [] d.dir.disk d.dir refl (sym safe.durable.generation)
            records-AllApply safe.durable.standing.logged
            (record {
              logging = record {
                standing = safe.durable.standing;
                ops = sym (append-nil (live_log d.dir.disk).ops);
                synced = safe.synced;
              };
              same = record { head = refl; versions = refl; segments = refl };
              passed = safe.passed;
            })

      abbrev final_dir : Dir P
      final_dir = change (flush_log d.generation) (log_all d.generation records d.dir)

      flushed :
          Logs d.collection.config safe.base w
            (live_log d.dir.disk).ops
            Q
            records
            every
            safe.held
            records
            d.dir.disk
            final_dir
          × (length (live_log final_dir.disk).ops ≤ (live_log final_dir.disk).synced)
      flushed =
          flush-Logs d.collection.config safe.base w (live_log d.dir.disk).ops Q records every
            safe.held d.generation d.dir.disk (log_all d.generation records d.dir)
            (sym (ap head_generation logged.same.head ∙ safe.durable.generation))
            (AllApply-append d.collection.config (live_log d.dir.disk).ops records safe.base
              safe.durable.standing.logged
              (subst (λ x. AllApply d.collection.config x records) (sym safe.held)
                records-AllApply))
            logged

      abbrev started : Collection P
      started = taken (first_id + length upserts) d.collection

      started-Represents : Represents started w
      started-Represents =
          let rep = subst (Represents d.collection) safe.held safe.durable.represents in
          record {
            sealed_rows = rep.sealed_rows;
            open_rows = rep.open_rows;
            sealed = rep.sealed;
            unsealed = rep.unsealed;
            dim = rep.dim;
            metric = rep.metric;
            all_rows = rep.all_rows;
            deletions = rep.deletions;
            payloads = rep.payloads;
          }

      memory :
          (c : Collection P) × (insert_all
              (ids_from first_id upserts)
              upserts
              (delete_all deletes started).0
            ≡ ok c)
          × Stands started c outcome
      unfolding between
      memory =
          let start = started-Represents in
          let a =
            delete_all-Stands deletes started w metric start
              (AllBelow-weaken first_id (first_id + length upserts) w.rows (omega arith) below_w) in
          let (c, run, b) =
            insert_all-Stands d.collection.config first_id upserts (delete_all deletes started).0
              between a.frame.config a.represents a.below ups-AllApply in
          (
            c,
            run,
            record {
              represents =
                  subst (Represents c)
                    (sym (
                      applied_all-append metric (deletes_of P deletes) (upserts_of first_id upserts)
                        w))
                    b.represents;
              below =
                  subst (λ (x : Contents P). AllBelow c.next_global_id x.rows)
                    (sym (
                      applied_all-append metric (deletes_of P deletes) (upserts_of first_id upserts)
                        w))
                    b.below;
              frame = SameFrame-trans started (delete_all deletes started).0 c a.frame b.frame;
            },
          )

      abbrev batched : DurableCollection P
      batched = record d { collection = memory.0; dir = final_dir }

      batched-IsSafe : IsSafe Q batched outcome
      batched-IsSafe =
          let v = safe.durable in
          let (c, run, s) = memory in
          let (l, synced) = flushed in
          let e : c.config ≡ d.collection.config = s.frame.config in
          let same : found c.config final_dir.disk safe.base ≡ outcome =
            ap₂ (λ (k : CollectionConfig) ops. applied_all k.metric safe.base ops) e l.logging.ops
            ∙ applied_all-append metric (live_log d.dir.disk).ops records safe.base
            ∙ ap (λ x. applied_all metric x records) safe.held in
          record {
            base = safe.base;
            durable = record {
              dim = λ z. v.dim (ap (λ (k : CollectionConfig). k.dim) (sym e) ∙ z);
              standing =
                  subst (λ k. IsStanding k final_dir.disk safe.base) (sym e) l.logging.standing;
              generation = ap head_generation l.same.head ∙ v.generation;
              represents = subst (Represents c) (sym same) s.represents;
              below =
                  subst (λ (x : Contents P). AllBelow c.next_global_id x.rows) (sym same) s.below;
              tidy =
                  SameFrame-IsTidy d.collection c
                    (record {
                      config = s.frame.config;
                      working = s.frame.working;
                      segments = s.frame.segments;
                      versions = s.frame.versions;
                      next_segment = s.frame.next_segment;
                    })
                    v.tidy;
              numbered =
                  omega (arith, ap head_segment l.same.head, v.numbered, s.frame.next_segment);
              agrees = λ i h.
                  ap (lookup i) s.frame.segments
                  ∙ v.agrees i (ap (λ x. mem i (head_working x)) (sym l.same.head) ∙ h)
                  ∙ ap (lookup i) (sym l.same.segments);
              persisted = λ i h. ap (λ m. is_some (lookup i m)) l.same.segments ∙ v.persisted i h;
            };
            held = same;
            synced = synced;
            passed = subst (λ k. All (Leaves k Q) final_dir.passed) (sym e) l.passed;
          }

      all_logged :
          log_upserts d.generation upserts d.collection (log_deletes d.generation deletes d.dir)
          ≡ (started, ids_from first_id upserts, log_all d.generation records d.dir)
      all_logged =
          log_upserts-log_all d.generation first_id upserts d.collection
            (log_deletes d.generation deletes d.dir) refl small
          ∙ ap
              (λ x. (
                started,
                ids_from first_id upserts,
                log_all d.generation (upserts_of first_id upserts) x,
              ))
              (log_deletes-log_all d.generation deletes d.dir)
          ∙ ap (λ x. (started, ids_from first_id upserts, x))
              (sym (
                log_all-append d.generation (deletes_of P deletes) (upserts_of first_id upserts)
                  d.dir))

      pub apply_batch-IsSafe :
          (e : DurableCollection P) × (deleted_count : ℕ) × (apply_batch upserts deletes d
            ≡ ok (e, ids_from first_id upserts, deleted_count))
          × IsSafe Q e outcome
          × (e.fsync ≡ sync)
          × (e.collection.next_segment_id ≡ d.collection.next_segment_id)
          × (e.dir ≡ change (flush_log d.generation) (log_all d.generation records d.dir))
      unfolding apply_batch
      apply_batch-IsSafe = (
        batched,
        (delete_all deletes started).1,
        rw
            (
              all_logged,
              ap (λ m. flush_in m d.generation (log_all d.generation records d.dir)) mode,
              memory.1,
            )
            refl,
        batched-IsSafe,
        mode,
        memory.2.frame.next_segment,
        refl,
      )
