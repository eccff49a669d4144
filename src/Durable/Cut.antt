-- ===== src/Durable/Cut.antt =====
-- A crash in the middle of a batch, `write_batch` of crates/vecvec-core/src/durable.rs.
use vecvec.Prelude.{
  ℕ, zero, suc, ◌+◌, ◌<◌, ◌≤◌, ◌^◌, ◌≡◌, refl, sym, ap, ◌∙◌, subst, List, [], ◌∷◌, ◌++◌, length,
  take, append-nil, append_assoc, arith,
}
use vecvec.Error.{ok}
use vecvec.Distance.{Floats}
use vecvec.Persist.Wal.{WalOp}
use vecvec.Version.Deletion.{Treemap}
use vecvec.Collection.Contents.{Contents, Represents, applied_all}
use vecvec.Durable.Disk.{FsyncMode, sync, Disk, Dir, change, append_log, flush_log}
use vecvec.Durable.State.{DurableCollection, open_durable}
use vecvec.Durable.Write.{Points, apply_batch}
use vecvec.Durable.Replay.{AllApply-take, applied_all-append}
use vecvec.Durable.Standing.{live_log}
use vecvec.Durable.Safe.{IsSafe}
use vecvec.Durable.Logging.{log_all, Logs, log_all-Logs}
use vecvec.Durable.Records.{ids_from, batch_of, AllWide}
use vecvec.Durable.Batch.{apply_batch-IsSafe, records-AllApply}
use vecvec.Durable.Survival.{standing-Opens}

module _ ⦃fl : Floats⦄ ⦃tm : Treemap⦄ {P : Type 0} where
  passed-log_all :
      (g : ℕ) (ops : List (WalOp fl.F32 P)) (dir : Dir P)
      → (newer : List (Disk P)) × ((log_all g ops dir).passed ≡ newer ++ dir.passed)
  unfolding change
  passed-log_all g [] dir = ([], refl)
  passed-log_all g (op ∷ ops) dir =
      let next = change (append_log g op) dir in
      let (newer, e) = passed-log_all g ops next in
      (newer ++ next.disk ∷ [], e ∙ sym (append_assoc newer (next.disk ∷ []) dir.passed))

  -- The directory has been what the log of the first records makes it.
  passed-take :
      (g m : ℕ) (ops : List (WalOp fl.F32 P)) (dir : Dir P)
      → m < length ops
      → (newer : List (Disk P)) × (older : List (Disk P)) × ((log_all g ops dir).passed
          ≡ newer ++ (log_all g (take (suc m) ops) dir).disk ∷ older)
  unfolding change
  passed-take g m [] dir h = absurd (omega (arith, h))
  passed-take g zero (op ∷ ops) dir h =
      let (newer, e) = passed-log_all g ops (change (append_log g op) dir) in (newer, dir.passed, e)
  passed-take g (suc m) (op ∷ ops) dir h =
      passed-take g m ops (change (append_log g op) dir) (omega (arith, h))

  module _ (w : Contents P) (d : DurableCollection P) (safe : IsSafe (λ _. Unit) d w)
      (mode : d.fsync ≡ sync) (upserts : Points P) (deletes : List ℕ)
      (wide : AllWide d.collection.config.dim upserts)
      (small : d.collection.next_global_id + length upserts < 2 ^ 64)
      (room : length w.rows + length upserts ≤ 2 ^ 32) where
    abbrev ops : List (WalOp fl.F32 P)
    ops = batch_of d.collection.next_global_id upserts deletes

    cut_log : (m : ℕ) → Dir P
    cut_log m = log_all d.generation (take m ops) d.dir

    cut-Logs :
        (m : ℕ)
        → Logs d.collection.config safe.base w
            (live_log d.dir.disk).ops
            (λ _. Unit)
            (take m ops)
            (λ _. tt)
            safe.held
            (take m ops)
            d.dir.disk
            (cut_log m)
    unfolding cut_log
    cut-Logs m =
        let apply =
          AllApply-take d.collection.config m ops w (
            records-AllApply (λ _. Unit) w d safe mode upserts deletes (λ _. tt) wide small room) in
        log_all-Logs d.collection.config safe.base w (live_log d.dir.disk).ops (λ _. Unit)
          (take m ops) (λ _. tt) safe.held d.generation (take m ops) [] d.dir.disk d.dir refl
          (sym safe.durable.generation) apply safe.durable.standing.logged
          (record {
            logging = record {
              standing = safe.durable.standing;
              ops = sym (append-nil (live_log d.dir.disk).ops);
              synced = safe.synced;
            };
            same = record { head = refl; versions = refl; segments = refl };
            passed = safe.passed;
          })

    -- While a batch is logged on a collection in sync mode whose memory and files agree, under the
    -- conditions on ids, room and dimensions that make it succeed, the directory is, after each
    -- record, one that opens to the contents with the records up to that one applied and the others
    -- not: recovery does not take the batch as one.
    pub apply_batch-cut :
        (m now : ℕ) (fsync : FsyncMode)
        → m < length ops
        → (e : DurableCollection P) × (n : ℕ) × (newer : List (Disk P)) × (older : List (Disk P))
          × (moment : Disk P) × (f : DurableCollection P) × (apply_batch upserts deletes d
              ≡ ok (e, ids_from d.collection.next_global_id upserts, n))
          × (e.dir.passed ≡ newer ++ moment ∷ older)
          × (open_durable moment d.collection.config fsync now ≡ ok f)
          × Represents f.collection (applied_all d.collection.config.metric w (take (suc m) ops))
    unfolding change cut_log
    apply_batch-cut m now fsync h =
        let l = cut-Logs (suc m) in
        let o =
          standing-Opens d.collection.config fsync now (cut_log (suc m)).disk safe.base
            safe.durable.dim l.logging.standing in
        let (e, n, ran, _, _, _, dir) =
          apply_batch-IsSafe (λ _. Unit) w d safe mode upserts deletes (λ _. tt) wide small room in
        let flushed = change (flush_log d.generation) (log_all d.generation ops d.dir) in
        let (newer, older, there) = passed-take d.generation m ops d.dir h in
        (
          e,
          n,
          flushed.disk ∷ newer,
          older,
          (cut_log (suc m)).disk,
          o.opened,
          ran,
          ap (λ (x : Dir P). x.passed) dir ∙ ap (◌∷◌ flushed.disk) there,
          o.ran,
          subst (Represents o.opened.collection)
              (ap (applied_all d.collection.config.metric safe.base) l.logging.ops
                ∙ applied_all-append d.collection.config.metric (live_log d.dir.disk).ops
                    (take (suc m) ops) safe.base
                ∙ ap (λ x. applied_all d.collection.config.metric x (take (suc m) ops)) safe.held)
              o.represents,
        )
