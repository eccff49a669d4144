-- ===== src/Durable/Logging.antt =====
-- Logging records, in crates/vecvec-core/src/durable.rs: what a crash in between leaves.
use vecvec.Prelude.{
  ℕ, zero, suc, ◌-◌, ◌≤◌, ◌≡◌, ◌≢◌, refl, sym, ap, ◌∙◌, subst, Bool, List, [], ◌∷◌, ◌++◌, length,
  length-append, append_assoc, append-nil, take, arith, if◌then◌else◌, ◌==◌, All, Bool-cases, inl,
  inr, ==-true, ==-false, take_of_length-le,
}
use vecvec.Prelude.Slices.{take_append_ge}
use vecvec.Prelude.Maps.{put, lookup-put, nat_key}
use vecvec.Distance.{Floats}
use vecvec.Persist.Wal.{WalOp}
use vecvec.Version.Deletion.{Treemap}
use vecvec.Collection.State.{CollectionConfig}
use vecvec.Collection.Contents.{Contents, applied_all}
use vecvec.Durable.Disk.{Log, Disk, Dir, change, opened, log_of, append_log, flush_log}
use vecvec.Durable.Replay.{AllApply, AllApply-append, AllApply-prefix, applied_all-append}
use vecvec.Durable.Saved.{head_generation}
use vecvec.Durable.Standing.{live_log, IsStanding, SameFiles, IsSaved-SameFiles, crash-IsStanding}
use vecvec.Durable.Files.{Leaves}

take_all : {A : Type 0} (xs ys : List A) (m : ℕ) → (j : ℕ) × (take m xs ≡ take j (xs ++ ys))
take_all [] ys m = (0, take_of_length-le m [] (omega arith))
take_all (x ∷ xs) ys zero = (0, refl)
take_all (x ∷ xs) ys (suc m) = let (j, e) = take_all xs ys m in (suc j, ap (◌∷◌ x) e)

module _ ⦃fl : Floats⦄ ⦃tm : Treemap⦄ {P : Type 0} where
  -- Records are logged one by one.
  abbrev pub log_all : ℕ → List (WalOp fl.F32 P) → Dir P → Dir P
  log_all generation [] dir = dir
  log_all generation (op ∷ ops) dir = log_all generation ops (change (append_log generation op) dir)

  pub log_all-append :
      (g : ℕ) (ops more : List (WalOp fl.F32 P)) (dir : Dir P)
      → log_all g (ops ++ more) dir ≡ log_all g more (log_all g ops dir)
  log_all-append g [] more dir = refl
  log_all-append g (op ∷ ops) more dir = log_all-append g ops more (change (append_log g op) dir)

  -- The disk with a new log of a generation.
  abbrev with_log : ℕ → Log P → Disk P → Disk P
  with_log g log disk = record disk { logs = put g log disk.logs }

  log_of-with_log :
      (g h : ℕ) (log : Log P) (disk : Disk P)
      → log_of g (with_log h log disk) ≡ (if h == g then log else log_of g disk)
  unfolding log_of
  log_of-with_log g h log disk =
      ap opened (lookup-put h g log disk.logs)
      ∙ elim (Bool-cases (h == g)) [ inl e ↦ rw e refl | inr e ↦ rw e refl ]

  log_of_self : (g : ℕ) (log : Log P) (disk : Disk P) → log_of g (with_log g log disk) ≡ log
  log_of_self g log disk =
      log_of-with_log g g log disk
      ∙ ap (λ (b : Bool). if b then log else log_of g disk) (==-true g g refl)

  log_of_other :
      (g h : ℕ) (log : Log P) (disk : Disk P)
      → h ≢ g
      → log_of g (with_log h log disk) ≡ log_of g disk
  log_of_other g h log disk n =
      log_of-with_log g h log disk
      ∙ ap (λ (b : Bool). if b then log else log_of g disk) (==-false h g n)

  module _ (config : CollectionConfig) (base w : Contents P) (old : List (WalOp fl.F32 P))
      (Q : Contents P → Type 0) (total : List (WalOp fl.F32 P))
      (every : (m : ℕ) → Q (applied_all config.metric w (take m total)))
      (start : applied_all config.metric base old ≡ w) where
    -- The log holds what it held, all of it synced, and some of the new records.
    pub record IsLogging (done : List (WalOp fl.F32 P)) (disk : Disk P) : Type 0 where
      pub standing : IsStanding config disk base
      pub ops : (live_log disk).ops ≡ old ++ done
      pub synced : length old ≤ (live_log disk).synced

    logging-Leaves :
        (done rest : List (WalOp fl.F32 P)) (disk : Disk P)
        → done ++ rest ≡ total
        → IsLogging done disk
        → Leaves config Q disk
    logging-Leaves done rest disk split l after crash =
        let (st, (k, le, cut)) = crash-IsStanding config disk after base l.standing crash in
        let (j, e) = take_all done rest (k - length old) in
        let left : (live_log after).ops ≡ old ++ take j total =
          cut
          ∙ ap (take k) l.ops
          ∙ take_append_ge k (k - length old) old done (omega (arith, l.synced))
          ∙ ap (◌++◌ old) (e ∙ ap (take j) split) in
        (
          base,
          st,
          subst Q
              (sym (
                ap (applied_all config.metric base) left
                ∙ applied_all-append config.metric old (take j total) base
                ∙ ap (λ x. applied_all config.metric x (take j total)) start))
              (every j),
        )

    -- Changing the live log by `log`, which has more records or more of them synced.
    relogged-IsLogging :
        (done more : List (WalOp fl.F32 P)) (disk : Disk P) (log : Log P)
        → IsLogging done disk
        → log.ops ≡ (live_log disk).ops ++ more
        → length old ≤ log.synced
        → AllApply config base (old ++ (done ++ more))
        → IsLogging (done ++ more) (with_log (head_generation disk.head) log disk)
    relogged-IsLogging done more disk log l grown synced apply =
        let g = head_generation disk.head in
        let after = with_log g log disk in
        let live : live_log after ≡ log = log_of_self g log disk in
        let ops : (live_log after).ops ≡ old ++ (done ++ more) =
          ap (λ (x : Log P). x.ops) live
          ∙ grown
          ∙ ap (λ x. x ++ more) l.ops
          ∙ append_assoc old done more in
        record {
          standing = record {
            saved =
                IsSaved-SameFiles disk after base
                  (record { head = refl; versions = refl; segments = refl }) l.standing.saved;
            logged = subst (AllApply config base) (sym ops) apply;
            clean = λ h lt.
                ap (λ (x : Log P). x.ops) (log_of_other h g log disk (λ z. omega (arith, z)))
                ∙ l.standing.clean h lt;
          };
          ops = ops;
          synced = subst (λ (x : Log P). length old ≤ x.synced) (sym live) synced;
        }

    -- The directory after some records are logged.
    pub record Logs (done : List (WalOp fl.F32 P)) (disk : Disk P) (dir : Dir P) : Type 0 where
      pub logging : IsLogging done dir.disk
      pub same : SameFiles disk dir.disk
      pub passed : All (Leaves config Q) dir.passed

    pub log_all-Logs :
        (g : ℕ) (ops done : List (WalOp fl.F32 P)) (disk : Disk P) (dir : Dir P)
        → done ++ ops ≡ total
        → g ≡ head_generation dir.disk.head
        → AllApply config w total
        → AllApply config base old
        → Logs done disk dir
        → Logs total disk (log_all g ops dir)
    unfolding change append_log
    log_all-Logs g [] done disk dir split at apply apply_old l =
        subst (λ ops. Logs ops disk dir) (sym (append-nil done) ∙ split) l
    log_all-Logs g (op ∷ ops) done disk dir split at apply apply_old l =
        let all =
          AllApply-append config old total base apply_old
            (subst (λ x. AllApply config x total) (sym start) apply) in
        let split' : (done ++ op ∷ []) ++ ops ≡ total = append_assoc done (op ∷ []) ops ∙ split in
        let now : IsLogging (done ++ op ∷ []) (append_log g op dir.disk) =
          subst (λ h. IsLogging (done ++ op ∷ []) (append_log h op dir.disk)) (sym at)
            (relogged-IsLogging done (op ∷ []) dir.disk
              (record (live_log dir.disk) { ops = (live_log dir.disk).ops ++ op ∷ [] }) l.logging
              refl l.logging.synced
              (AllApply-prefix config (old ++ (done ++ op ∷ [])) ops base (
                subst (AllApply config base)
                  (ap (◌++◌ old) (sym split') ∙ sym (append_assoc old (done ++ op ∷ []) ops))
                  all))) in
        log_all-Logs g ops (done ++ op ∷ []) disk (change (append_log g op) dir) split' at apply
          apply_old
          (record {
            logging = now;
            same = record {
              head = l.same.head;
              versions = l.same.versions;
              segments = l.same.segments;
            };
            passed = (
              logging-Leaves (done ++ op ∷ []) ops (append_log g op dir.disk) split' now,
              l.passed,
            );
          })

    -- The flush makes all of it last.
    pub flush-Logs :
        (g : ℕ) (disk : Disk P) (dir : Dir P)
        → g ≡ head_generation dir.disk.head
        → AllApply config base (old ++ total)
        → Logs total disk dir
        → Logs total disk (change (flush_log g) dir)
          × (length (live_log (change (flush_log g) dir).disk).ops
              ≤ (live_log (change (flush_log g) dir).disk).synced)
    unfolding change flush_log
    flush-Logs g disk dir at all l =
        let log = live_log dir.disk in
        let new_log : Log P = record log { synced = length log.ops } in
        let now : IsLogging (total ++ []) (flush_log (head_generation dir.disk.head) dir.disk) =
          relogged-IsLogging total [] dir.disk new_log l.logging (sym (append-nil log.ops))
            (omega (arith, ap length l.logging.ops, length-append old total))
            (subst (λ x. AllApply config base (old ++ x)) (sym (append-nil total)) all) in
        let done : IsLogging total (flush_log g dir.disk) =
          subst (λ h. IsLogging total (flush_log h dir.disk)) (sym at)
            (subst (λ x. IsLogging x (flush_log (head_generation dir.disk.head) dir.disk))
              (append-nil total) now) in
        (
          record {
            logging = done;
            same = record {
              head = l.same.head;
              versions = l.same.versions;
              segments = l.same.segments;
            };
            passed =
                (logging-Leaves total [] (flush_log g dir.disk) (append-nil total) done, l.passed);
          },
          subst
              (λ h.
                length (log_of (head_generation dir.disk.head) (flush_log h dir.disk)).ops
                ≤ (log_of (head_generation dir.disk.head) (flush_log h dir.disk)).synced)
              (sym at)
              (subst (λ (x : Log P). length x.ops ≤ x.synced)
                (sym (log_of_self (head_generation dir.disk.head) new_log dir.disk)) (omega arith)),
        )
