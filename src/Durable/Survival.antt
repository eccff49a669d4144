-- ===== src/Durable/Survival.antt =====
-- What a crash of a durable collection of crates/vecvec-core/src/durable.rs leaves, and what it
-- opens to.
use vecvec.Prelude.{
  ℕ, ◌<◌, ◌≤◌, ◌^◌, ◌≡◌, ◌≢◌, sym, ap, ◌∙◌, subst, none, List, [], ◌∷◌, ◌++◌, length, All,
}
use mathlib.Core.Path.{ap₂}
use vecvec.Error.{ok, ok-injective}
use vecvec.Distance.{Floats}
use vecvec.Version.Deletion.{Treemap}
use vecvec.Collection.State.{CollectionConfig}
use vecvec.Collection.Contents.{Contents, Represents, applied_all}
use vecvec.Collection.Keeping.{rows_now-Represents, contains_any-Represents}
use vecvec.Collection.Read as CollectionRead
use vecvec.Prelude.Maps.{lookup, nat_key}
use vecvec.Durable.Read
use vecvec.Collection.Write.{contains_any}
use vecvec.Durable.Disk.{FsyncMode, sync, Log, Disk, Crashed}
use vecvec.Durable.State.{DurableCollection, open_durable}
use vecvec.Durable.Standing.{
  live_log, found, IsStanding, IsStanding-Same, SameFiles, SameLogs, live_log-Same,
}
use vecvec.Durable.Opening.{open-IsDurable}
use vecvec.Durable.Files.{Leaves, synced-Leaves}
use vecvec.Durable.Safe.{IsSafe}
use vecvec.Durable.History.{Reaches, Reaches-IsSafe}

All-middle :
    {A : Type 0} (F : A → Type 0) (newer older : List A) (a : A) → All F (newer ++ a ∷ older) → F a
All-middle F [] older a (h, all) = h
All-middle F (x ∷ newer) older a (h, all) = All-middle F newer older a all

module _ ⦃fl : Floats⦄ ⦃tm : Treemap⦄ {P : Type 0} where
  -- What opens to the contents `x`.
  pub record Opens (config : CollectionConfig) (fsync : FsyncMode) (now : ℕ) (disk : Disk P)
      (x : Contents P) : Type 0 where
    pub opened : DurableCollection P
    pub ran : open_durable disk config fsync now ≡ ok opened
    pub represents : Represents opened.collection x
    pub mode : opened.fsync ≡ fsync

  pub standing-Opens :
      (config : CollectionConfig) (fsync : FsyncMode) (now : ℕ) (disk : Disk P) (base : Contents P)
      → config.dim ≢ 0
      → IsStanding config disk base
      → Opens config fsync now disk (found config disk base)
  standing-Opens config fsync now disk base n st =
      let (e, run, durable, same, live, mode, _) = open-IsDurable disk config fsync now base n st in
      record {
        opened = e;
        ran = run;
        represents =
            subst (Represents e.collection)
              (ap₂ (λ (k : CollectionConfig) (l : Log P). applied_all k.metric base l.ops) same
                live)
              durable.represents;
        mode = mode;
      }

  same-Leaves :
      (config : CollectionConfig) (Q : Contents P → Type 0) (disk : Disk P) (base : Contents P)
      (disks : List (Disk P))
      → IsStanding config disk base
      → length (live_log disk).ops ≤ (live_log disk).synced
      → Q (found config disk base)
      → All (λ x. SameFiles disk x × SameLogs disk x) disks
      → All (Leaves config Q) disks
  same-Leaves config Q disk base [] st synced q all = tt
  same-Leaves config Q disk base (x ∷ disks) st synced q ((same, logs), all) =
      let live = sym (live_log-Same disk x same logs) in
      (
        synced-Leaves config Q x base (IsStanding-Same config disk x base same logs st)
            (subst (λ (l : Log P). length l.ops ≤ l.synced) live synced)
            (subst (λ (l : Log P). Q (applied_all config.metric base l.ops)) live q),
        same-Leaves config Q disk base disks st synced q all,
      )

  -- A standing directory whose log is synced opens, and is safe.
  open-IsSafe :
      (Q : Contents P → Type 0) (disk : Disk P) (config : CollectionConfig) (now : ℕ)
      (base : Contents P)
      → config.dim ≢ 0
      → IsStanding config disk base
      → length (live_log disk).ops ≤ (live_log disk).synced
      → Q (found config disk base)
      → (d : DurableCollection P) × (open_durable disk config sync now ≡ ok d)
        × IsSafe Q d (found config disk base)
        × (d.collection.config ≡ config)
        × (d.fsync ≡ sync)
  open-IsSafe Q disk config now base n st synced q =
      let (d, run, durable, same, live, mode, passed) =
        open-IsDurable disk config sync now base n st in
      (
        d,
        run,
        record {
          base = base;
          durable = durable;
          held =
              ap₂ (λ (k : CollectionConfig) (l : Log P). applied_all k.metric base l.ops) same live;
          synced = subst (λ (l : Log P). length l.ops ≤ l.synced) (sym live) synced;
          passed =
              subst (λ k. All (Leaves k Q) d.dir.passed) (sym same)
                (same-Leaves config Q disk base d.dir.passed st synced q passed);
        },
        same,
        mode,
      )

  -- A collection answers as another does.
  pub record SameAnswers (c d : DurableCollection P) : Type 0 where
    pub pages :
        (offset limit : ℕ) → Read.scroll none offset limit c ≡ Read.scroll none offset limit d
    pub payloads : (id : ℕ) → Read.payload id c ≡ Read.payload id d
    pub known : (id : ℕ) → contains_any id c.collection ≡ contains_any id d.collection
    pub deletions : c.collection.working_deletions ≡ d.collection.working_deletions

  Represents-SameAnswers :
      (c d : DurableCollection P) (x : Contents P)
      → length x.rows < 2 ^ 32
      → Represents c.collection x
      → Represents d.collection x
      → SameAnswers c d
  unfolding CollectionRead.payload
  Represents-SameAnswers c d x few r s =
      let payloads = sym r.payloads ∙ s.payloads in
      record {
        pages =
            Read.scroll-rows c.collection d.collection
              (rows_now-Represents c.collection x r few
                ∙ sym (rows_now-Represents d.collection x s few))
              payloads;
        payloads = λ id. ap (lookup id) payloads;
        known = λ id.
            contains_any-Represents c.collection x r id
            ∙ sym (contains_any-Represents d.collection x s id);
        deletions = sym r.deletions ∙ s.deletions;
      }

  module _ (disk : Disk P) (config : CollectionConfig) (now : ℕ) (base : Contents P)
      (n : config.dim ≢ 0) (standing : IsStanding config disk base)
      (synced : length (live_log disk).ops ≤ (live_log disk).synced) (d : DurableCollection P)
      (opening : open_durable disk config sync now ≡ ok d) where
    pub started-IsSafe :
        (Q : Contents P → Type 0)
        → Q (found config disk base)
        → IsSafe Q d (found config disk base) × (d.fsync ≡ sync)
    started-IsSafe Q q =
        let (e, run, safe, _, mode) = open-IsSafe Q disk config now base n standing synced q in
        let same = ok-injective e d (sym run ∙ opening) in
        (
          subst (λ z. IsSafe Q z (found config disk base)) same safe,
          subst (λ (z : DurableCollection P). z.fsync ≡ sync) same mode,
        )

    -- Take a directory that holds a collection with everything in its log synced, a new directory
    -- for one. Open it in sync mode, and let batches, deletions, commits and checkpoints follow in
    -- any order, as long as there are ids for points and segments and fewer than 2 ^ 32 rows. After
    -- a crash at the end, whatever it leaves of unsynced records, the directory opens again with the
    -- collection's configuration, and it then has the same pages of live points,
    -- the same payloads, the same ids and the same deletions.
    pub history_survives :
        (x : Contents P) (e : DurableCollection P)
        → Reaches (λ _. Unit) (found config disk base) d x e
        → length x.rows < 2 ^ 32
        → (after : Disk P) (fsync : FsyncMode) (later : ℕ) → Crashed e.dir.disk after
        → (f : DurableCollection P) × (open_durable after e.collection.config fsync later ≡ ok f)
          × SameAnswers f e
    history_survives x e history few after fsync later crash =
        let (first, mode) = started-IsSafe (λ _. Unit) tt in
        let (safe, _, _) =
          Reaches-IsSafe (λ _. Unit) (found config disk base) d tt first mode x e history in
        let (base', st, q) =
          synced-Leaves e.collection.config (λ y. y ≡ x) e.dir.disk safe.base safe.durable.standing
            safe.synced safe.held after crash in
        let o = standing-Opens e.collection.config fsync later after base' safe.durable.dim st in
        (
          o.opened,
          o.ran,
          Represents-SameAnswers o.opened e x few
              (subst (Represents o.opened.collection) q o.represents)
              (subst (Represents e.collection) safe.held safe.durable.represents),
        )

    -- Let such a history pass through contents that are all of the kind `Q`, each batch also after
    -- each of its records. After a crash at any moment since the directory was opened, between any
    -- two writes to it, in the middle of a commit or a checkpoint too, and whatever the crash leaves
    -- of unsynced records, the directory opens again, with contents of the kind `Q`.
    pub any_crash-opens :
        (Q : Contents P → Type 0) (x : Contents P) (e : DurableCollection P)
        → Q (found config disk base)
        → Reaches Q (found config disk base) d x e
        → (newer older : List (Disk P)) (moment after : Disk P) (fsync : FsyncMode) (later : ℕ)
        → e.dir.passed ≡ newer ++ moment ∷ older
        → Crashed moment after
        → (f : DurableCollection P) × (y : Contents P) × (open_durable after e.collection.config
              fsync later
            ≡ ok f)
          × Represents f.collection y
          × Q y
    any_crash-opens Q x e q history newer older moment after fsync later there crash =
        let (first, mode) = started-IsSafe Q q in
        let (safe, _, _) = Reaches-IsSafe Q (found config disk base) d q first mode x e history in
        let (base', st, q') =
          All-middle (Leaves e.collection.config Q) newer older moment
            (subst (All (Leaves e.collection.config Q)) there safe.passed) after crash in
        let o = standing-Opens e.collection.config fsync later after base' safe.durable.dim st in
        (o.opened, found e.collection.config after base', o.ran, o.represents, q')
