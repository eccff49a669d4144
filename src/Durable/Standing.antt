-- ===== src/Durable/Standing.antt =====
-- Directories of crates/vecvec-core/src/durable.rs that can be opened, and what
-- a crash leaves of them.
use vecvec.Prelude.{
  ℕ, ◌<◌, ◌≤◌, ◌≡◌, ◌≢◌, sym, ap, ◌∙◌, subst, true, Option, none, some, [], is_some, take,
  take_of_length-le, arith,
}
use mathlib.Core.Path.{ap₂}
use vecvec.Prelude.Maps.{set_extend, lookup, lookup-put, nat_key, mem}
use vecvec.Distance.{Floats}
use vecvec.Version.Deletion.{Treemap}
use vecvec.Collection.State.{CollectionConfig}
use vecvec.Collection.Contents.{Contents, Represents, applied_all}
use vecvec.Collection.Tidy.{IsTidy}
use vecvec.Durable.Disk.{CheckpointHead, Log, Disk, log_of, open_log, opened, Crashed}
use vecvec.Durable.State.{DurableCollection, referenced, ids_to_load}
use vecvec.Durable.Replay.{AllApply, AllApply-take, AllBelow}
use vecvec.Durable.Saved.{head_generation, head_working, head_segment, IsSaved}

module _ ⦃fl : Floats⦄ ⦃tm : Treemap⦄ {P : Type 0} where
  -- The log that `open` will read, and the contents that it will find.
  abbrev pub live_log : Disk P → Log P
  live_log disk = log_of (head_generation disk.head) disk

  abbrev pub found : CollectionConfig → Disk P → Contents P → Contents P
  found config disk base = applied_all config.metric base (live_log disk).ops

  -- The files hold `base`, and the log applies to it.
  pub record IsStanding (config : CollectionConfig) (disk : Disk P) (base : Contents P)
      : Type 0 where
    pub saved : IsSaved disk base
    pub logged : AllApply config base (live_log disk).ops
    pub clean : (g : ℕ) → head_generation disk.head < g → (log_of g disk).ops ≡ []

  -- The memory agrees with the files.
  pub record IsDurable (d : DurableCollection P) (base : Contents P) : Type 0 where
    pub dim : d.collection.config.dim ≢ 0
    pub standing : IsStanding d.collection.config d.dir.disk base
    pub generation : head_generation d.dir.disk.head ≡ d.generation
    pub represents : Represents d.collection (found d.collection.config d.dir.disk base)
    pub below :
        AllBelow d.collection.next_global_id (found d.collection.config d.dir.disk base).rows
    pub tidy : IsTidy d.collection
    pub numbered : head_segment d.dir.disk.head ≤ d.collection.next_segment_id
    pub agrees :
        (i : ℕ)
        → mem i (head_working d.dir.disk.head) ≡ true
        → lookup i d.collection.all_segments ≡ lookup i d.dir.disk.segments
    pub persisted :
        (i : ℕ) → mem i d.persisted_segments ≡ true → is_some (lookup i d.dir.disk.segments) ≡ true

  -- The files of a checkpoint are the same.
  pub record SameFiles (disk after : Disk P) : Type 0 where
    pub head : after.head ≡ disk.head
    pub versions : after.versions ≡ disk.versions
    pub segments : after.segments ≡ disk.segments

  ids_to_load-SameFiles :
      (disk after : Disk P) → SameFiles disk after → ids_to_load after ≡ ids_to_load disk
  ids_to_load-SameFiles disk after same =
      ap₂
        (λ (h : Option (CheckpointHead P)) v. elim h [
          | none ↦ referenced v
          | some head ↦
              set_extend (set_extend (set_extend [] head.all_segment_ids) head.working_segment_ids)
                (referenced v)
        ])
        same.head same.versions

  pub IsSaved-SameFiles :
      (disk after : Disk P) (w : Contents P)
      → SameFiles disk after
      → IsSaved disk w
      → IsSaved after w
  IsSaved-SameFiles disk after w same saved = record {
    segments = saved.segments;
    rows = saved.rows;
    working = saved.working ∙ ap head_working (sym same.head);
    ascending = saved.ascending;
    numbered = rw same.head saved.numbered;
    stored = rw same.segments saved.stored;
    present = λ id h.
        rw same.segments
          (saved.present id (ap (mem id) (sym (ids_to_load-SameFiles disk after same)) ∙ h));
    owned = rw same.segments saved.owned;
    deletions = rw same.head saved.deletions;
    payloads = rw same.head saved.payloads;
    below = rw same.head saved.below;
  }

  pub log_of-open_log : (g h : ℕ) (disk : Disk P) → log_of g (open_log h disk) ≡ log_of g disk
  unfolding log_of open_log
  log_of-open_log g h disk = ground (arith, lookup-put h g (opened (lookup h disk.logs)) disk.logs)

  -- Logs that have the same records.
  abbrev pub SameLogs : Disk P → Disk P → Type 0
  SameLogs disk after = (g : ℕ) → log_of g after ≡ log_of g disk

  pub live_log-Same :
      (disk after : Disk P)
      → SameFiles disk after
      → SameLogs disk after
      → live_log after ≡ live_log disk
  unfolding log_of
  live_log-Same disk after same logs =
      ap (λ h. log_of (head_generation h) after) same.head ∙ logs (head_generation disk.head)

  pub IsStanding-Same :
      (config : CollectionConfig) (disk after : Disk P) (base : Contents P)
      → SameFiles disk after
      → SameLogs disk after
      → IsStanding config disk base
      → IsStanding config after base
  IsStanding-Same config disk after base same logs st = record {
    saved = IsSaved-SameFiles disk after base same st.saved;
    logged =
        subst (λ (l : Log P). AllApply config base l.ops) (sym (live_log-Same disk after same logs))
          st.logged;
    clean = λ g lt.
        ap (λ (l : Log P). l.ops) (logs g)
        ∙ st.clean g (subst (λ h. head_generation h < g) same.head lt);
  }

  -- What is recovered after a crash: of the log all that was synced, and perhaps more.
  pub crash-IsStanding :
      (config : CollectionConfig) (disk after : Disk P) (base : Contents P)
      → IsStanding config disk base
      → Crashed disk after
      → IsStanding config after base
        × ((k : ℕ) × ((live_log disk).synced ≤ k)
            × ((live_log after).ops ≡ take k (live_log disk).ops))
  unfolding log_of
  crash-IsStanding config disk after base st crash =
      let (k, le, cut) = crash.cut (head_generation disk.head) in
      let left : (live_log after).ops ≡ take k (live_log disk).ops =
        ap (λ h. (log_of (head_generation h) after).ops) crash.same_head ∙ cut in
      (
        record {
          saved =
              IsSaved-SameFiles disk after base
                (record {
                  head = crash.same_head;
                  versions = crash.same_versions;
                  segments = crash.same_segments;
                })
                st.saved;
          logged =
              subst (AllApply config base) (sym left)
                (AllApply-take config k (live_log disk).ops base st.logged);
          clean = λ g lt.
              let (j, le', cut') = crash.cut g in
              cut'
              ∙ ap (take j) (st.clean g (subst (λ h. head_generation h < g) crash.same_head lt))
              ∙ take_of_length-le j [] (omega arith);
        },
        (k, le, left),
      )
