-- ===== src/Durable/Opening.antt =====
-- Opening a durable collection, `open` of crates/vecvec-core/src/durable.rs: the
-- memory then agrees with the files.
use vecvec.Prelude.{
  ℕ, ◌≡◌, ◌≢◌, refl, sym, ap, ◌∙◌, subst, true, none, some, [], is_some, All, arith,
}
use mathlib.Core.Path.{ap₂}
use vecvec.Prelude.Maps.{lookup, nat_key, mem}
use vecvec.Error.{ok}
use vecvec.Distance.{Floats}
use vecvec.Version.Deletion.{Treemap}
use vecvec.Version.Policy
use vecvec.Collection.State.{CollectionConfig}
use vecvec.Collection.Contents.{Contents, Represents, applied_all}
use vecvec.Collection.Tidy.{SameFrame-IsTidy}
use vecvec.Durable.Trigger
use vecvec.Durable.Disk.{
  FsyncMode, Log, Disk, change, with_config, write_config_if_absent, log_of, open_log,
}
use vecvec.Durable.State.{DurableCollection, recover, replay, ids_to_load, open_durable}
use vecvec.Durable.Replay.{AllBelow, replay-Stands}
use vecvec.Durable.Saved.{head_generation, head_working, head_segment}
use vecvec.Durable.Saved.Recover.{mem-ids_to_load, recover-IsLoaded}
use vecvec.Durable.Standing.{
  live_log, found, IsStanding, IsDurable, SameFiles, IsSaved-SameFiles, log_of-open_log, SameLogs,
  live_log-Same, IsStanding-Same,
}

module _ ⦃fl : Floats⦄ ⦃tm : Treemap⦄ {P : Type 0} where
  with_config-Same :
      (disk : Disk P) (config : CollectionConfig)
      → SameFiles disk (with_config disk.config config disk)
        × SameLogs disk (with_config disk.config config disk)
  unfolding log_of
  with_config-Same disk config =
      elim disk.config
        as (λ o.
          SameFiles disk (with_config o config disk) × SameLogs disk (with_config o config disk)) [
            | none ↦ (record { head = refl; versions = refl; segments = refl }, λ g. refl)
            | some old ↦ (record { head = refl; versions = refl; segments = refl }, λ g. refl)
          ]

  -- The directory that `open` leaves.
  abbrev prepared : Disk P → CollectionConfig → Disk P
  prepared disk config = open_log (head_generation disk.head) (with_config disk.config config disk)

  prepared-Same :
      (disk : Disk P) (config : CollectionConfig)
      → SameFiles disk (prepared disk config) × SameLogs disk (prepared disk config)
  unfolding open_log
  prepared-Same disk config =
      let (files, logs) = with_config-Same disk config in
      (
        record { head = files.head; versions = files.versions; segments = files.segments },
        λ g.
            log_of-open_log g (head_generation disk.head) (with_config disk.config config disk)
            ∙ logs g,
      )

  -- A standing directory opens, and the memory then agrees with it: the collection holds what the
  -- files of the last checkpoint hold with the records of the log applied.
  pub open-IsDurable :
      (disk : Disk P) (config : CollectionConfig) (fsync : FsyncMode) (now : ℕ) (base : Contents P)
      → config.dim ≢ 0
      → IsStanding config disk base
      → (d : DurableCollection P) × (open_durable disk config fsync now ≡ ok d)
        × IsDurable d base
        × (d.collection.config ≡ config)
        × (live_log d.dir.disk ≡ live_log disk)
        × (d.fsync ≡ fsync)
        × All (λ x. SameFiles disk x × SameLogs disk x) d.dir.passed
  unfolding open_durable change write_config_if_absent
  open-IsDurable disk config fsync now base n st =
      let first = with_config disk.config config disk in
      let (files, logs) = with_config-Same disk config in
      let saved = IsSaved-SameFiles disk first base files st.saved in
      let (c, run, l) = recover-IsLoaded config first base n saved in
      let (d, ran, s) =
        replay-Stands (live_log disk).ops config c base l.config_eq l.represents
          (subst (λ g. AllBelow g base.rows) (sym l.next_global) saved.below) st.logged in
      let gen = head_generation disk.head in
      let after = prepared disk config in
      let (same, kept) = prepared-Same disk config in
      let e : d.config ≡ config = s.frame.config ∙ l.config_eq in
      let live : live_log after ≡ live_log disk = live_log-Same disk after same kept in
      let run' : recover config first ≡ ok (c, gen) =
        run ∙ ap (λ h. ok (c, head_generation h)) files.head in
      let ran' : replay c (log_of gen after).ops ≡ ok d =
        ap (λ (x : Log P). replay c x.ops) (kept gen) ∙ ran in
      let contents : applied_all config.metric base (live_log disk).ops
          ≡ found d.config after base =
        ap₂ (λ (k : CollectionConfig) (x : Log P). applied_all k.metric base x.ops) (sym e)
          (sym live) in
      (
        record {
          collection = d;
          dir =
              change (open_log gen)
                (write_config_if_absent config (record { disk = disk; passed = [] }));
          generation = gen;
          fsync = fsync;
          trigger = Policy.new config.versioning now;
          compaction = Trigger.new config.compaction now;
          persisted_segments = ids_to_load disk;
        },
        rw (run', ran') refl,
        record {
          dim = λ z. n (ap (λ (k : CollectionConfig). k.dim) (sym e) ∙ z);
          standing =
              subst (λ k. IsStanding k after base) (sym e)
                (IsStanding-Same config disk after base same kept st);
          generation = ap head_generation same.head;
          represents = subst (Represents d) contents s.represents;
          below = subst (λ (w : Contents P). AllBelow d.next_global_id w.rows) contents s.below;
          tidy = SameFrame-IsTidy c d s.frame l.tidy;
          numbered = omega (
            arith,
            ap head_segment same.head,
            ap head_segment files.head,
            l.next_segment,
            s.frame.next_segment,
          );
          agrees = λ i h.
              let known : mem i (ids_to_load first) ≡ true = mem-ids_to_load first i (
                ground (
                  arith,
                  ap (λ x. mem i (head_working x)) same.head,
                  ap (λ x. mem i (head_working x)) files.head,
                  h,
                )) in
              ap (lookup i) s.frame.segments
              ∙ l.registry i known
              ∙ ap (lookup i) (files.segments ∙ sym same.segments);
          persisted = λ i h. ap (λ m. is_some (lookup i m)) same.segments ∙ st.saved.present i h;
        },
        e,
        live,
        refl,
        (
          (record { head = same.head; versions = same.versions; segments = same.segments }, kept),
          ((files, logs), tt),
        ),
      )
