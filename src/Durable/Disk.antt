-- ===== src/Durable/Disk.antt =====
-- The directory of a durable collection, crates/vecvec-core/src/durable.rs and the file side of
-- segment/store.rs, with its files decoded. A write of a framed file is one step, as its rename
-- is; the calls of the operating system are taken to succeed, but for opening a file that is not
-- there.
use vecvec.Prelude.{ℕ, ◌≤◌, ◌≡◌, Option, none, some, List, [], ◌∷◌, ◌++◌, length, take}
use vecvec.Prelude.Maps.{HashMap, lookup, put, without, nat_key}
use vecvec.Error.{Result, ok, err, io}
use vecvec.Distance.{Floats}
use vecvec.Segment.Sealed.{SealedSegment}
use vecvec.Persist.Wal.{WalOp}
use vecvec.Version.Deletion.{Treemap, DeletionVector}
use vecvec.Version.Store.{VersionStoreSnapshot}
use vecvec.Collection.State.{CollectionConfig}

-- `FsyncMode`
pub data FsyncMode : Type 0 where
  sync async : FsyncMode

module _ ⦃fl : Floats⦄ ⦃tm : Treemap⦄ where
  -- `CheckpointHead`
  pub record CheckpointHead (P : Type 0) : Type 0 where
    pub wal_generation : ℕ
    pub working_segment_ids : List ℕ
    pub all_segment_ids : List ℕ
    pub next_global_id : ℕ
    pub next_segment_id : ℕ
    pub deletions : DeletionVector
    pub payloads : HashMap ℕ P

  -- The records of a log file, and how many of them are known to be on disk.
  pub record Log (P : Type 0) : Type 0 where
    pub ops : List (WalOp fl.F32 P)
    pub synced : ℕ

  -- The files `config`, `versions` and `HEAD`, the segment files and the logs.
  pub record Disk (P : Type 0) : Type 0 where
    pub config : Option CollectionConfig
    pub versions : Option VersionStoreSnapshot
    pub head : Option (CheckpointHead P)
    pub segments : HashMap ℕ SealedSegment
    pub logs : HashMap ℕ (Log P)

  -- The directory: what it holds, and all that it has held since it was opened, newest first.
  pub record Dir (P : Type 0) : Type 0 where
    pub disk : Disk P
    pub passed : List (Disk P)

  module _ {P : Type 0} where
    -- One write to the directory.
    unfoldable pub change : (Disk P → Disk P) → Dir P → Dir P
    change f dir = let next = f dir.disk in record { disk = next; passed = next ∷ dir.passed }

    -- `write_config_if_absent`
    abbrev pub with_config : Option CollectionConfig → CollectionConfig → Disk P → Disk P
    with_config none config disk = record disk { config = some config }
    with_config (some old) config disk = disk

    unfoldable pub write_config_if_absent : CollectionConfig → Dir P → Dir P
    write_config_if_absent config dir = change (with_config dir.disk.config config) dir

    -- `read_config`
    unfoldable pub read_config : Disk P → Result CollectionConfig
    read_config disk = elim disk.config [ none ↦ err io | some config ↦ ok config ]

    -- `SegmentStore::write_sealed`
    unfoldable pub write_sealed : SealedSegment → Disk P → Disk P
    write_sealed s disk = record disk { segments = put s.id s disk.segments }

    -- `SegmentStore::remove`
    unfoldable pub remove : ℕ → Disk P → Disk P
    remove id disk = record disk { segments = without id disk.segments }

    -- `SegmentStore::load` of a store that is new, so that its cache is empty.
    unfoldable pub load : ℕ → Disk P → Result SealedSegment
    load id disk = elim (lookup id disk.segments) [ none ↦ err io | some s ↦ ok s ]

    unfoldable pub write_versions : VersionStoreSnapshot → Disk P → Disk P
    write_versions saved disk = record disk { versions = some saved }

    unfoldable pub write_head : CheckpointHead P → Disk P → Disk P
    write_head head disk = record disk { head = some head }

    -- The log of a generation; a missing file reads as an empty one.
    abbrev pub opened : Option (Log P) → Log P
    opened none = record { ops = []; synced = 0 }
    opened (some log) = log

    unfoldable pub log_of : ℕ → Disk P → Log P
    log_of generation disk = opened (lookup generation disk.logs)

    -- `Wal::open`, which creates the file, `Wal::append`, `Wal::flush` and `remove_file`.
    unfoldable pub open_log : ℕ → Disk P → Disk P
    unfolding log_of
    open_log generation disk = record disk {
      logs = put generation (log_of generation disk) disk.logs;
    }

    unfoldable pub append_log : ℕ → WalOp fl.F32 P → Disk P → Disk P
    unfolding log_of
    append_log generation op disk =
        let log = log_of generation disk in
        record disk { logs = put generation (record log { ops = log.ops ++ op ∷ [] }) disk.logs }

    unfoldable pub flush_log : ℕ → Disk P → Disk P
    unfolding log_of
    flush_log generation disk =
        let log = log_of generation disk in
        record disk { logs = put generation (record log { synced = length log.ops }) disk.logs }

    unfoldable pub remove_log : ℕ → Disk P → Disk P
    remove_log generation disk = record disk { logs = without generation disk.logs }

    -- What a crash leaves of a directory: of each log a first part with all that was synced, and
    -- everything else.
    pub record Crashed (before after : Disk P) : Type 0 where
      pub same_config : after.config ≡ before.config
      pub same_versions : after.versions ≡ before.versions
      pub same_head : after.head ≡ before.head
      pub same_segments : after.segments ≡ before.segments
      pub cut :
          (g : ℕ)
          → (k : ℕ) × ((log_of g before).synced ≤ k)
            × ((log_of g after).ops ≡ take k (log_of g before).ops)
