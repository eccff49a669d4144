-- ===== src/Durable/Saved.antt =====
-- What the files of a checkpoint hold, and that `open` of crates/vecvec-core/src/durable.rs loads it.
pub mod Loading
pub mod Recover
use vecvec.Prelude.{ℕ, ◌<◌, ◌≡◌, Option, none, some, List, [], ◌∷◌, is_some, All, true}
use vecvec.Prelude.Maps.{HashMap, lookup, nat_key, mem}
use vecvec.Prelude.Ascending.{IsAscending}
use vecvec.Distance.{Floats}
use vecvec.Segment.Sealed.{SealedSegment}
use vecvec.Version.Deletion
use vecvec.Version.Deletion.{Treemap, DeletionVector}
use vecvec.Collection.State.{Collection, CollectionConfig, ids_in}
use vecvec.Collection.Registry.{AllRegistered}
use vecvec.Collection.Contents.{Contents, AllHold, Represents}
use vecvec.Collection.Tidy.{IsTidy}
use vecvec.Durable.Disk.{CheckpointHead, Disk}
use vecvec.Durable.State.{ids_to_load}
use vecvec.Durable.Replay.{AllBelow}

module _ ⦃fl : Floats⦄ ⦃tm : Treemap⦄ {P : Type 0} where
  -- What the head says, or what holds where there is none.
  abbrev pub head_generation : Option (CheckpointHead P) → ℕ
  head_generation none = 0
  head_generation (some head) = head.wal_generation

  abbrev pub head_working : Option (CheckpointHead P) → List ℕ
  head_working none = []
  head_working (some head) = head.working_segment_ids

  abbrev pub head_global : Option (CheckpointHead P) → ℕ
  head_global none = 0
  head_global (some head) = head.next_global_id

  abbrev pub head_segment : Option (CheckpointHead P) → ℕ
  head_segment none = 0
  head_segment (some head) = head.next_segment_id

  abbrev pub head_deletions : Option (CheckpointHead P) → DeletionVector
  head_deletions none = Deletion.new
  head_deletions (some head) = head.deletions

  abbrev pub head_payloads : Option (CheckpointHead P) → HashMap ℕ P
  head_payloads none = []
  head_payloads (some head) = head.payloads

  -- The files hold the contents `w`, logs aside.
  pub record IsSaved (disk : Disk P) (w : Contents P) : Type 0 where
    pub segments : List SealedSegment
    pub rows : AllHold segments w.rows
    pub working : ids_in segments ≡ head_working disk.head
    pub ascending : IsAscending (ids_in segments)
    pub numbered : All (λ i. i < head_segment disk.head) (ids_in segments)
    pub stored : AllRegistered disk.segments segments
    pub present :
        (id : ℕ) → mem id (ids_to_load disk) ≡ true → is_some (lookup id disk.segments) ≡ true
    pub owned : (id : ℕ) (s : SealedSegment) → lookup id disk.segments ≡ some s → s.id ≡ id
    pub deletions : w.deletions ≡ head_deletions disk.head
    pub payloads : w.payloads ≡ head_payloads disk.head
    pub below : AllBelow (head_global disk.head) w.rows

  -- The collection holds what the files hold.
  pub record IsLoaded (config : CollectionConfig) (disk : Disk P) (w : Contents P)
      (c : Collection P) : Type 0 where
    pub represents : Represents c w
    pub tidy : IsTidy c
    pub config_eq : c.config ≡ config
    pub next_global : c.next_global_id ≡ head_global disk.head
    pub next_segment : c.next_segment_id ≡ head_segment disk.head
    pub registry :
        (i : ℕ) → mem i (ids_to_load disk) ≡ true → lookup i c.all_segments ≡ lookup i disk.segments
