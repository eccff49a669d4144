-- ===== src/Durable/Fresh.antt =====
-- A directory of crates/vecvec-core/src/durable.rs that nothing was written to yet, and a crash that
-- loses nothing.
use vecvec.Prelude.{◌≤◌, ◌+◌, sym, take_of_length-le, refl, none, [], length, arith}
use vecvec.Distance.{Floats}
use vecvec.Version.Deletion
use vecvec.Version.Deletion.{Treemap}
use vecvec.Collection.State.{CollectionConfig}
use vecvec.Collection.Contents.{Contents}
use vecvec.Durable.Disk.{Disk, log_of, Crashed}
use vecvec.Durable.Standing.{live_log, IsStanding}

module _ ⦃fl : Floats⦄ ⦃tm : Treemap⦄ {P : Type 0} where
  abbrev pub fresh : Disk P
  fresh = record { config = none; versions = none; head = none; segments = []; logs = [] }

  abbrev pub nothing : Contents P
  nothing = record { rows = []; deletions = Deletion.new; payloads = [] }

  pub Crashed-refl : (disk : Disk P) → Crashed disk disk
  Crashed-refl disk = record {
    same_config = refl;
    same_versions = refl;
    same_head = refl;
    same_segments = refl;
    cut = λ g.
        let log = log_of g disk in
        (
          length log.ops + log.synced,
          omega arith,
          sym (take_of_length-le (length log.ops + log.synced) log.ops (omega arith)),
        );
  }

  pub fresh-IsStanding : (config : CollectionConfig) → IsStanding config fresh nothing
  unfolding log_of
  fresh-IsStanding config = record {
    saved = record {
      segments = [];
      rows = refl;
      working = refl;
      ascending = tt;
      numbered = tt;
      stored = tt;
      present = λ id h. absurd (ground (arith, h));
      owned = λ id s h. cc;
      deletions = refl;
      payloads = refl;
      below = tt;
    };
    logged = tt;
    clean = λ g h. refl;
  }

pub fresh-synced :
    ⦃fl : Floats⦄ ⦃tm : Treemap⦄ (P : Type 0)
    → length (live_log (fresh {P = P})).ops ≤ (live_log (fresh {P = P})).synced
unfolding log_of
fresh-synced P = omega arith
