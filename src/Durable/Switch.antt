-- ===== src/Durable/Switch.antt =====
-- The files once the head of a checkpoint of crates/vecvec-core/src/durable.rs
-- is written.
use vecvec.Prelude.{
  ℕ, ◌+◌, ◌<◌, ◌≤◌, ◌≡◌, refl, sym, ap, ◌∙◌, subst, Bool, true, ◌||◌, none, some, List, [], ◌∷◌,
  is_some, length, arith, if◌then◌else◌, Bool-cases, inl, inr, ==-false,
}
use mathlib.Core.Path.{ap₂}
use vecvec.Prelude.Maps.{lookup, lookup-without, nat_key, mem, set_extend, mem-set_extend}
use vecvec.Distance.{Floats}
use vecvec.Version.Deletion.{Treemap}
use vecvec.Collection.State.{working_segment_ids, ids_in}
use vecvec.Collection.Registry.{AllRegistered, AllRegistered-present}
use vecvec.Collection.Contents.{Contents, Represents, AllHold, applied_all}
use vecvec.Durable.Disk.{
  CheckpointHead, Log, Disk, opened, log_of, open_log, write_head, remove_log,
}
use vecvec.Durable.State.{DurableCollection, ids_to_load, referenced}
use vecvec.Durable.Write.{head_of}
use vecvec.Durable.Replay.{AllBelow}
use vecvec.Durable.Saved.{head_generation, head_working}
use vecvec.Durable.Standing.{live_log, found, IsStanding, IsStanding-Same, log_of-open_log}
use vecvec.Durable.Files.{mem-ids_to_load_eq, head_ids, synced-Leaves}
use vecvec.Durable.Safe.{IsSafe}

module _ ⦃fl : Floats⦄ ⦃tm : Treemap⦄ {P : Type 0} where
  module _ (Q : Contents P → Type 0) (w : Contents P) (q : Q w) where
    -- The files once the head of a checkpoint is written.
    module _ (e : DurableCollection P) (listed : List ℕ) (safe : IsSafe Q e w)
        (rows : AllHold e.collection.working.sealed w.rows)
        (stored : AllRegistered e.dir.disk.segments e.collection.working.sealed)
        (there : (i : ℕ) → mem i listed ≡ true → is_some (lookup i e.dir.disk.segments) ≡ true)
        (placed : (i : ℕ)
          → mem i (ids_in e.collection.working.sealed) ≡ true
          → lookup i e.collection.all_segments ≡ lookup i e.dir.disk.segments) where
      abbrev next : ℕ
      next = e.generation + 1

      abbrev new_head : CheckpointHead P
      new_head = head_of next listed e.collection

      in_new :
          (x : Disk P)
          → x.head ≡ some new_head
          → x.versions ≡ e.dir.disk.versions
          → (i : ℕ) → mem i (ids_to_load x) ≡ true
          → (mem i (ids_in e.collection.working.sealed)
              || (mem i listed || mem i (referenced e.dir.disk.versions)))
            ≡ true
      unfolding working_segment_ids
      in_new x head versions i h =
          let ids = ids_in e.collection.working.sealed in
          let parts =
            sym (ap₂ (λ a b. mem i (head_ids a) || mem i (referenced b)) head versions)
            ∙ sym (mem-ids_to_load_eq x i)
            ∙ h in
          ground
            (arith, parts, mem-set_extend i (set_extend [] listed) ids, mem-set_extend i [] listed)

      known :
          (i : ℕ)
          → (mem i (ids_in e.collection.working.sealed)
              || (mem i listed || mem i (referenced e.dir.disk.versions)))
            ≡ true
          → is_some (lookup i e.dir.disk.segments) ≡ true
      known i h = elim (Bool-cases (mem i (ids_in e.collection.working.sealed))) [
        | inl a ↦ AllRegistered-present e.dir.disk.segments i e.collection.working.sealed stored a
        | inr a ↦ elim (Bool-cases (mem i listed)) [
          | inl b ↦ there i b
          | inr b ↦
              safe.durable.standing.saved.present i
                (mem-ids_to_load_eq e.dir.disk i ∙ ground (arith, h, a, b))
        ]
      ]

      headed-IsStanding :
          (x : Disk P)
          → x.head ≡ some new_head
          → x.versions ≡ e.dir.disk.versions
          → x.segments ≡ e.dir.disk.segments
          → ((g : ℕ) → e.generation < g → (log_of g x).ops ≡ [])
          → IsStanding e.collection.config x w × ((live_log x).ops ≡ [])
      unfolding working_segment_ids
      headed-IsStanding x head versions segments empty =
          let v = safe.durable in
          let rep = v.represents in
          let none_live : (live_log x).ops ≡ [] =
            ap (λ h. (log_of (head_generation h) x).ops) head ∙ empty next (omega arith) in
          (
            record {
              saved = record {
                segments = e.collection.working.sealed;
                rows = rows;
                working = ap head_working (sym head);
                ascending = v.tidy.ascending;
                numbered = rw head v.tidy.below;
                stored = rw segments stored;
                present = λ i h.
                    ap (λ m. is_some (lookup i m)) segments ∙ known i (in_new x head versions i h);
                owned = rw segments v.standing.saved.owned;
                deletions =
                    rw head (ap (λ (x : Contents P). x.deletions) (sym safe.held) ∙ rep.deletions);
                payloads =
                    rw head (ap (λ (x : Contents P). x.payloads) (sym safe.held) ∙ rep.payloads);
                below = rw head (
                    subst (λ (x : Contents P). AllBelow e.collection.next_global_id x.rows)
                      safe.held v.below);
              };
              logged = rw none_live tt;
              clean = λ g lt. empty g (omega (arith, ap head_generation head, lt));
            },
            none_live,
          )

      -- The directories that a checkpoint passes once the segments are written.
      abbrev opened_disk : Disk P
      opened_disk = open_log next e.dir.disk

      abbrev switched_disk : Disk P
      switched_disk = write_head new_head opened_disk

      abbrev final_disk : Disk P
      final_disk = remove_log e.generation switched_disk

      opened-IsStanding :
          IsStanding e.collection.config opened_disk safe.base
          × (live_log opened_disk ≡ live_log e.dir.disk)
      unfolding open_log
      opened-IsStanding = (
        IsStanding-Same e.collection.config e.dir.disk opened_disk safe.base
            (record { head = refl; versions = refl; segments = refl })
            (λ g. log_of-open_log g next e.dir.disk) safe.durable.standing,
        log_of-open_log (head_generation e.dir.disk.head) next e.dir.disk,
      )

      empty_after : (g : ℕ) → e.generation < g → (log_of g switched_disk).ops ≡ []
      unfolding write_head log_of
      empty_after g lt =
          ap (λ (l : Log P). l.ops) (log_of-open_log g next e.dir.disk)
          ∙ safe.durable.standing.clean g (omega (arith, safe.durable.generation))

      empty_final : (g : ℕ) → e.generation < g → (log_of g final_disk).ops ≡ []
      unfolding write_head remove_log log_of
      empty_final g lt =
          ap (λ o. (opened o).ops) (lookup-without e.generation g switched_disk.logs)
          ∙ ap (λ (b : Bool). (opened (if b then none else lookup g switched_disk.logs)).ops)
              (==-false e.generation g (λ z. omega arith))
          ∙ empty_after g lt

      unfoldable pub finished : DurableCollection P
      finished = record e {
        dir = record {
          disk = final_disk;
          passed = final_disk ∷ switched_disk ∷ opened_disk ∷ e.dir.passed;
        };
        generation = next;
      }

      pub finished-IsSafe : IsSafe Q finished w
      unfolding finished write_head remove_log open_log working_segment_ids
      finished-IsSafe =
          let v = safe.durable in
          let (switched_stands, switched_live) =
            headed-IsStanding switched_disk refl refl refl empty_after in
          let (final_stands, final_live) =
            headed-IsStanding final_disk refl refl refl empty_final in
          let (opened_stands, opened_live) = opened-IsStanding in
          let config = e.collection.config in
          let switched_found : found config switched_disk w ≡ w =
            ap (applied_all config.metric w) switched_live in
          let final_found : found config final_disk w ≡ w =
            ap (applied_all config.metric w) final_live in
          let opened_found : found config opened_disk safe.base ≡ w =
            ap (λ (l : Log P). applied_all config.metric safe.base l.ops) opened_live ∙ safe.held in
          record {
            base = w;
            durable = record {
              dim = v.dim;
              standing = final_stands;
              generation = refl;
              represents =
                  subst (Represents e.collection) (safe.held ∙ sym final_found) v.represents;
              below =
                  subst (λ (x : Contents P). AllBelow e.collection.next_global_id x.rows)
                    (safe.held ∙ sym final_found) v.below;
              tidy = v.tidy;
              numbered = omega arith;
              agrees = placed;
              persisted = v.persisted;
            };
            held = final_found;
            synced = omega (arith, ap length final_live);
            passed = (
              synced-Leaves config Q final_disk w final_stands (omega (arith, ap length final_live))
                  (subst Q (sym final_found) q),
              (
                synced-Leaves config Q switched_disk w switched_stands
                    (omega (arith, ap length switched_live)) (subst Q (sym switched_found) q),
                (
                  synced-Leaves config Q opened_disk safe.base opened_stands
                      (subst (λ (l : Log P). length l.ops ≤ l.synced) (sym opened_live) safe.synced)
                      (subst Q (sym opened_found) q),
                  safe.passed,
                ),
              ),
            );
          }
