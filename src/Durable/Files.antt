-- ===== src/Durable/Files.antt =====
-- Writes of segment files and of the versions, crates/vecvec-core/src/durable.rs: what they leave of
-- a saved directory.
use vecvec.Prelude.{
  ℕ, ◌≤◌, ◌≡◌, refl, sym, ap, ◌∙◌, subst, Bool, true, ◌||◌, Option, none, some, List, [], ◌∷◌,
  is_some, length, take_of_length-le, arith, if◌then◌else◌, ◌==◌, Bool-cases, inl, inr,
  some-injective,
}
use vecvec.Prelude.Maps.{lookup, put, lookup-put, nat_key, mem, set_extend, mem-set_extend}
use vecvec.Distance.{Floats}
use vecvec.Segment.Sealed.{SealedSegment}
use vecvec.Version.Deletion.{Treemap}
use vecvec.Version.Store.{VersionStoreSnapshot}
use vecvec.Collection.State.{CollectionConfig, ids_in}
use vecvec.Collection.Registry.{AllRegistered}
use vecvec.Collection.Contents.{Contents, applied_all}
use vecvec.Durable.Disk.{CheckpointHead, Disk, write_sealed, write_versions, Crashed}
use vecvec.Durable.State.{referenced, ids_to_load}
use vecvec.Durable.Saved.{head_working, IsSaved}
use vecvec.Durable.Standing.{live_log, found, IsStanding, crash-IsStanding}

module _ ⦃fl : Floats⦄ ⦃tm : Treemap⦄ {P : Type 0} where
  -- The ids that the head lists.
  abbrev pub head_ids : Option (CheckpointHead P) → List ℕ
  head_ids none = []
  head_ids (some head) = set_extend (set_extend [] head.all_segment_ids) head.working_segment_ids

  pub mem-ids_to_load_eq :
      (disk : Disk P) (i : ℕ)
      → mem i (ids_to_load disk) ≡ (mem i (head_ids disk.head) || mem i (referenced disk.versions))
  mem-ids_to_load_eq disk i =
      elim disk.head
        as (λ h.
          mem i (elim h [
            | none ↦ referenced disk.versions
            | some head ↦
                set_extend
                  (set_extend (set_extend [] head.all_segment_ids) head.working_segment_ids)
                  (referenced disk.versions)
          ])
          ≡ (mem i (head_ids h) || mem i (referenced disk.versions))) [
            | none ↦ refl
            | some head ↦ ground (
              arith,
              mem-set_extend i
                  (set_extend (set_extend [] head.all_segment_ids) head.working_segment_ids)
                  (referenced disk.versions),
            )
          ]

  module _ (disk : Disk P) (w : Contents P) (saved : IsSaved disk w) where
    AllRegistered-put :
        (s : SealedSegment) (ss : List SealedSegment)
        → (mem s.id (ids_in ss) ≡ true → lookup s.id disk.segments ≡ some s)
        → AllRegistered disk.segments ss
        → AllRegistered (put s.id s disk.segments) ss
    AllRegistered-put s [] agrees a = tt
    AllRegistered-put s (t ∷ ss) agrees (e, a) = (
      elim (Bool-cases (s.id == t.id)) [
        | inl same ↦
            let at : s.id ≡ t.id = ground (arith, same) in
            let here : mem s.id (ids_in (t ∷ ss)) ≡ true = ground (arith, same) in
            lookup-put s.id t.id s disk.segments
            ∙ ap (λ (b : Bool). if b then some s else lookup t.id disk.segments) same
            ∙ sym (agrees here)
            ∙ ap (λ i. lookup i disk.segments) at
            ∙ e
        | inr other ↦
            lookup-put s.id t.id s disk.segments
            ∙ ap (λ (b : Bool). if b then some s else lookup t.id disk.segments) other
            ∙ e
      ],
      AllRegistered-put s ss (λ h. agrees (ground (arith, h))) a,
    )

    -- A segment file is written that is new to the head, or as it was.
    pub IsSaved-write_sealed :
        (s : SealedSegment)
        → (mem s.id (head_working disk.head) ≡ true → lookup s.id disk.segments ≡ some s)
        → IsSaved (write_sealed s disk) w
    unfolding write_sealed
    IsSaved-write_sealed s agrees = record {
      segments = saved.segments;
      rows = saved.rows;
      working = saved.working;
      ascending = saved.ascending;
      numbered = saved.numbered;
      stored =
          AllRegistered-put s saved.segments (λ h. agrees (ap (mem s.id) (sym saved.working) ∙ h))
            saved.stored;
      present = λ id h. ground (arith, lookup-put s.id id s disk.segments, saved.present id h);
      owned = λ id t e. elim (Bool-cases (s.id == id)) [
        | inl same ↦
            let is_s : s ≡ t = some-injective s t (
              sym (ap (λ (b : Bool). if b then some s else lookup id disk.segments) same)
              ∙ sym (lookup-put s.id id s disk.segments)
              ∙ e) in
            ap (λ (x : SealedSegment). x.id) (sym is_s) ∙ ground (arith, same)
        | inr other ↦ saved.owned id t (
            sym (ap (λ (b : Bool). if b then some s else lookup id disk.segments) other)
            ∙ sym (lookup-put s.id id s disk.segments)
            ∙ e)
      ];
      deletions = saved.deletions;
      payloads = saved.payloads;
      below = saved.below;
    }

    -- The versions are written once their segments are there.
    pub IsSaved-write_versions :
        (versions : VersionStoreSnapshot)
        → ((i : ℕ)
            → mem i (referenced (some versions)) ≡ true
            → is_some (lookup i disk.segments) ≡ true)
        → IsSaved (write_versions versions disk) w
    unfolding write_versions
    IsSaved-write_versions versions there = record {
      segments = saved.segments;
      rows = saved.rows;
      working = saved.working;
      ascending = saved.ascending;
      numbered = saved.numbered;
      stored = saved.stored;
      present = λ id h.
          let either = sym (mem-ids_to_load_eq (record disk { versions = some versions }) id) ∙ h in
          elim (Bool-cases (mem id (head_ids disk.head))) [
            | inl e ↦ saved.present id (mem-ids_to_load_eq disk id ∙ ground (arith, e))
            | inr e ↦ there id (ground (arith, either, e))
          ];
      owned = saved.owned;
      deletions = saved.deletions;
      payloads = saved.payloads;
      below = saved.below;
    }

  -- Whatever a crash leaves of a directory, it stands, and holds contents of the kind `Q`.
  abbrev pub Leaves : CollectionConfig → (Contents P → Type 0) → Disk P → Type 0
  Leaves config Q disk =
      (after : Disk P)
      → Crashed disk after
      → (base : Contents P) × IsStanding config after base × Q (found config after base)

  pub synced-Leaves :
      (config : CollectionConfig) (Q : Contents P → Type 0) (disk : Disk P) (base : Contents P)
      → IsStanding config disk base
      → length (live_log disk).ops ≤ (live_log disk).synced
      → Q (found config disk base)
      → Leaves config Q disk
  synced-Leaves config Q disk base st synced q after crash =
      let (st', (k, le, cut)) = crash-IsStanding config disk after base st crash in
      (
        base,
        st',
        subst (λ ops. Q (applied_all config.metric base ops))
            (sym (cut ∙ take_of_length-le k (live_log disk).ops (omega arith))) q,
      )
