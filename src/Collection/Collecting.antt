-- ===== src/Collection/Collecting.antt =====
-- Garbage collection of versions and segments: `gc` of crates/vecvec-core/src/collection.rs.
use vecvec.Prelude.{
  ℕ, ◌≡◌, refl, sym, ap, ◌∙◌, Bool, true, false, ◌&&◌, not, inl, inr, none, some, List, [], ◌∷◌,
  ◌++◌, arith, ◌==◌, if◌then◌else◌, is_some, Bool-cases,
}
use vecvec.Prelude.Maps.{TreeMap, lookup, without, lookup-without, nat_key, mem}
use vecvec.Error.{err, version}
use vecvec.Distance.{Floats}
use vecvec.Segment.Sealed.{SealedSegment}
use vecvec.Version.Deletion.{Treemap}
use vecvec.Version.Manifest.{Manifest, segment_ids}
use vecvec.Version.Store
use vecvec.Version.Store.{RetentionRules, retained_versions}
use vecvec.Version.Store.Collect.{get-gc, gc_safe}
use vecvec.Collection.State.{Collection, ids_in}
use vecvec.Collection.Loops.{registered, drop_orphans}
use vecvec.Collection.Write.{gc}
use vecvec.Collection.Read.{rows_at, rows_of}
use vecvec.Collection.Registry.{AllRegistered, AllPresent}
use vecvec.Collection.Sound.{IsSound}
use vecvec.Collection.Travel.{rows_at-get, rows_at-none}

module _ ⦃fl : Floats⦄ ⦃tm : Treemap⦄ where
  lookup-pick :
      (gone : Bool) (sid id : ℕ) (all : TreeMap SealedSegment)
      → lookup id (if gone then without sid all else all)
        ≡ (if gone && sid == id then none else lookup id all)
  lookup-pick true sid id all = lookup-without sid id all
  lookup-pick false sid id all = refl

  pub lookup-drop_orphans :
      (id : ℕ) (working sids : List ℕ) (all : TreeMap SealedSegment) (dropped : List ℕ)
      → lookup id (drop_orphans working sids all dropped).0
        ≡ (if mem id sids && not (mem id working) then none else lookup id all)
  lookup-drop_orphans id working [] all dropped = refl
  lookup-drop_orphans id working (sid ∷ sids) all dropped =
      let gone = not (mem sid working) && is_some (lookup sid all) in
      lookup-drop_orphans id working sids (if gone then without sid all else all)
        (if gone then dropped ++ sid ∷ [] else dropped)
      ∙ ground (arith, lookup-pick gone sid id all)

  module _ (all less : TreeMap SealedSegment) where
    registered-same :
        (ids : List ℕ)
        → ((id : ℕ) → mem id ids ≡ true → lookup id less ≡ lookup id all)
        → registered less ids ≡ registered all ids
    registered-same [] same = refl
    registered-same (id ∷ ids) same =
        ap (λ o. elim o [ none ↦ registered less ids | some s ↦ s ∷ registered less ids ])
          (same id (ground arith))
        ∙ ap (λ r. elim (lookup id all) [ none ↦ r | some s ↦ s ∷ r ])
            (registered-same ids (λ i m. same i (ground arith)))

    AllPresent-same :
        (ids : List ℕ)
        → ((id : ℕ) → mem id ids ≡ true → lookup id less ≡ lookup id all)
        → AllPresent all ids
        → AllPresent less ids
    AllPresent-same [] same a = tt
    AllPresent-same (id ∷ ids) same ((s, h), a) =
        ((s, same id (ground arith) ∙ h), AllPresent-same ids (λ i m. same i (ground arith)) a)

    AllRegistered-same :
        (ss : List SealedSegment)
        → ((id : ℕ) → mem id (ids_in ss) ≡ true → lookup id less ≡ lookup id all)
        → AllRegistered all ss
        → AllRegistered less ss
    AllRegistered-same [] same a = tt
    AllRegistered-same (s ∷ ss) same (h, a) =
        (same s.id (ground arith) ∙ h, AllRegistered-same ss (λ i m. same i (ground arith)) a)

module _ ⦃fl : Floats⦄ ⦃tm : Treemap⦄ {P : Type 0} (rules : RetentionRules) (c : Collection P) where
  abbrev after : Collection P
  after = (gc rules c).0

  lookup-after :
      (id : ℕ)
      → lookup id after.all_segments ≡ (
          if mem id (Store.gc rules c.versions).1.orphan_segments
            && not (mem id (ids_in c.working.sealed))
          then none
          else lookup id c.all_segments)
  unfolding gc
  lookup-after id =
      lookup-drop_orphans id (ids_in c.working.sealed) (Store.gc rules c.versions).1.orphan_segments
        c.all_segments []

  get-after :
      (v : ℕ)
      → Store.get v after.versions
        ≡ (if mem v (retained_versions rules c.versions) then Store.get v c.versions else none)
  unfolding gc
  get-after v = get-gc rules c.versions v

  referenced_same :
      (v : ℕ) (m : Manifest)
      → Store.get v after.versions ≡ some m
      → (id : ℕ) → mem id (segment_ids m) ≡ true
      → lookup id after.all_segments ≡ lookup id c.all_segments
  unfolding gc
  referenced_same v m h id i =
      elim (Bool-cases (mem id (Store.gc rules c.versions).1.orphan_segments)) [
        | inl bad ↦ absurd (ground (arith, gc_safe rules c.versions v id m h bad))
        | inr fine ↦ ground (arith, lookup-after id)
      ]

  was :
      (v : ℕ) (m : Manifest) → Store.get v after.versions ≡ some m → Store.get v c.versions ≡ some m
  was v m h = ground (arith, get-after v)

  after-IsSound : IsSound c → IsSound after
  unfolding gc Store.gc
  after-IsSound sound = record {
    in_step = sound.in_step;
    known = λ id s h. sound.known id s (ground (arith, lookup-after id));
    current =
        AllRegistered-same c.all_segments after.all_segments c.working.sealed
          (λ id i. ground (arith, lookup-after id)) sound.current;
    referenced = λ v m h.
        AllPresent-same c.all_segments after.all_segments (segment_ids m) (referenced_same v m h)
          (sound.referenced v m (was v m h));
    filed = λ v m h. sound.filed v m (was v m h);
  }

  rows_at-after :
      (v : ℕ) (m : Manifest)
      → Store.get v c.versions ≡ some m
      → rows_at (Store.version v) after ≡ (
          if mem v (retained_versions rules c.versions)
          then rows_at (Store.version v) c
          else err version)
  rows_at-after v m h = elim (Bool-cases (mem v (retained_versions rules c.versions))) [
    | inl e ↦
        let there : Store.get v after.versions ≡ some m = ground (arith, get-after v) in
        rw e (
          rows_at-get v m after there
          ∙ ap (rows_of m.deletions) (
              registered-same c.all_segments after.all_segments (segment_ids m)
                (referenced_same v m there))
          ∙ sym (rows_at-get v m c h))
    | inr e ↦
        let gone : Store.get v after.versions ≡ none = ground (arith, get-after v) in
        rw e (rows_at-none v after gone)
  ]

  -- A pass over a sound collection keeps it sound, so that no live segment and none that a version
  -- refers to is dropped. A version that is retained lists the rows that it listed before; one that
  -- is not is no version any more.
  pub gc_effect :
      IsSound c
      → IsSound after
        × ((v : ℕ) (m : Manifest)
            → Store.get v c.versions ≡ some m
            → rows_at (Store.version v) after ≡ (
                if mem v (retained_versions rules c.versions)
                then rows_at (Store.version v) c
                else err version))
  gc_effect sound = (after-IsSound sound, rows_at-after)
