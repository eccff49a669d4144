-- ===== src/Durable/Versions.antt =====
-- Saving versions and their segments, `persist_versions` of crates/vecvec-core/src/durable.rs.
use vecvec.Prelude.{
  ℕ, ◌≡◌, refl, sym, ap, ◌∙◌, subst, true, some, List, [], ◌∷◌, is_some, arith, ◌==◌, Bool-cases,
  Option-cases, inl, inr,
}
use vecvec.Prelude.Maps.{lookup, lookup-put, nat_key, mem, set_extend, mem-set_extend, set_insert}
use vecvec.Distance.{Floats}
use vecvec.Segment.Sealed.{SealedSegment}
use vecvec.Version.Deletion.{Treemap}
use vecvec.Version.Store.{snapshot, all_referenced_segments}
use vecvec.Collection.State.{
  Collection, get_segment, segment_ids_to_persist, version_snapshot, ids_in,
}
use vecvec.Collection.Contents.{Contents}
use vecvec.Durable.Disk.{change, write_sealed, write_versions}
use vecvec.Durable.State.{DurableCollection, persist_one, persist_missing, persist_versions}
use vecvec.Durable.Files.{IsSaved-write_versions}
use vecvec.Durable.Safe.{IsSafe, IsSafe-file, write_sealed-IsSafe}

module _ ⦃fl : Floats⦄ ⦃tm : Treemap⦄ {P : Type 0} where
  module _ (Q : Contents P → Type 0) (w : Contents P) (q : Q w) where
    -- What a loop that writes segments has reached.
    pub record Written (ids : List ℕ) (d e : DurableCollection P) : Type 0 where
      pub safe : IsSafe Q e w
      pub collection : e.collection ≡ d.collection
      pub fsync : e.fsync ≡ d.fsync
      pub generation : e.generation ≡ d.generation
      pub trigger : e.trigger ≡ d.trigger
      pub grows :
          (i : ℕ)
          → is_some (lookup i d.dir.disk.segments) ≡ true
          → is_some (lookup i e.dir.disk.segments) ≡ true
      pub reached :
          (i : ℕ)
          → mem i ids ≡ true
          → is_some (lookup i d.collection.all_segments) ≡ true
          → is_some (lookup i e.dir.disk.segments) ≡ true

    pub Written-stay :
        (ids : List ℕ) (d : DurableCollection P)
        → IsSafe Q d w
        → ((i : ℕ)
            → mem i ids ≡ true
            → is_some (lookup i d.collection.all_segments) ≡ true
            → is_some (lookup i d.dir.disk.segments) ≡ true)
        → Written ids d d
    Written-stay ids d safe reached = record {
      safe = safe;
      collection = refl;
      fsync = refl;
      generation = refl;
      trigger = refl;
      grows = λ i h. h;
      reached = reached;
    }

    pub Written-refl : (d : DurableCollection P) → IsSafe Q d w → Written [] d d
    Written-refl d safe = Written-stay [] d safe (λ i h k. absurd (ground arith))

    pub Written-step :
        (id : ℕ) (ids : List ℕ) (d e f : DurableCollection P)
        → Written (id ∷ []) d e
        → Written ids e f
        → Written (id ∷ ids) d f
    Written-step id ids d e f a b = record {
      safe = b.safe;
      collection = b.collection ∙ a.collection;
      fsync = b.fsync ∙ a.fsync;
      generation = b.generation ∙ a.generation;
      trigger = b.trigger ∙ a.trigger;
      grows = λ i h. b.grows i (a.grows i h);
      reached = λ i h k. elim (Bool-cases (i == id)) [
        | inl same ↦ b.grows i (a.reached i (ground (arith, same)) k)
        | inr other ↦
            b.reached i (ground (arith, h, other))
              (ap (λ (c : Collection P). is_some (lookup i c.all_segments)) a.collection ∙ k)
      ];
    }

    -- Writing the segment that the registry has under an id.
    abbrev pub written : ℕ → SealedSegment → DurableCollection P → DurableCollection P
    written id s d = record d {
      dir = change (write_sealed s) d.dir;
      persisted_segments = set_insert id d.persisted_segments;
    }

    pub written-Written :
        (id : ℕ) (s : SealedSegment) (d : DurableCollection P)
        → IsSafe Q d w
        → lookup id d.collection.all_segments ≡ some s
        → Written (id ∷ []) d (written id s d)
    unfolding change write_sealed
    written-Written id s d safe known =
        let own : s.id ≡ id = safe.durable.tidy.owned id s known in
        let put_law = λ (i : ℕ). lookup-put s.id i s d.dir.disk.segments in
        record {
          safe =
              subst (λ j. IsSafe Q (written j s d) w) own
                (write_sealed-IsSafe Q w q d s safe
                  (ap (λ j. lookup j d.collection.all_segments) own ∙ known));
          collection = refl;
          fsync = refl;
          generation = refl;
          trigger = refl;
          grows = λ i h. ground (arith, put_law i, h);
          reached = λ i h k. ground (arith, put_law i, h, own);
        }

    persist_one-Written :
        (id : ℕ) (d : DurableCollection P) → IsSafe Q d w → Written (id ∷ []) d (persist_one id d)
    unfolding get_segment
    persist_one-Written id d safe = elim (Bool-cases (mem id d.persisted_segments)) [
      | inl there ↦ rw there (
          Written-stay (id ∷ []) d safe (λ i h k.
            ap (λ j. is_some (lookup j d.dir.disk.segments)) (ground (arith, h))
            ∙ safe.durable.persisted id there))
      | inr missing ↦ elim (Option-cases (lookup id d.collection.all_segments)) [
        | inl e ↦
            rw (missing, persist_one, e)
              (Written-stay (id ∷ []) d safe (λ i h k.
                let at : i ≡ id = ground (arith, h) in
                let gone = ap (λ j. is_some (lookup j d.collection.all_segments)) at in
                absurd (ground (arith, gone, e, k))))
        | inr (s, e) ↦ rw (missing, persist_one, e) (written-Written id s d safe e)
      ]
    ]

    persist_missing-Written :
        (ids : List ℕ) (d : DurableCollection P)
        → IsSafe Q d w
        → Written ids d (persist_missing ids d)
    persist_missing-Written [] d safe = Written-refl d safe
    persist_missing-Written (id ∷ ids) d safe =
        let a = persist_one-Written id d safe in
        Written-step id ids d (persist_one id d) (persist_missing ids (persist_one id d)) a
          (persist_missing-Written ids (persist_one id d) a.safe)

    -- Saving the versions keeps a collection safe, at every moment.
    pub persist_versions-IsSafe :
        (d : DurableCollection P)
        → IsSafe Q d w
        → IsSafe Q (persist_versions d) w
          × ((persist_versions d).collection ≡ d.collection)
          × ((persist_versions d).fsync ≡ d.fsync)
    unfolding persist_versions write_versions version_snapshot snapshot segment_ids_to_persist
        all_referenced_segments
    persist_versions-IsSafe d safe =
        let ids = segment_ids_to_persist d.collection in
        let e = persist_missing ids d in
        let r = persist_missing-Written ids d safe in
        let v = r.safe.durable in
        let there : (i : ℕ)
            → mem i (all_referenced_segments e.collection.versions) ≡ true
            → is_some (lookup i e.dir.disk.segments) ≡ true =
          λ i h.
            let here : mem i (all_referenced_segments d.collection.versions) ≡ true =
              ap (λ (c : Collection P). mem i (all_referenced_segments c.versions))
                (sym r.collection)
              ∙ h in
            r.reached i
              (ground (
                arith,
                mem-set_extend i (set_extend [] (ids_in d.collection.working.sealed))
                    (all_referenced_segments d.collection.versions),
                here,
              ))
              (safe.durable.tidy.referenced i here) in
        (
          IsSafe-file Q w q e (write_versions (version_snapshot e.collection)) e.persisted_segments
              r.safe refl refl
              (IsSaved-write_versions e.dir.disk r.safe.base v.standing.saved
                (version_snapshot e.collection) there)
              v.agrees v.persisted,
          r.collection,
          r.fsync,
        )
