-- ===== src/Collection/Sound.antt =====
-- What always holds of a collection, and that every operation but garbage collection keeps it and
-- all that is stored: crates/vecvec-core/src/collection.rs.
use vecvec.Prelude.{
  ℕ, ◌+◌, ◌<◌, ◌^◌, ◌%◌, ◌≡◌, refl, sym, ap, ◌∙◌, subst, String, Bool, inl, inr, Option, none, some,
  List, [], ◌∷◌, ◌++◌, arith, ◌==◌, Bool-cases, if◌then◌else◌, if-eq, ◌⊎◌, some-injective,
}
use vecvec.Prelude.Maps.{lookup, insert, lookup-insert, nat_key}
use vecvec.Error.{ok}
use vecvec.Distance.{Floats}
use vecvec.Segment.Sealed
use vecvec.Segment.Sealed.{SealedSegment, with_appended}
use vecvec.Segment.Appendable
use vecvec.Segment.Appendable.{AppendableSegment}
use vecvec.Version.Deletion.{Treemap}
use vecvec.Version.Manifest.{Manifest, segment_ids}
use vecvec.Version.Store
use vecvec.Version.Store.Pointers.{get-commit}
use vecvec.Collection.State.{Collection}
use vecvec.Collection.Loops.{refs_of, sort_by_id}
use vecvec.Collection.Write.{seal, commit, restore, compact}
use vecvec.Collection.Shapes.{
  InStep, new-InStep, append_all-InStep, seal-eq-ok, filed_by, commit-eq-ok, rewound, restore-eq-ok,
  compact-eq-ok,
}
use vecvec.Collection.Registry.{
  Grows, Grows-insert, AllRegistered, AllPresent, AllRegistered-Grows, AllPresent-Grows,
  AllRegistered-append, registered-AllRegistered, AllPresent-refs_of,
}

module _ ⦃fl : Floats⦄ where
  -- What the registry has under `id`, while ids from `next` on are unused.
  pub record IsKnown (next id : ℕ) (s : SealedSegment) : Type 0 where
    pub used : id < next
    pub own : s.id ≡ id
    pub in_step : InStep s.index.vectors s.ids

module _ ⦃fl : Floats⦄ ⦃tm : Treemap⦄ {P : Type 0} where
  pub record IsSound (c : Collection P) : Type 0 where
    pub in_step : InStep c.appendable.vectors c.appendable.ids
    pub known :
        (id : ℕ) (s : SealedSegment)
        → lookup id c.all_segments ≡ some s
        → IsKnown c.next_segment_id id s
    pub current : AllRegistered c.all_segments c.working.sealed
    pub referenced :
        (v : ℕ) (m : Manifest)
        → Store.get v c.versions ≡ some m
        → AllPresent c.all_segments (segment_ids m)
    pub filed :
        (v : ℕ) (m : Manifest) → Store.get v c.versions ≡ some m → v < c.versions.next_version

  -- Nothing stored is lost or changed: neither a version nor a segment.
  pub record IsKept (c d : Collection P) : Type 0 where
    pub segments : Grows c.all_segments d.all_segments
    pub versions :
        (v : ℕ) (m : Manifest) → Store.get v c.versions ≡ some m → Store.get v d.versions ≡ some m

  pub IsKept-refl : (c : Collection P) → IsKept c c
  IsKept-refl c = record { segments = λ id s h. h; versions = λ v m h. h }

  pub IsKept-trans : (c d e : Collection P) → IsKept c d → IsKept d e → IsKept c e
  IsKept-trans c d e p q = record {
    segments = λ id s h. q.segments id s (p.segments id s h);
    versions = λ v m h. q.versions v m (p.versions v m h);
  }

  -- Registering a segment under the next id.
  abbrev register :
      SealedSegment → AppendableSegment → List SealedSegment → Collection P → Collection P
  register s a working c = record c {
    next_segment_id = (c.next_segment_id + 1) % 2 ^ 64;
    appendable = a;
    all_segments = insert c.next_segment_id s c.all_segments;
    working = Sealed.from_sealed working;
  }

  module _ (c : Collection P) (sound : IsSound c) (room : c.next_segment_id + 1 < 2 ^ 64)
      (s : SealedSegment) (a : AppendableSegment) (working : List SealedSegment) where
    grown : Grows c.all_segments (insert c.next_segment_id s c.all_segments)
    grown = Grows-insert c.next_segment_id s c.all_segments (λ id t h. (sound.known id t h).used)

    register-IsKept : IsKept c (register s a working c)
    register-IsKept = record { segments = grown; versions = λ v m h. h }

    register-IsSound :
        s.id ≡ c.next_segment_id
        → InStep s.index.vectors s.ids
        → InStep a.vectors a.ids
        → AllRegistered (insert c.next_segment_id s c.all_segments) working
        → IsSound (register s a working c)
    register-IsSound own step_s step_a all = record {
      in_step = step_a;
      known = λ id t h. elim (Bool-cases (c.next_segment_id == id)) [
        | inl e ↦
            let is_new : some s ≡ some t =
              ap (λ (b : Bool). if b then some s else lookup id c.all_segments) (sym e)
              ∙ sym (lookup-insert c.next_segment_id id s c.all_segments)
              ∙ h in
            let at : c.next_segment_id ≡ id = ground (arith, e) in
            subst (λ x. IsKnown ((c.next_segment_id + 1) % 2 ^ 64) id x) (some-injective s t is_new)
              (record { used = omega arith; own = own ∙ at; in_step = step_s })
        | inr e ↦
            let old : lookup id c.all_segments ≡ some t =
              ground (arith, lookup-insert c.next_segment_id id s c.all_segments, h, e) in
            let k = sound.known id t old in
            record { used = omega (arith, k.used); own = k.own; in_step = k.in_step }
      ];
      current = all;
      referenced = λ v m h.
          AllPresent-Grows c.all_segments (insert c.next_segment_id s c.all_segments) grown
            (segment_ids m) (sound.referenced v m h);
      filed = sound.filed;
    }

  pub seal-IsSound :
      (c d : Collection P) (o : Option ℕ)
      → IsSound c
      → c.next_segment_id + 1 < 2 ^ 64
      → seal c ≡ ok (d, o)
      → IsSound d × IsKept c d × (d.appendable.vectors.count ≡ 0)
  unfolding Appendable.seal Sealed.with_appended
  seal-IsSound c d o sound room h = elim (seal-eq-ok c d o h) [
    | inl (e, z) ↦ rw e (sound, IsKept-refl c, z)
    | inr (fresh, p, e) ↦
        let sealed = Appendable.seal c.next_segment_id c.config.hnsw c.appendable in
        let (z, step) = new-InStep c.config.dim c.config.metric fresh p in
        rw e (
          register-IsSound c sound room sealed fresh (c.working.sealed ++ sealed ∷ []) refl
              sound.in_step step
              (AllRegistered-append (insert c.next_segment_id sealed c.all_segments)
                c.working.sealed sealed
                (AllRegistered-Grows c.all_segments (insert c.next_segment_id sealed c.all_segments)
                  (grown c sound room sealed fresh []) c.working.sealed sound.current)
                (ground (
                  arith,
                  lookup-insert c.next_segment_id c.next_segment_id sealed c.all_segments,
                ))),
          register-IsKept c sound room sealed fresh (c.working.sealed ++ sealed ∷ []),
          z,
        )
  ]

  module _ (trigger : String) (message tag : Option String) (now : ℕ) (c : Collection P) where
    abbrev store_after : Store.VersionStore
    store_after = (filed_by trigger message tag now c).0

    abbrev made : Manifest
    made = (filed_by trigger message tag now c).1

    get-store_after :
        (v : ℕ)
        → Store.get v store_after
          ≡ (if c.versions.next_version == v then some made else Store.get v c.versions)
    get-store_after v =
        get-commit trigger message tag (refs_of c.working.sealed) c.working_deletions now c.versions
          v

    -- A version of the new store is the new one or an old one.
    pub store_after-cases :
        (v : ℕ) (m : Manifest)
        → Store.get v store_after ≡ some m
        → ((c.versions.next_version ≡ v) × (made ≡ m)) ⊎ (Store.get v c.versions ≡ some m)
    store_after-cases v m h =
        elim (if-eq (c.versions.next_version == v) (some made) (Store.get v c.versions) (some m)
          (sym (get-store_after v) ∙ h)) [
            | inl (e, q) ↦ inl (ground (arith, e), some-injective made m q)
            | inr (e, q) ↦ inr q
          ]

    -- The old ones are there.
    pub store_after-old :
        (v : ℕ) (m : Manifest)
        → v < c.versions.next_version
        → Store.get v c.versions ≡ some m
        → Store.get v store_after ≡ some m
    store_after-old v m lt h = ground (arith, get-store_after v)

  pub commit-IsSound :
      (trigger : String) (message tag : Option String) (now : ℕ) (c d : Collection P) (n : ℕ)
      → IsSound c
      → c.next_segment_id + 1 < 2 ^ 64
      → commit trigger message tag now c ≡ ok (d, n)
      → IsSound d × IsKept c d
  unfolding Store.commit
  commit-IsSound trigger message tag now c d n sound room h =
      let (e, o, p, q, r) = commit-eq-ok trigger message tag now c d n h in
      let (f, k, z) = seal-IsSound c e o sound room p in
      rw q (
        record {
          in_step = f.in_step;
          known = f.known;
          current = f.current;
          referenced = λ v m g. elim (store_after-cases trigger message tag now e v m g) [
            | inl (at, eq) ↦
                subst (λ x. AllPresent e.all_segments (segment_ids x)) eq
                  (AllPresent-refs_of e.all_segments e.working.sealed f.current)
            | inr old ↦ f.referenced v m old
          ];
          filed = λ v m g. elim (store_after-cases trigger message tag now e v m g) [
            | inl (at, eq) ↦ omega arith
            | inr old ↦ omega (arith, f.filed v m old)
          ];
        },
        record {
          segments = k.segments;
          versions = λ v m g.
              let old = k.versions v m g in
              store_after-old trigger message tag now e v m (f.filed v m old) old;
        },
      )

  pub restore-IsSound :
      (number now : ℕ) (c d : Collection P) (n : ℕ)
      → IsSound c
      → c.next_segment_id + 1 < 2 ^ 64
      → restore number now c ≡ ok (d, n)
      → IsSound d × IsKept c d
  restore-IsSound number now c d n sound room h =
      let (m, fresh, g, p, (message, q)) = restore-eq-ok number now c d n h in
      let (z, step) = new-InStep c.config.dim c.config.metric fresh p in
      let between : IsSound (rewound m fresh c) = record {
        in_step = step;
        known = sound.known;
        current =
            registered-AllRegistered c.all_segments (segment_ids m)
              (λ id s e. (sound.known id s e).own);
        referenced = sound.referenced;
        filed = sound.filed;
      } in
      let (f, k) =
        commit-IsSound "restore" message none now (rewound m fresh c) d n between room q in
      (f, record { segments = k.segments; versions = k.versions })

  pub compact-IsSound :
      (c d : Collection P) (o : Option ℕ)
      → IsSound c
      → c.next_segment_id + 1 < 2 ^ 64
      → compact c ≡ ok (d, o)
      → IsSound d × IsKept c d
  unfolding Appendable.seal
  compact-IsSound c d o sound room h = elim (compact-eq-ok c d o h) [
    | inl e ↦ rw e (sound, IsKept-refl c)
    | inr (points, fresh, merged, p, q, r, e) ↦
        let sealed = Appendable.seal c.next_segment_id c.config.hnsw merged in
        let (z, step) = new-InStep c.config.dim c.config.metric fresh q in
        let step_m = append_all-InStep (sort_by_id points) fresh merged r step in
        rw e (
          register-IsSound c sound room sealed c.appendable (sealed ∷ []) refl step_m sound.in_step
              (
                ground (
                  arith,
                  lookup-insert c.next_segment_id c.next_segment_id sealed c.all_segments,
                ),
                tt,
              ),
          register-IsKept c sound room sealed c.appendable (sealed ∷ []),
        )
  ]
