-- ===== src/Collection/Travel.antt =====
-- Time travel: what a version shows, and what restoring it brings back:
-- crates/vecvec-core/src/collection.rs.
use vecvec.Prelude.{
  ℕ, ◌+◌, ◌<◌, ◌^◌, ◌≡◌, refl, sym, ap, ◌∙◌, String, inl, inr, Option, none, some, List, [], ◌∷◌,
  ◌++◌, map, length, ==-true, if◌then◌else◌, append-nil, append_assoc,
}
use vecvec.Prelude.Maps.{TreeMap, lookup, nat_key}
use vecvec.Error
use vecvec.Error.{Result, ok, err, panic, ◌>>=◌, ok-injective}
use vecvec.Distance.{Floats}
use vecvec.Segment.Rows.{points_from, range_of}
use vecvec.Segment.Sealed
use vecvec.Segment.Sealed.{SealedSegment, global_id_range}
use vecvec.Segment.Appendable
use vecvec.Segment.Appendable.{AppendableSegment}
use vecvec.Version.Deletion.{Treemap, DeletionVector}
use vecvec.Version.Manifest.{Manifest, SegmentRef, segment_ids}
use vecvec.Version.Store
use vecvec.Version.Store.{version}
use vecvec.Version.Store.Pointers.{get-commit}
use vecvec.Collection.State.{Collection}
use vecvec.Collection.Loops.{refs_of, registered}
use vecvec.Collection.Write.{seal, commit, restore}
use vecvec.Collection.Read.{rows_of, undeleted, rows_now, rows_at}
use vecvec.Collection.Shapes.{
  InStep, new-InStep, seal-eq-ok, commit-eq-ok, restore-eq-ok, filed_by, rewound,
}
use vecvec.Collection.Registry.{AllRegistered, registered-Grows}
use vecvec.Collection.Sound.{IsSound, IsKept, seal-IsSound, commit-IsSound}
use vecvec.Collection.Steps.{Steps, Steps-IsSound}

abbrev pub Rows : ⦃fl : Floats⦄ → Type 0
Rows ⦃fl⦄ = List (ℕ × List fl.F32)

module _ {A B : Type 0} (u : B → List A) where
  bind_last : (m : Result B) → (m >>= (λ a. ok (u a ++ []))) ≡ (m >>= (λ a. ok (u a)))
  bind_last (ok a) = ap ok (append-nil (u a))
  bind_last (err e) = refl
  bind_last panic = refl

  bind_append :
      (m n : Result B) (r : Result (List A))
      → (m
          >>= (λ a. (r >>= (λ rows. n >>= (λ b. ok (rows ++ u b)))) >>= (λ more. ok (u a ++ more))))
        ≡ ((m >>= (λ a. r >>= (λ more. ok (u a ++ more))))
            >>= (λ rows. n >>= (λ b. ok (rows ++ u b))))
  bind_append (err e) n r = refl
  bind_append panic n r = refl
  bind_append (ok a) n (err e) = refl
  bind_append (ok a) n panic = refl
  bind_append (ok a) (err e) (ok rows) = refl
  bind_append (ok a) panic (ok rows) = refl
  bind_append (ok a) (ok b) (ok rows) = ap ok (sym (append_assoc (u a) rows (u b)))

bind_ok : {A : Type 0} (m : Result (List A)) → (m >>= (λ a. ok a)) ≡ m
bind_ok (ok a) = refl
bind_ok (err e) = refl
bind_ok panic = refl

bind_nil : {A : Type 0} (m : Result (List A)) → (m >>= (λ a. ok (a ++ []))) ≡ m
bind_nil m = bind_last (λ a. a) m ∙ bind_ok m

module _ ⦃fl : Floats⦄ ⦃tm : Treemap⦄ where
  -- One segment more at the end.
  rows_of-append :
      (dl : DeletionVector) (ss : List SealedSegment) (s : SealedSegment)
      → rows_of dl (ss ++ s ∷ []) ≡ (
          rows_of dl ss >>= (λ rows. Sealed.iter_points s >>= (λ ps. ok (rows ++ undeleted dl ps))))
  rows_of-append dl [] s = bind_last (undeleted dl) (Sealed.iter_points s)
  rows_of-append dl (t ∷ ss) s =
      ap (λ r. Sealed.iter_points t >>= (λ a. r >>= (λ more. ok (undeleted dl a ++ more))))
        (rows_of-append dl ss s)
      ∙ bind_append (undeleted dl) (Sealed.iter_points t) (Sealed.iter_points s) (rows_of dl ss)

  empty_rows : (a : AppendableSegment) → a.vectors.count ≡ 0 → Appendable.iter_points a ≡ ok []
  unfolding Appendable.iter_points points_from
  empty_rows a e = rw e refl

  no_rows : (s : SealedSegment) → s.index.vectors.count ≡ 0 → Sealed.iter_points s ≡ ok []
  unfolding Sealed.iter_points points_from
  no_rows s e = rw e refl

  no_range :
      (s : SealedSegment)
      → InStep s.index.vectors s.ids
      → global_id_range s ≡ none
      → Sealed.iter_points s ≡ ok []
  unfolding global_id_range
  no_range s step e = no_rows s (step ∙ no_ids s.ids.local_to_global e)
    where
      no_ids : (ids : List ℕ) → range_of ids ≡ none → length ids ≡ 0
      no_ids [] e = refl
      no_ids (i ∷ ids) e = cc

  -- A segment with no rows is left out of the manifest, and shows none.
  rows_of-refs :
      (dl : DeletionVector) (all : TreeMap SealedSegment) (ss : List SealedSegment)
      → AllRegistered all ss
      → ((id : ℕ) (s : SealedSegment) → lookup id all ≡ some s → InStep s.index.vectors s.ids)
      → rows_of dl (registered all (map (λ (r : SegmentRef). r.id) (refs_of ss))) ≡ rows_of dl ss
  rows_of-refs dl all [] a steps = refl
  rows_of-refs dl all (s ∷ ss) (h, a) steps =
      let tail = rows_of-refs dl all ss a steps in
      let shown : List SegmentRef → Result Rows =
        λ refs. rows_of dl (registered all (map (λ (r : SegmentRef). r.id) refs)) in
      let refs : Option (ℕ × ℕ) → List SegmentRef = λ o. elim o [
        | none ↦ refs_of ss
        | some (lo, hi) ↦
            record { id = s.id; id_lo = lo; id_hi = hi; count = Sealed.len s } ∷ refs_of ss
      ] in
      elim (global_id_range s)
          as (λ o. global_id_range s ≡ o → shown (refs o) ≡ rows_of dl (s ∷ ss)) [
            | none ↦ λ e. rw (no_range s (steps s.id s h) e) (tail ∙ sym (bind_ok (rows_of dl ss)))
            | some (lo, hi) ↦ λ e.
                rw (registered, h)
                  (ap
                    (λ r.
                      Sealed.iter_points s >>= (λ p. r >>= (λ more. ok (undeleted dl p ++ more))))
                    tail)
          ]
        refl

module _ ⦃fl : Floats⦄ ⦃tm : Treemap⦄ {P : Type 0} where
  -- Sealing moves rows and shows the same ones.
  rows_now-seal : (c d : Collection P) (o : Option ℕ) → seal c ≡ ok (d, o) → rows_now d ≡ rows_now c
  unfolding rows_now Appendable.iter_points Sealed.iter_points Appendable.seal Sealed.with_appended
  rows_now-seal c d o h = elim (seal-eq-ok c d o h) [
    | inl (e, z) ↦ ap rows_now e
    | inr (fresh, p, e) ↦
        let sealed = Appendable.seal c.next_segment_id c.config.hnsw c.appendable in
        let (z, step) = new-InStep c.config.dim c.config.metric fresh p in
        rw (e, empty_rows fresh z)
          (bind_nil (rows_of c.working_deletions (c.working.sealed ++ sealed ∷ []))
            ∙ rows_of-append c.working_deletions c.working.sealed sealed)
  ]

  pub rows_at-get :
      (v : ℕ) (m : Manifest) (c : Collection P)
      → Store.get v c.versions ≡ some m
      → rows_at (version v) c ≡ rows_of m.deletions (registered c.all_segments (segment_ids m))
  unfolding rows_at Store.resolve Store.get
  rows_at-get v m c h =
      let k : lookup v c.versions.commits ≡ some m = h in rw (rows_at, Store.resolve, k, h) refl

  pub rows_at-none :
      (v : ℕ) (c : Collection P)
      → Store.get v c.versions ≡ none
      → rows_at (version v) c ≡ err Error.version
  unfolding rows_at Store.resolve Store.get
  rows_at-none v c h =
      let k : lookup v c.versions.commits ≡ none = h in rw (rows_at, Store.resolve, k) refl

  rows_now-commit :
      (trigger : String) (message tag : Option String) (now : ℕ) (c d : Collection P) (n : ℕ)
      → commit trigger message tag now c ≡ ok (d, n)
      → rows_now d ≡ rows_now c
  unfolding rows_now
  rows_now-commit trigger message tag now c d n h =
      let (e, o, p, q, r) = commit-eq-ok trigger message tag now c d n h in
      ap rows_now q ∙ rows_now-seal c e o p

  -- Of a collection whose rows are sealed, the manifest shows the rows.
  module _ (trigger : String) (message tag : Option String) (now : ℕ) (c : Collection P) where
    abbrev made : Manifest
    made = (filed_by trigger message tag now c).1

    get-made : Store.get c.versions.next_version (filed_by trigger message tag now c).0 ≡ some made
    get-made =
        get-commit trigger message tag (refs_of c.working.sealed) c.working_deletions now c.versions
          c.versions.next_version
        ∙ ap (λ b. if b then some made else Store.get c.versions.next_version c.versions)
            (==-true c.versions.next_version c.versions.next_version refl)

    rows-made :
        IsSound c
        → c.appendable.vectors.count ≡ 0
        → rows_of made.deletions (registered c.all_segments (segment_ids made)) ≡ rows_now c
    unfolding rows_now Store.commit
    rows-made sound drained =
        rows_of-refs c.working_deletions c.all_segments c.working.sealed sound.current
          (λ id s g. (sound.known id s g).in_step)
        ∙ sym (
            rw (empty_rows c.appendable drained)
              (bind_nil (rows_of c.working_deletions c.working.sealed)))

  rows_at-IsKept :
      (v : ℕ) (m : Manifest) (c d : Collection P)
      → IsSound c
      → IsKept c d
      → Store.get v c.versions ≡ some m
      → rows_at (version v) d ≡ rows_at (version v) c
  rows_at-IsKept v m c d f k h =
      rows_at-get v m d (k.versions v m h)
      ∙ ap (rows_of m.deletions) (
          registered-Grows c.all_segments d.all_segments k.segments (segment_ids m)
            (f.referenced v m h))
      ∙ sym (rows_at-get v m c h)

  -- A version lists the same rows after any operations as before them.
  pub rows_at-Steps :
      (v : ℕ) (m : Manifest) (c d : Collection P)
      → IsSound c
      → Store.get v c.versions ≡ some m
      → Steps c d
      → rows_at (version v) d ≡ rows_at (version v) c
  rows_at-Steps v m c d f h ss = let (g, k) = Steps-IsSound c d ss f in rows_at-IsKept v m c d f k h

  module _ (trigger : String) (message tag : Option String) (now : ℕ) (c d : Collection P) (n : ℕ)
      (sound : IsSound c) (room : c.next_segment_id + 1 < 2 ^ 64)
      (committed : commit trigger message tag now c ≡ ok (d, n)) where
    get-committed :
        (m : Manifest) × (Store.get n d.versions ≡ some m) × (rows_at (version n) d ≡ rows_now c)
    unfolding Store.commit
    get-committed =
        let (e, o, p, q, r) = commit-eq-ok trigger message tag now c d n committed in
        let (f, k, z) = seal-IsSound c e o sound room p in
        let there : Store.get n d.versions ≡ some (made trigger message tag now e) =
          ap (λ x. Store.get n x.versions) q
          ∙ ap (λ i. Store.get i (filed_by trigger message tag now e).0) r
          ∙ get-made trigger message tag now e in
        (
          made trigger message tag now e,
          there,
          rows_at-get n (made trigger message tag now e) d there
              ∙ ap
                  (λ x.
                    rows_of e.working_deletions
                      (registered x.all_segments (segment_ids (made trigger message tag now e))))
                  q
              ∙ rows-made trigger message tag now e f z
              ∙ rows_now-seal c e o p,
        )

    -- A commit of a sound collection captures the rows of the moment: the version that it returns
    -- lists exactly the rows that were live before it, and still does after any operations that
    -- follow, garbage collection left out, as long as segment ids do not run out.
    pub rows_at-commit : (e : Collection P) → Steps d e → rows_at (version n) e ≡ rows_now c
    rows_at-commit e steps =
        let (m, there, shown) = get-committed in
        let (f, k) = commit-IsSound trigger message tag now c d n sound room committed in
        rows_at-Steps n m d e f there steps ∙ shown

  -- A restore that succeeds makes the rows of the version the live ones.
  pub rows_now-restore :
      (number now : ℕ) (c d : Collection P) (n : ℕ)
      → restore number now c ≡ ok (d, n)
      → rows_now d ≡ rows_at (version number) c
  unfolding rows_now
  rows_now-restore number now c d n h =
      let (m, fresh, g, p, (message, q)) = restore-eq-ok number now c d n h in
      let (z, step) = new-InStep c.config.dim c.config.metric fresh p in
      rows_now-commit "restore" message none now (rewound m fresh c) d n q
      ∙ (rw (empty_rows fresh z)
          (bind_nil (rows_of m.deletions (registered c.all_segments (segment_ids m)))))
      ∙ sym (rows_at-get number m c g)
