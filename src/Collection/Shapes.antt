-- ===== src/Collection/Shapes.antt =====
-- What the operations of crates/vecvec-core/src/collection.rs leave when they succeed.
use vecvec.Prelude.{
  ℕ, ◌+◌, ◌%◌, ◌^◌, ◌≡◌, refl, sym, ap, ◌⊎◌, inl, inr, String, not, Option, none, some, List, [],
  ◌∷◌, arith, length, length-append, leb, ◌==◌, if-eq, case-eq, subst, max,
}
use vecvec.Prelude.Maps.{insert, nat_key}
use vecvec.Error.{ok, ◌>>=◌, >>=-eq-ok, ok-injective}
use vecvec.Distance.{Floats, Metric}
use vecvec.Vector.{VectorStorage}
use vecvec.Segment.IdMap
use vecvec.Segment.Sealed.{from_sealed, with_appended}
use vecvec.Segment.Filled.{append_all}
use vecvec.Segment.Appendable
use vecvec.Segment.Appendable.{AppendableSegment, appended}
use vecvec.Version.Deletion.{Treemap}
use vecvec.Version.Manifest.{Manifest, segment_ids}
use vecvec.Version.Store
use vecvec.Collection.State.{Collection}
use vecvec.Collection.Loops.{refs_of, registered, put_payload, points_of, sort_by_id}
use vecvec.Collection.Write.{seal, commit, restore, compact, insert_with_id_and_payload, check_dim}

module _ ⦃fl : Floats⦄ where
  -- As many ids as vectors.
  abbrev pub InStep : VectorStorage → IdMap.IdMap → Type 0
  InStep vectors ids = vectors.count ≡ length ids.local_to_global

  -- A new segment is empty.
  pub new-InStep :
      (dim : ℕ) (metric : Metric) (a : AppendableSegment)
      → Appendable.new dim metric ≡ ok a
      → (a.vectors.count ≡ 0) × InStep a.vectors a.ids
  new-InStep dim metric a h = let (n, e) = Appendable.new-eq-ok dim metric a h in rw e (refl, refl)

  pub append-InStep :
      (g : ℕ) (v : List fl.F32) (a b : AppendableSegment) (l : ℕ)
      → Appendable.append g v a ≡ ok (b, l)
      → InStep a.vectors a.ids
      → InStep b.vectors b.ids
  unfolding IdMap.push
  append-InStep g v a b l h s =
      let (n, e) = Appendable.append-eq-ok g v a b l h in
      rw e (omega (arith, length-append a.ids.local_to_global (g ∷ [])))

  pub append_all-InStep :
      ⦃tm : Treemap⦄ (rows : List (ℕ × List fl.F32)) (a b : AppendableSegment)
      → append_all rows a ≡ ok b
      → InStep a.vectors a.ids
      → InStep b.vectors b.ids
  append_all-InStep [] a b h s = subst (λ x. InStep x.vectors x.ids) (ok-injective a b h) s
  append_all-InStep ((g, v) ∷ rows) a b h s =
      let ((c, l), p, q) = >>=-eq-ok (Appendable.append g v a) _ h in
      append_all-InStep rows c b q (append-InStep g v a c l p s)

module _ ⦃fl : Floats⦄ ⦃tm : Treemap⦄ {P : Type 0} where
  -- The collection whose rows in `fresh`'s place have been sealed.
  abbrev pub sealed_with : AppendableSegment → Collection P → Collection P
  sealed_with fresh c =
      let sealed = Appendable.seal c.next_segment_id c.config.hnsw c.appendable in
      record c {
        next_segment_id = (c.next_segment_id + 1) % 2 ^ 64;
        appendable = fresh;
        all_segments = insert c.next_segment_id sealed c.all_segments;
        working = with_appended sealed c.working;
      }

  pub seal-eq-ok :
      (c d : Collection P) (o : Option ℕ)
      → seal c ≡ ok (d, o)
      → ((d ≡ c) × (c.appendable.vectors.count ≡ 0))
        ⊎ ((fresh : AppendableSegment) × (Appendable.new c.config.dim c.config.metric ≡ ok fresh)
            × (d ≡ sealed_with fresh c))
  unfolding seal
  seal-eq-ok c d o h = elim (if-eq (c.appendable.vectors.count == 0) _ _ (ok (d, o)) h) [
    | inl (e, q) ↦ inl (ap (λ x. x.0) (sym (ok-injective (c, none) (d, o) q)), ground (arith, e))
    | inr (e, q) ↦
        let (fresh, p, r) = >>=-eq-ok (Appendable.new c.config.dim c.config.metric) _ q in
        inr (fresh, p, ap (λ x. x.0) (sym (ok-injective _ (d, o) r)))
  ]

  -- The manifest that `commit` files for the collection once its rows are sealed.
  abbrev pub filed_by :
      String → Option String → Option String → ℕ → Collection P → Store.VersionStore × Manifest
  filed_by trigger message tag now c =
      Store.commit trigger message tag (refs_of c.working.sealed) c.working_deletions now c.versions

  pub commit-eq-ok :
      (trigger : String) (message tag : Option String) (now : ℕ) (c d : Collection P) (n : ℕ)
      → commit trigger message tag now c ≡ ok (d, n)
      → (e : Collection P) × (o : Option ℕ) × (seal c ≡ ok (e, o))
        × (d ≡ record e { versions = (filed_by trigger message tag now e).0 })
        × (n ≡ (filed_by trigger message tag now e).1.version)
  unfolding commit
  commit-eq-ok trigger message tag now c d n h =
      let ((e, o), p, q) = >>=-eq-ok (seal c) _ h in
      (
        e,
        o,
        p,
        ap (λ x. x.0) (sym (ok-injective _ (d, n) q)),
        ap (λ x. x.1) (sym (ok-injective _ (d, n) q)),
      )

  -- The collection that `restore` commits.
  abbrev pub rewound : Manifest → AppendableSegment → Collection P → Collection P
  rewound m fresh c = record c {
    working = from_sealed (registered c.all_segments (segment_ids m));
    working_deletions = m.deletions;
    appendable = fresh;
  }

  pub restore-eq-ok :
      (number now : ℕ) (c d : Collection P) (n : ℕ)
      → restore number now c ≡ ok (d, n)
      → (m : Manifest) × (fresh : AppendableSegment) × (Store.get number c.versions ≡ some m)
        × (Appendable.new c.config.dim c.config.metric ≡ ok fresh)
        × ((message : Option String) × (commit "restore" message none now (rewound m fresh c)
              ≡ ok (d, n)))
  unfolding restore
  restore-eq-ok number now c d n h =
      elim (case-eq (Store.get number c.versions) _ _ (ok (d, n)) h) [
        | inl (e, q) ↦ cc
        | inr (m, e, q) ↦
            let (fresh, p, r) = >>=-eq-ok (Appendable.new c.config.dim c.config.metric) _ q in
            (m, fresh, e, p, (_, r))
      ]

  -- The collection whose working segments have been merged.
  abbrev pub merged_with : AppendableSegment → Collection P → Collection P
  merged_with merged c =
      let sealed = Appendable.seal c.next_segment_id c.config.hnsw merged in
      record c {
        next_segment_id = (c.next_segment_id + 1) % 2 ^ 64;
        all_segments = insert c.next_segment_id sealed c.all_segments;
        working = from_sealed (sealed ∷ []);
      }

  pub compact-eq-ok :
      (c d : Collection P) (o : Option ℕ)
      → compact c ≡ ok (d, o)
      → (d ≡ c)
        ⊎ ((points : List (ℕ × List fl.F32)) × (fresh merged : AppendableSegment) × (points_of
                c.working.sealed
              ≡ ok points)
            × (Appendable.new c.config.dim c.config.metric ≡ ok fresh)
            × (append_all (sort_by_id points) fresh ≡ ok merged)
            × (d ≡ merged_with merged c))
  unfolding compact
  compact-eq-ok c d o h = elim (if-eq (leb (length c.working.sealed) 1) _ _ (ok (d, o)) h) [
    | inl (e, q) ↦ inl (ap (λ x. x.0) (sym (ok-injective (c, none) (d, o) q)))
    | inr (e, q) ↦
        let (points, p, r) = >>=-eq-ok (points_of c.working.sealed) _ q in
        let (merged, s, t) =
          >>=-eq-ok
            (Appendable.new c.config.dim c.config.metric
              >>= (λ x. append_all (sort_by_id points) x))
            _ r in
        let (fresh, u, w) = >>=-eq-ok (Appendable.new c.config.dim c.config.metric) _ s in
        inr (points, fresh, merged, p, u, w, ap (λ x. x.0) (sym (ok-injective _ (d, o) t)))
  ]

  pub insert-eq-ok :
      (g : ℕ) (v : List fl.F32) (p : Option P) (c d : Collection P)
      → insert_with_id_and_payload g v p c ≡ ok d
      → (a : AppendableSegment) × (l : ℕ) × (length v ≡ c.config.dim)
        × (Appendable.append g v c.appendable ≡ ok (a, l))
        × (d ≡ record c {
          appendable = a;
          next_global_id = max c.next_global_id ((g + 1) % 2 ^ 64);
          payloads = put_payload g p c.payloads;
        })
  unfolding insert_with_id_and_payload check_dim
  insert-eq-ok g v p c d h =
      let ((a, l), q, r) =
        >>=-eq-ok (check_dim v c >>= (λ _. Appendable.append g v c.appendable)) _ h in
      let (u, s, t) = >>=-eq-ok (check_dim v c) _ q in
      (
        a,
        l,
        elim (if-eq (not (length v == c.config.dim)) _ _ (ok u) s) [
          | inl (e, x) ↦ cc
          | inr (e, x) ↦ ground (arith, e)
        ],
        t,
        sym (ok-injective _ d r),
      )
