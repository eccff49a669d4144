-- ===== src/Durable/Listed.antt =====
-- The segments that a checkpoint of crates/vecvec-core/src/durable.rs writes.
use vecvec.Prelude.{
  ℕ, ◌≡◌, refl, sym, ap, ◌∙◌, subst, true, Option, List, [], ◌∷◌, ◌++◌, is_some, length, arith,
  ◌==◌, Bool-cases, Option-cases, inl, inr, append-nil,
}
use vecvec.Prelude.Maps.{lookup, lookup-put, nat_key, mem, mem-append}
use vecvec.Error.{ok}
use vecvec.Distance.{Floats}
use vecvec.Segment.Rows.{Rows}
use vecvec.Segment.Appendable
use vecvec.Version.Deletion.{Treemap}
use vecvec.Collection.State.{Collection, get_segment}
use vecvec.Collection.Write
use vecvec.Collection.Shapes.{seal-eq-ok}
use vecvec.Collection.Contents.{Contents, Represents, AllHold}
use vecvec.Durable.Disk.{change, write_sealed}
use vecvec.Durable.State.{DurableCollection}
use vecvec.Durable.Write.{persist_all}
use vecvec.Durable.Safe.{IsSafe}
use vecvec.Durable.Versions.{
  Written, Written-refl, Written-step, Written-stay, written, written-Written,
}

module _ ⦃fl : Floats⦄ ⦃tm : Treemap⦄ {P : Type 0} where
  -- After sealing no row is left open.
  pub seal-rows :
      (c d : Collection P) (o : Option ℕ) (w : Contents P)
      → Write.seal c ≡ ok (d, o)
      → Represents d w
      → AllHold d.working.sealed w.rows
  seal-rows c d o w h rep =
      subst (AllHold d.working.sealed)
        (sym (
          rep.all_rows
          ∙ ap (◌++◌ rep.sealed_rows) (none_open rep.open_rows rep.unsealed.count_eq)
          ∙ append-nil rep.sealed_rows))
        rep.sealed
    where
      empty : d.appendable.vectors.count ≡ 0
      empty = elim (seal-eq-ok c d o h) [
        | inl (e, z) ↦ ap (λ (x : Collection P). x.appendable.vectors.count) e ∙ z
        | inr (fresh, p, e) ↦
            ap (λ (x : Collection P). x.appendable.vectors.count) e
            ∙ ap (λ (x : Appendable.AppendableSegment). x.vectors.count)
                (Appendable.new-eq-ok c.config.dim c.config.metric fresh p).1
      ]

      none_open : (rows : Rows) → d.appendable.vectors.count ≡ length rows → rows ≡ []
      none_open [] e = refl
      none_open (r ∷ rows) e = absurd (omega (arith, e, empty))

  module _ (Q : Contents P → Type 0) (w : Contents P) (q : Q w) where
    -- What the loop of a checkpoint has reached: the files of the ids are the registry's.
    pub record IsFiled (ids : List ℕ) (d : DurableCollection P) (listed : List ℕ)
        (r : DurableCollection P × List ℕ) : Type 0 where
      pub files : Written Q w q ids d r.0
      pub exact :
          (i : ℕ)
          → mem i ids ≡ true
          → is_some (lookup i d.collection.all_segments) ≡ true
          → lookup i r.0.dir.disk.segments ≡ lookup i d.collection.all_segments
      pub kept :
          (i : ℕ)
          → lookup i d.dir.disk.segments ≡ lookup i d.collection.all_segments
          → lookup i r.0.dir.disk.segments ≡ lookup i d.collection.all_segments
      pub there :
          ((i : ℕ) → mem i listed ≡ true → is_some (lookup i d.dir.disk.segments) ≡ true)
          → (i : ℕ) → mem i r.1 ≡ true
          → is_some (lookup i r.0.dir.disk.segments) ≡ true

    pub persist_all-IsFiled :
        (ids : List ℕ) (d : DurableCollection P) (listed : List ℕ)
        → IsSafe Q d w
        → IsFiled ids d listed (persist_all ids d listed)
    unfolding get_segment change write_sealed
    persist_all-IsFiled [] d listed safe = record {
      files = Written-refl Q w q d safe;
      exact = λ i h k. absurd (ground arith);
      kept = λ i h. h;
      there = λ h i k. h i k;
    }
    persist_all-IsFiled (id ∷ ids) d listed safe =
        elim (Option-cases (lookup id d.collection.all_segments)) [
          | inl e ↦
              let r = persist_all-IsFiled ids d listed safe in
              let gone : (i : ℕ)
                  → mem i (id ∷ ids) ≡ true
                  → is_some (lookup i d.collection.all_segments) ≡ true
                  → mem i ids ≡ true =
                λ i h k. ground (arith, e, h, k) in
              rw (persist_all, get_segment, e)
                (record {
                  files =
                      Written-step Q w q id ids d d (persist_all ids d listed).0
                        (Written-stay Q w q (id ∷ []) d safe (λ i h k.
                          let at : i ≡ id = ground (arith, h) in
                          let same = ap (λ j. is_some (lookup j d.collection.all_segments)) at in
                          absurd (ground (arith, same, e, k))))
                        r.files;
                  exact = λ i h k. r.exact i (gone i h k) k;
                  kept = r.kept;
                  there = r.there;
                })
          | inr (s, e) ↦
              let a = written-Written Q w q id s d safe e in
              let d' = written Q w q id s d in
              let r = persist_all-IsFiled ids d' (listed ++ id ∷ []) a.safe in
              let law = λ (i : ℕ). lookup-put s.id i s d.dir.disk.segments in
              let own = safe.durable.tidy.owned id s e in
              let here : (i : ℕ)
                  → (i == id) ≡ true
                  → lookup i d'.dir.disk.segments ≡ lookup i d.collection.all_segments =
                λ i same.
                  let at : i ≡ id = ground (arith, same) in
                  let known = ap (λ j. lookup j d.collection.all_segments) at ∙ e in
                  ground (arith, law i, own, at, known) in
              rw (persist_all, get_segment, e)
                (record {
                  files =
                      Written-step Q w q id ids d d' (persist_all ids d' (listed ++ id ∷ [])).0 a
                        r.files;
                  exact = λ i h k. elim (Bool-cases (i == id)) [
                    | inl same ↦ r.kept i (here i same)
                    | inr other ↦ r.exact i (ground (arith, h, other)) k
                  ];
                  kept = λ i h. r.kept i (elim (Bool-cases (i == id)) [
                    | inl same ↦ here i same
                    | inr other ↦ ground (arith, law i, own, h, other)
                  ]);
                  there = λ h.
                      r.there
                        (λ i k. ground (arith, law i, mem-append i listed (id ∷ []), h i, own, k));
                })
        ]
