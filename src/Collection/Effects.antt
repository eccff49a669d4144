-- ===== src/Collection/Effects.antt =====
-- What inserting and deleting do to the points of a collection:
-- crates/vecvec-core/src/collection.rs.
use vecvec.Prelude.{
  ℕ, ◌+◌, ◌<◌, ◌^◌, ◌%◌, ◌≡◌, refl, sym, ◌∙◌, Bool, true, false, inl, inr, Option, none, some, List,
  [], ◌∷◌, ◌++◌, length, arith, ◌==◌, not, ◌||◌, ◌&&◌, if◌then◌else◌, max, is_some, Bool-cases,
  ==-true,
}
use vecvec.Prelude.Maps.{lookup, lookup-put, nat_key}
use vecvec.Error.{Result, ok, ◌>>=◌}
use vecvec.Distance.{Floats}
use vecvec.Vector.{stored}
use vecvec.Segment.Rows.{Rows, Holds, vector_at-Holds}
use vecvec.Segment.Appendable
use vecvec.Segment.Appendable.{appended, append-eq, appended-Holds}
use vecvec.Version.Deletion
use vecvec.Version.Deletion.{Treemap}
use vecvec.Collection.State.{Collection}
use vecvec.Collection.Loops.{put_payload}
use vecvec.Collection.Write.{insert_with_id_and_payload, check_dim, delete, contains_any}
use vecvec.Collection.Read.{get_point, get_vector, payload}

or_if :
    {A : Type 0} (a b : Bool) (x y : A)
    → (if a || b then x else y) ≡ (if a then x else if b then x else y)
or_if true b x y = refl
or_if false b x y = refl

choose_bind :
    {A : Type 0} (b : Bool) (w : A) (l : Option A) (k : Result (Option A))
    → (ok (if b then some w else l) >>= (λ v. elim v [ none ↦ k | some x ↦ ok (some x) ]))
      ≡ (if b then ok (some w) else (ok l >>= (λ v. elim v [ none ↦ k | some x ↦ ok (some x) ])))
choose_bind true w l k = refl
choose_bind false w l k = refl

lookup-append_new :
    {V : Type 0} (g h : ℕ) (w : V) (rows : List (ℕ × V))
    → lookup g rows ≡ none
    → lookup h (rows ++ (g, w) ∷ []) ≡ (if g == h then some w else lookup h rows)
lookup-append_new g h w [] n = refl
lookup-append_new g h w ((i, x) ∷ rows) n = ground (arith, lookup-append_new g h w rows)

module _ ⦃fl : Floats⦄ ⦃tm : Treemap⦄ {P : Type 0} where
  delete-hit :
      (g : ℕ) (c : Collection P)
      → contains_any g c ≡ true
      → delete g c ≡ (
        record c { working_deletions = (Deletion.insert g c.working_deletions).0 },
        (Deletion.insert g c.working_deletions).1,
      )
  unfolding delete
  delete-hit g c e = rw e refl

  delete-miss : (g : ℕ) (c : Collection P) → contains_any g c ≡ false → delete g c ≡ (c, false)
  unfolding delete
  delete-miss g c e = rw e refl

  get_point-insert :
      (g h : ℕ) (c : Collection P)
      → get_point h (record c { working_deletions = (Deletion.insert g c.working_deletions).0 })
        ≡ (if h == g then ok none else get_point h c)
  unfolding get_point get_vector Deletion.insert Deletion.contains
  get_point-insert g h c =
      rw (tm.contains-insert h g c.working_deletions.bitmap)
        (or_if (h == g) (tm.contains h c.working_deletions.bitmap) _ _)

  -- Deleting an id that some live segment holds adds it to the deletions, changes nothing but
  -- these, hides the point, and tells whether it was visible. Deleting any other id leaves the whole
  -- collection as it was, and answers false. Every other point is read as before.
  pub delete_effect :
      (g : ℕ) (c : Collection P)
      → ((delete g c).0 ≡ (
          if contains_any g c
          then record c { working_deletions = (delete g c).0.working_deletions }
          else c))
        × ((h : ℕ)
            → Deletion.contains h (delete g c).0.working_deletions
              ≡ ((contains_any g c && h == g) || Deletion.contains h c.working_deletions))
        × ((delete g c).1 ≡ (contains_any g c && not (Deletion.contains g c.working_deletions)))
        × ((h : ℕ)
            → get_point h (delete g c).0
              ≡ (if contains_any g c && h == g then ok none else get_point h c))
  unfolding Deletion.insert Deletion.contains
  delete_effect g c = elim (Bool-cases (contains_any g c)) [
    | inl e ↦
        rw (delete-hit g c e, e)
          (
            refl,
            λ h. tm.contains-insert h g c.working_deletions.bitmap,
            tm.insert_newly g c.working_deletions.bitmap,
            λ h. get_point-insert g h c,
          )
    | inr e ↦ rw (delete-miss g c e, e) (refl, λ h. refl, refl, λ h. refl)
  ]

  module _ (g : ℕ) (v : List fl.F32) (p : Option P) (c : Collection P) (rows : Rows)
      (holds : Holds c.appendable.vectors c.appendable.ids rows) where
    -- Where the appendable segment holds fewer than 2 ^ 32 rows and has the collection's dimension,
    -- inserting a vector of that dimension under an id that the segment lacks makes the vector
    -- readable under it in its stored form, replaces the payload if one is given, and changes no
    -- other vector or payload.
    pub insert_effect :
        lookup g rows ≡ none
        → length rows < 2 ^ 32
        → length v ≡ c.config.dim
        → c.appendable.vectors.dim ≡ c.config.dim
        → (d : Collection P) × (insert_with_id_and_payload g v p c ≡ ok d)
          × ((h : ℕ)
              → get_vector h d ≡ (
                  if g == h
                  then ok (some (stored c.appendable.vectors.metric v))
                  else get_vector h c))
          × ((h : ℕ) → payload h d ≡ (if g == h && is_some p then p else payload h c))
    unfolding insert_with_id_and_payload check_dim get_vector Appendable.vector_of payload
    insert_effect fresh room wide dims = (
      record c {
        appendable = appended g v c.appendable;
        next_global_id = max c.next_global_id ((g + 1) % 2 ^ 64);
        payloads = put_payload g p c.payloads;
      },
      run,
      read,
      paid p,
    )
      where
        run :
            insert_with_id_and_payload g v p c
            ≡ ok (record c {
              appendable = appended g v c.appendable;
              next_global_id = max c.next_global_id ((g + 1) % 2 ^ 64);
              payloads = put_payload g p c.payloads;
            })
        run =
            rw (==-true (length v) c.config.dim wide, append-eq g v c.appendable (wide ∙ sym dims))
              refl

        read :
            (h : ℕ)
            → get_vector h (record c {
              appendable = appended g v c.appendable;
              next_global_id = max c.next_global_id ((g + 1) % 2 ^ 64);
              payloads = put_payload g p c.payloads;
            })
              ≡ (if g == h
                  then ok (some (stored c.appendable.vectors.metric v))
                  else get_vector h c)
        read h =
            let after =
              vector_at-Holds
                (appended-Holds {a = c.appendable} holds g v fresh (wide ∙ sym dims) room) h in
            rw
              (
                after,
                vector_at-Holds holds h,
                lookup-append_new g h (stored c.appendable.vectors.metric v) rows fresh,
              )
              (choose_bind (g == h) (stored c.appendable.vectors.metric v) (lookup h rows) _)

        paid :
            (q : Option P) (h : ℕ)
            → lookup h (put_payload g q c.payloads)
              ≡ (if g == h && is_some q then q else lookup h c.payloads)
        paid none h = ground arith
        paid (some x) h = ground (arith, lookup-put g h x c.payloads)
