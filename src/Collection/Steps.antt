-- ===== src/Collection/Steps.antt =====
-- Histories of a collection: sequences of the operations of crates/vecvec-core/src/collection.rs,
-- garbage collection left out, in the order in which they take effect.
use vecvec.Prelude.{
  ℕ, ◌+◌, ◌<◌, ◌^◌, ◌≡◌, refl, sym, ap, ◌∙◌, subst, String, Bool, true, false, inl, inr, Option,
  none, List, [], ◌∷◌, not, if◌then◌else◌, if-eq, is_some,
}
use vecvec.Prelude.Maps.{lookup, nat_key}
use vecvec.Error.{ok, err, panic, ◌>>=◌, >>=-eq-ok, ok-injective}
use vecvec.Distance.{Floats}
use vecvec.Segment.Appendable
use vecvec.Version.Deletion
use vecvec.Version.Deletion.{Treemap}
use vecvec.Version.Store
use vecvec.Collection.State.{Collection, CollectionConfig, create, alloc_global_id}
use vecvec.Collection.Write.{
  seal, commit, restore, compact, delete, insert_with_id_and_payload, insert_one, insert_batch,
  append_batch, check_all, insert_with_id, with_id, contains_any,
}
use vecvec.Collection.Read.{create_tag, create_branch, checked}
use vecvec.Collection.Shapes.{InStep, new-InStep, append-InStep, insert-eq-ok}
use vecvec.Collection.Sound.{
  IsSound, IsKept, IsKept-refl, IsKept-trans, seal-IsSound, commit-IsSound, restore-IsSound,
  compact-IsSound,
}

module _ ⦃fl : Floats⦄ ⦃tm : Treemap⦄ {P : Type 0} where
  -- One operation. Those that take a segment id need the counter to have room.
  pub data Step : Collection P → Collection P → Type 0 where
    inserted :
        (g : ℕ) (v : List fl.F32) (p : Option P) (c d : Collection P)
        → insert_with_id_and_payload g v p c ≡ ok d
        → Step c d
    inserted_one : (v : List fl.F32) (c : Collection P) → Step c (insert_one v c).0
    inserted_batch :
        (vs : List (List fl.F32)) (c d : Collection P) (ids : List ℕ)
        → insert_batch vs c ≡ ok (d, ids)
        → Step c d
    deleted : (g : ℕ) (c : Collection P) → Step c (delete g c).0
    sealed :
        (c d : Collection P) (o : Option ℕ)
        → c.next_segment_id + 1 < 2 ^ 64
        → seal c ≡ ok (d, o)
        → Step c d
    committed :
        (trigger : String) (message tag : Option String) (now : ℕ) (c d : Collection P) (n : ℕ)
        → c.next_segment_id + 1 < 2 ^ 64
        → commit trigger message tag now c ≡ ok (d, n)
        → Step c d
    restored :
        (number now : ℕ) (c d : Collection P) (n : ℕ)
        → c.next_segment_id + 1 < 2 ^ 64
        → restore number now c ≡ ok (d, n)
        → Step c d
    compacted :
        (c d : Collection P) (o : Option ℕ)
        → c.next_segment_id + 1 < 2 ^ 64
        → compact c ≡ ok (d, o)
        → Step c d
    tagged :
        (name : String) (number : ℕ) (c d : Collection P)
        → create_tag name number c ≡ ok d
        → Step c d
    branched :
        (name : String) (number : ℕ) (c d : Collection P)
        → create_branch name number c ≡ ok d
        → Step c d

  pub data Steps : Collection P → Collection P → Type 0 where
    done : (c : Collection P) → Steps c c
    then_step : (c d e : Collection P) → Steps c d → Step d e → Steps c e

  pub create-IsSound :
      (config : CollectionConfig) (c : Collection P) → create config ≡ ok c → IsSound c
  unfolding create Store.new Store.get
  create-IsSound config c h =
      let (a, p, q) = >>=-eq-ok (Appendable.new config.dim config.metric) _ h in
      let (z, step) = new-InStep config.dim config.metric a p in
      subst IsSound (ok-injective _ c q) (record {
        in_step = step;
        known = λ id s e. cc;
        current = tt;
        referenced = λ v m e. cc;
        filed = λ v m e. cc;
      })

  -- What is stored is untouched, and the appendable segment stays in step.
  abbrev SameStored : Collection P → Collection P → Type 0
  SameStored c d =
      (d.all_segments ≡ c.all_segments)
      × (d.working ≡ c.working)
      × (d.next_segment_id ≡ c.next_segment_id)
      × (d.versions.commits ≡ c.versions.commits)
      × (d.versions.next_version ≡ c.versions.next_version)
      × InStep d.appendable.vectors d.appendable.ids

  SameStored-IsSound : (c d : Collection P) → IsSound c → SameStored c d → IsSound d × IsKept c d
  unfolding Store.get
  SameStored-IsSound c d f (a, w, n, k, v, s) = (
    record {
      in_step = s;
      known = rw (a, n) f.known;
      current = rw (a, w) f.current;
      referenced = rw (a, k) f.referenced;
      filed = rw (k, v) f.filed;
    },
    record { segments = rw a (λ id t h. h); versions = rw k (λ v m h. h) },
  )

  insert-SameStored :
      (g : ℕ) (v : List fl.F32) (p : Option P) (c d : Collection P)
      → InStep c.appendable.vectors c.appendable.ids
      → insert_with_id_and_payload g v p c ≡ ok d
      → SameStored c d
  insert-SameStored g v p c d s h =
      let (a, l, w, q, e) = insert-eq-ok g v p c d h in
      rw e (refl, refl, refl, refl, refl, append-InStep g v c.appendable a l q s)

  insert_one-SameStored :
      (v : List fl.F32) (c : Collection P)
      → InStep c.appendable.vectors c.appendable.ids
      → SameStored c (insert_one v c).0
  unfolding insert_one alloc_global_id insert_with_id
  insert_one-SameStored v c s =
      let start = (alloc_global_id c).0 in
      elim (insert_with_id c.next_global_id v start)
          as (λ r.
            insert_with_id c.next_global_id v start ≡ r
            → SameStored c (with_id start c.next_global_id r).0) [
              | ok e ↦ λ q. insert-SameStored c.next_global_id v none start e s q
              | err e ↦ λ q. (refl, refl, refl, refl, refl, s)
              | panic ↦ λ q. (refl, refl, refl, refl, refl, s)
            ]
        refl

  append_batch-SameStored :
      (vs : List (List fl.F32)) (c d : Collection P) (ids : List ℕ)
      → InStep c.appendable.vectors c.appendable.ids
      → append_batch vs c ≡ ok (d, ids)
      → SameStored c d
  unfolding alloc_global_id
  append_batch-SameStored [] c d ids s h =
      let e = ap (λ x. x.0) (ok-injective (c, []) (d, ids) h) in
      rw⁻¹ e (refl, refl, refl, refl, refl, s)
  append_batch-SameStored (v ∷ vs) c d ids s h =
      let start = (alloc_global_id c).0 in
      let ((e, js), p, q) =
        >>=-eq-ok
          (Appendable.append c.next_global_id v c.appendable
            >>= (λ (a, l). append_batch vs (record start { appendable = a })))
          _ h in
      let ((a, l), r, t) = >>=-eq-ok (Appendable.append c.next_global_id v c.appendable) _ p in
      let same =
        append_batch-SameStored vs (record start { appendable = a }) e js
          (append-InStep c.next_global_id v c.appendable a l r s) t in
      subst (SameStored c) (ap (λ x. x.0) (ok-injective _ (d, ids) q)) same

  insert_batch-SameStored :
      (vs : List (List fl.F32)) (c d : Collection P) (ids : List ℕ)
      → InStep c.appendable.vectors c.appendable.ids
      → insert_batch vs c ≡ ok (d, ids)
      → SameStored c d
  unfolding insert_batch
  insert_batch-SameStored vs c d ids s h =
      let ((e, js), p, q) = >>=-eq-ok (check_all vs c >>= (λ _. append_batch vs c)) _ h in
      let (u, r, t) = >>=-eq-ok (check_all vs c) _ p in
      subst (SameStored c) (ap (λ x. x.0) (ok-injective _ (d, ids) q))
        (append_batch-SameStored vs c e js s t)

  delete-SameStored :
      (g : ℕ) (c : Collection P)
      → InStep c.appendable.vectors c.appendable.ids
      → SameStored c (delete g c).0
  unfolding delete
  delete-SameStored g c s =
      let outcome : Bool → Collection P × Bool = λ b. if not b then (c, false) else (
        record c { working_deletions = (Deletion.insert g c.working_deletions).0 },
        (Deletion.insert g c.working_deletions).1,
      ) in
      elim (contains_any g c) as (λ b. SameStored c (outcome b).0) [
        | true ↦ (refl, refl, refl, refl, refl, s)
        | false ↦ (refl, refl, refl, refl, refl, s)
      ]

  create_tag-SameStored :
      (name : String) (number : ℕ) (c d : Collection P)
      → InStep c.appendable.vectors c.appendable.ids
      → create_tag name number c ≡ ok d
      → SameStored c d
  unfolding create_tag Store.set_tag
  create_tag-SameStored name number c d s h =
      let (vs, p, q) = >>=-eq-ok (checked (Store.set_tag name number c.versions)) _ h in
      let e = ok-injective _ d q in
      elim (if-eq (is_some (lookup number c.versions.commits)) _ _
        (Store.set_tag name number c.versions) refl) [
          | inl (b, r) ↦
              let same = ok-injective _ vs (ap checked r ∙ p) in
              rw⁻¹ e (
                refl,
                refl,
                refl,
                ap (λ x. x.commits) (sym same),
                ap (λ x. x.next_version) (sym same),
                s,
              )
          | inr (b, r) ↦ let no = ap checked r ∙ p in cc
        ]

  create_branch-SameStored :
      (name : String) (number : ℕ) (c d : Collection P)
      → InStep c.appendable.vectors c.appendable.ids
      → create_branch name number c ≡ ok d
      → SameStored c d
  unfolding create_branch Store.set_branch
  create_branch-SameStored name number c d s h =
      let (vs, p, q) = >>=-eq-ok (checked (Store.set_branch name number c.versions)) _ h in
      let e = ok-injective _ d q in
      elim (if-eq (is_some (lookup number c.versions.commits)) _ _
        (Store.set_branch name number c.versions) refl) [
          | inl (b, r) ↦
              let same = ok-injective _ vs (ap checked r ∙ p) in
              rw⁻¹ e (
                refl,
                refl,
                refl,
                ap (λ x. x.commits) (sym same),
                ap (λ x. x.next_version) (sym same),
                s,
              )
          | inr (b, r) ↦ let no = ap checked r ∙ p in cc
        ]

  -- Each operation keeps a collection sound, and loses and changes nothing that is stored.
  pub Step-IsSound : (c d : Collection P) → Step c d → IsSound c → IsSound d × IsKept c d
  Step-IsSound _ _ (inserted g v p c d h) f =
      SameStored-IsSound c d f (insert-SameStored g v p c d f.in_step h)
  Step-IsSound _ _ (inserted_one v c) f =
      SameStored-IsSound c (insert_one v c).0 f (insert_one-SameStored v c f.in_step)
  Step-IsSound _ _ (inserted_batch vs c d ids h) f =
      SameStored-IsSound c d f (insert_batch-SameStored vs c d ids f.in_step h)
  Step-IsSound _ _ (deleted g c) f =
      SameStored-IsSound c (delete g c).0 f (delete-SameStored g c f.in_step)
  Step-IsSound _ _ (sealed c d o room h) f = let (g, k, z) = seal-IsSound c d o f room h in (g, k)
  Step-IsSound _ _ (committed trigger message tag now c d n room h) f =
      commit-IsSound trigger message tag now c d n f room h
  Step-IsSound _ _ (restored number now c d n room h) f = restore-IsSound number now c d n f room h
  Step-IsSound _ _ (compacted c d o room h) f = compact-IsSound c d o f room h
  Step-IsSound _ _ (tagged name number c d h) f =
      SameStored-IsSound c d f (create_tag-SameStored name number c d f.in_step h)
  Step-IsSound _ _ (branched name number c d h) f =
      SameStored-IsSound c d f (create_branch-SameStored name number c d f.in_step h)

  -- Any sequence of operations, garbage collection left out, keeps a sound collection sound, and
  -- loses and changes none of the versions and of the sealed segments that it had, as long as
  -- segment ids do not run out: before each seal, commit, restore and compaction the next id but
  -- one is below 2 ^ 64.
  pub Steps-IsSound : (c d : Collection P) → Steps c d → IsSound c → IsSound d × IsKept c d
  Steps-IsSound _ _ (done c) f = (f, IsKept-refl c)
  Steps-IsSound _ _ (then_step c d e ss s) f =
      let (g, k) = Steps-IsSound c d ss f in
      let (h, l) = Step-IsSound d e s g in (h, IsKept-trans c d e k l)
