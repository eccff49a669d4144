-- ===== src/Durable/Saved/Loading.antt =====
-- The segments that `open` of crates/vecvec-core/src/durable.rs loads.
use vecvec.Prelude.{
  ℕ, ◌≡◌, refl, ap, ◌∙◌, Bool, true, ◌||◌, some, List, [], ◌∷◌, is_some, arith, keep, any,
  if◌then◌else◌, Bool-cases, Option-cases, inl, inr, ◌==◌,
}
use vecvec.Prelude.Maps.{
  HashMap, TreeMap, lookup, insert, lookup-insert, nat_key, mem, set_extend, values,
}
use vecvec.Prelude.Ascending.{
  IsAscending, set_extend-IsAscending, keep-IsAscending, ascending_unique,
}
use vecvec.Error.{ok}
use vecvec.Distance.{Floats}
use vecvec.Segment.Sealed.{SealedSegment}
use vecvec.Version.Deletion.{Treemap}
use vecvec.Version.Manifest.{Manifest, segment_ids}
use vecvec.Version.Store.Collect.{mem-keep}
use vecvec.Version.Store.{extend_all, by_version}
use vecvec.Collection.State.{ids_in, register_all}
use vecvec.Collection.Loops.{registered}
use vecvec.Collection.Registry.{AllRegistered}
use vecvec.Collection.Tidy.{any-values-insert}
use vecvec.Durable.Disk.{Disk, load}
use vecvec.Durable.State.{load_all}

-- Of an ascending list that has all of them, these are kept.
pub keep_all :
    (hw ids : List ℕ)
    → IsAscending hw
    → IsAscending ids
    → ((i : ℕ) → mem i hw ≡ true → mem i ids ≡ true)
    → keep (λ i. mem i hw) ids ≡ hw
keep_all hw ids h k sub =
    ascending_unique (keep (λ i. mem i hw) ids) hw (keep-IsAscending (λ i. mem i hw) ids k) h
      (λ i. mem-keep i (λ j. mem j hw) ids ∙ ground (arith, sub i))

module _ ⦃tm : Treemap⦄ where
  pub extend_all-IsAscending :
      (ids : List ℕ) (ms : List Manifest) → IsAscending ids → IsAscending (extend_all ids ms)
  extend_all-IsAscending ids [] h = h
  extend_all-IsAscending ids (m ∷ ms) h =
      extend_all-IsAscending (set_extend ids (segment_ids m)) ms
        (set_extend-IsAscending ids (segment_ids m) h)

  pub any-by_version :
      (p : Manifest → Bool) (t : TreeMap Manifest) (ms : List Manifest)
      → any p (values (by_version t ms)) ≡ true
      → (any p (values t) || any p ms) ≡ true
  any-by_version p t [] h = ground (arith, h)
  any-by_version p t (m ∷ ms) h =
      let k = any-by_version p (insert m.version m t) ms h in
      ground (arith, k, any-values-insert p m.version m t)

module _ ⦃fl : Floats⦄ ⦃tm : Treemap⦄ where
  module _ (m : HashMap ℕ SealedSegment)
      (owned : (id : ℕ) (s : SealedSegment) → lookup id m ≡ some s → s.id ≡ id) where
    pub keep-registered :
        (p : ℕ → Bool) (ids : List ℕ)
        → keep (λ (s : SealedSegment). p s.id) (registered m ids) ≡ registered m (keep p ids)
    keep-registered p [] = refl
    keep-registered p (id ∷ ids) = elim (Option-cases (lookup id m)) [
      | inl e ↦ elim (Bool-cases (p id)) [
        | inl f ↦ rw (f, registered, e) (keep-registered p ids)
        | inr f ↦ rw (f, registered, e) (keep-registered p ids)
      ]
      | inr (s, e) ↦
          let own : p s.id ≡ p id = ap p (owned id s e) in
          elim (Bool-cases (p id)) [
            | inl f ↦ rw (f, registered, e, own, f) (ap (◌∷◌ s) (keep-registered p ids))
            | inr f ↦ rw (f, registered, e, own, f) (keep-registered p ids)
          ]
    ]

    pub lookup-register_all :
        (i : ℕ) (ids : List ℕ) (all : TreeMap SealedSegment)
        → ((j : ℕ) → mem j ids ≡ true → is_some (lookup j m) ≡ true)
        → lookup i (register_all (registered m ids) all)
          ≡ (if mem i ids then lookup i m else lookup i all)
    lookup-register_all i [] all present = refl
    lookup-register_all i (id ∷ ids) all present = elim (Option-cases (lookup id m)) [
      | inl e ↦ absurd (ground (arith, present id, e))
      | inr (s, e) ↦
          let rest =
            lookup-register_all i ids (insert s.id s all) (λ j h. present j (ground (arith, h))) in
          let own = owned id s e in
          rw (registered, e)
            (rest ∙ elim (Bool-cases (i == id)) [
              | inl f ↦
                  let same : i ≡ id = ground (arith, f) in
                  ground (arith, lookup-insert s.id i s all, own, e, same, f)
              | inr f ↦ ground (arith, lookup-insert s.id i s all, own, f)
            ])
    ]

  pub registered-ids_in :
      (m : HashMap ℕ SealedSegment) (ss : List SealedSegment)
      → AllRegistered m ss
      → registered m (ids_in ss) ≡ ss
  registered-ids_in m [] a = refl
  registered-ids_in m (s ∷ ss) (e, a) = rw (registered, e) (ap (◌∷◌ s) (registered-ids_in m ss a))

  pub load_all-registered :
      {P : Type 0} (ids : List ℕ) (disk : Disk P)
      → ((j : ℕ) → mem j ids ≡ true → is_some (lookup j disk.segments) ≡ true)
      → load_all ids disk ≡ ok (registered disk.segments ids)
  unfolding load
  load_all-registered [] disk present = refl
  load_all-registered (id ∷ ids) disk present = elim (Option-cases (lookup id disk.segments)) [
    | inl e ↦ absurd (ground (arith, present id, e))
    | inr (s, e) ↦
        let rest = load_all-registered ids disk (λ j h. present j (ground (arith, h))) in
        rw (load_all, load, registered, e, rest) refl
  ]
