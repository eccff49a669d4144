-- ===== src/Collection/Registry.antt =====
-- The registry of sealed segments only grows while nothing is collected:
-- `all_segments` of crates/vecvec-core/src/collection.rs.
use vecvec.Prelude.{
  ℕ, ◌<◌, ◌≡◌, refl, ap, ◌∙◌, none, some, List, [], ◌∷◌, ◌++◌, arith, map, true, is_some,
  Bool-cases, inl, inr, ◌==◌,
}
use vecvec.Prelude.Maps.{HashMap, TreeMap, lookup, insert, lookup-insert, nat_key, mem}
use vecvec.Collection.State.{ids_in}
use vecvec.Distance.{Floats}
use vecvec.Segment.Sealed.{SealedSegment, global_id_range}
use vecvec.Version.Manifest.{SegmentRef}
use vecvec.Version.Deletion.{Treemap}
use vecvec.Collection.Loops.{registered, refs_of}

abbrev pub Grows : {V : Type 0} → TreeMap V → TreeMap V → Type 0
Grows {V = V} all more = (id : ℕ) (s : V) → lookup id all ≡ some s → lookup id more ≡ some s

pub Grows-insert :
    {V : Type 0} (n : ℕ) (x : V) (all : TreeMap V)
    → ((id : ℕ) (s : V) → lookup id all ≡ some s → id < n)
    → Grows all (insert n x all)
Grows-insert n x all below id s h = lookup-insert n id x all ∙ ground (arith, below id s h, h)

module _ ⦃fl : Floats⦄ ⦃tm : Treemap⦄ where
  -- Every segment of a list is the one that the registry has under its id.
  abbrev pub AllRegistered : TreeMap SealedSegment → List SealedSegment → Type 0
  AllRegistered all [] = Unit
  AllRegistered all (s ∷ ss) = (lookup s.id all ≡ some s) × AllRegistered all ss

  -- The registry has every id of a list.
  abbrev pub AllPresent : TreeMap SealedSegment → List ℕ → Type 0
  AllPresent all [] = Unit
  AllPresent all (id ∷ ids) = ((s : SealedSegment) × (lookup id all ≡ some s)) × AllPresent all ids

  module _ (all more : TreeMap SealedSegment) (grows : Grows all more) where
    pub AllRegistered-Grows :
        (ss : List SealedSegment) → AllRegistered all ss → AllRegistered more ss
    AllRegistered-Grows [] a = tt
    AllRegistered-Grows (s ∷ ss) (h, a) = (grows s.id s h, AllRegistered-Grows ss a)

    pub AllPresent-Grows : (ids : List ℕ) → AllPresent all ids → AllPresent more ids
    AllPresent-Grows [] a = tt
    AllPresent-Grows (id ∷ ids) ((s, h), a) = ((s, grows id s h), AllPresent-Grows ids a)

    pub registered-Grows :
        (ids : List ℕ) → AllPresent all ids → registered more ids ≡ registered all ids
    registered-Grows [] a = refl
    registered-Grows (id ∷ ids) ((s, h), a) =
        rw (registered, h, grows id s h) (ap (◌∷◌ s) (registered-Grows ids a))

  pub AllRegistered-append :
      (all : TreeMap SealedSegment) (ss : List SealedSegment) (s : SealedSegment)
      → AllRegistered all ss
      → lookup s.id all ≡ some s
      → AllRegistered all (ss ++ s ∷ [])
  AllRegistered-append all [] s a h = (h, tt)
  AllRegistered-append all (t ∷ ss) s (g, a) h = (g, AllRegistered-append all ss s a h)

  pub registered-AllRegistered :
      (all : TreeMap SealedSegment) (ids : List ℕ)
      → ((id : ℕ) (s : SealedSegment) → lookup id all ≡ some s → s.id ≡ id)
      → AllRegistered all (registered all ids)
  registered-AllRegistered all [] own = tt
  registered-AllRegistered all (id ∷ ids) own =
      elim (lookup id all)
          as (λ o.
            lookup id all ≡ o
            → AllRegistered all
                (elim o [ none ↦ registered all ids | some s ↦ s ∷ registered all ids ])) [
                  | none ↦ λ e. registered-AllRegistered all ids own
                  | some s ↦ λ e. (
                    ap (λ i. lookup i all) (own id s e) ∙ e,
                    registered-AllRegistered all ids own,
                  )
                ]
        refl

  pub AllPresent-refs_of :
      (all : TreeMap SealedSegment) (ss : List SealedSegment)
      → AllRegistered all ss
      → AllPresent all (map (λ (r : SegmentRef). r.id) (refs_of ss))
  AllPresent-refs_of all [] a = tt
  AllPresent-refs_of all (s ∷ ss) (h, a) =
      elim (global_id_range s)
        as (λ o. AllPresent all (
          map (λ (r : SegmentRef). r.id)
            (elim o [
              | none ↦ refs_of ss
              | some (lo, hi) ↦
                  record { id = s.id; id_lo = lo; id_hi = hi; count = s.index.vectors.count }
                  ∷ refs_of ss
            ]))) [
              | none ↦ AllPresent-refs_of all ss a
              | some (lo, hi) ↦ ((s, h), AllPresent-refs_of all ss a)
            ]

  pub AllRegistered-eq :
      (m n : HashMap ℕ SealedSegment) (ss : List SealedSegment)
      → ((i : ℕ) → mem i (ids_in ss) ≡ true → lookup i n ≡ lookup i m)
      → AllRegistered m ss
      → AllRegistered n ss
  AllRegistered-eq m n [] same a = tt
  AllRegistered-eq m n (s ∷ ss) same (e, a) =
      (same s.id (ground arith) ∙ e, AllRegistered-eq m n ss (λ i h. same i (ground (arith, h))) a)

  pub AllRegistered-present :
      (all : HashMap ℕ SealedSegment) (i : ℕ) (ss : List SealedSegment)
      → AllRegistered all ss
      → mem i (ids_in ss) ≡ true
      → is_some (lookup i all) ≡ true
  AllRegistered-present all i [] a h = absurd (ground arith)
  AllRegistered-present all i (s ∷ ss) (k, a) h = elim (Bool-cases (i == s.id)) [
    | inl same ↦
        let at : i ≡ s.id = ground (arith, same) in
        ap (λ j. is_some (lookup j all)) at ∙ ap is_some k
    | inr other ↦ AllRegistered-present all i ss a (ground (arith, h, other))
  ]
