-- ===== src/Collection/Tidy.antt =====
-- The order of a collection's segments and their registry, which its files rely on:
-- crates/vecvec-core/src/collection.rs.
pub mod Keeps
use vecvec.Prelude.{
  ℕ, ◌+◌, ◌%◌, ◌<◌, ◌≤◌, ◌^◌, ◌≡◌, refl, sym, ap, ◌∙◌, subst, String, Bool, true, false, ◌||◌,
  Option, none, some, List, [], ◌∷◌, ◌++◌, map, is_some, arith, any, All, if◌then◌else◌, Bool-cases,
  inl, inr, ◌==◌, some-injective,
}
use vecvec.Prelude.Maps.{
  TreeMap, lookup, insert, lookup-insert, values, nat_key, mem, set_extend, mem-set_extend,
}
use vecvec.Prelude.Ascending.{IsAscending, IsAscending-append}
use vecvec.Error.{ok}
use vecvec.Distance.{Floats}
use vecvec.Segment.Sealed
use vecvec.Segment.Sealed.{SealedSegment, global_id_range}
use vecvec.Segment.Appendable
use vecvec.Version.Deletion.{Treemap}
use vecvec.Version.Manifest.{Manifest, SegmentRef, segment_ids}
use vecvec.Version.Store
use vecvec.Version.Store.{extend_all, all_referenced_segments}
use vecvec.Collection.State.{Collection, ids_in}
use vecvec.Collection.Loops.{refs_of}
use vecvec.Collection.Write.{seal, commit, compact}
use vecvec.Collection.Shapes.{
  seal-eq-ok, sealed_with, commit-eq-ok, compact-eq-ok, merged_with, filed_by,
}
use vecvec.Collection.Registry.{AllRegistered, AllRegistered-append}

module _ ⦃tm : Treemap⦄ where
  pub mem-extend_all :
      (i : ℕ) (ids : List ℕ) (ms : List Manifest)
      → mem i (extend_all ids ms) ≡ (mem i ids || any (λ m. mem i (segment_ids m)) ms)
  mem-extend_all i ids [] = ground arith
  mem-extend_all i ids (m ∷ ms) = ground (
    arith,
    mem-extend_all i (set_extend ids (segment_ids m)) ms,
    mem-set_extend i ids (segment_ids m),
  )

  pub any-values-insert :
      (p : Manifest → Bool) (k : ℕ) (m : Manifest) (t : TreeMap Manifest)
      → any p (values (insert k m t)) ≡ true
      → (p m || any p (values t)) ≡ true
  any-values-insert p k m [] h = h
  any-values-insert p k m ((j, n) ∷ t) h = ground (arith, any-values-insert p k m t)

module _ ⦃fl : Floats⦄ ⦃tm : Treemap⦄ where
  pub AllRegistered-insert :
      (next : ℕ) (s : SealedSegment) (all : TreeMap SealedSegment) (ss : List SealedSegment)
      → All (λ i. i < next) (ids_in ss)
      → AllRegistered all ss
      → AllRegistered (insert next s all) ss
  AllRegistered-insert next s all [] b a = tt
  AllRegistered-insert next s all (t ∷ ss) (k, b) (h, a) =
      (ground (arith, lookup-insert next t.id s all), AllRegistered-insert next s all ss b a)

  pub ids_in-append :
      (ss : List SealedSegment) (s : SealedSegment) → ids_in (ss ++ s ∷ []) ≡ ids_in ss ++ s.id ∷ []
  ids_in-append [] s = refl
  ids_in-append (t ∷ ss) s = ap (◌∷◌ t.id) (ids_in-append ss s)

  pub All_step :
      (n m : ℕ) (xs : List ℕ) → n < m → All (λ i. i < n) xs → All (λ i. i < m) (xs ++ n ∷ [])
  All_step n m [] h b = (h, tt)
  All_step n m (x ∷ xs) h (k, b) = (omega arith, All_step n m xs h b)

  pub owned-insert :
      (next : ℕ) (s : SealedSegment) (all : TreeMap SealedSegment)
      → s.id ≡ next
      → ((id : ℕ) (t : SealedSegment) → lookup id all ≡ some t → t.id ≡ id)
      → (id : ℕ) (t : SealedSegment) → lookup id (insert next s all) ≡ some t
      → t.id ≡ id
  owned-insert next s all own old id t h = elim (Bool-cases (next == id)) [
    | inl e ↦
        let same : s ≡ t = some-injective s t (sym (rw e at (lookup-insert next id s all)) ∙ h) in
        ap (λ (x : SealedSegment). x.id) (sym same) ∙ own ∙ ground (arith, e)
    | inr e ↦ old id t (sym (rw e at (lookup-insert next id s all)) ∙ h)
  ]

module _ ⦃fl : Floats⦄ ⦃tm : Treemap⦄ {P : Type 0} where
  pub record IsTidy (c : Collection P) : Type 0 where
    pub ascending : IsAscending (ids_in c.working.sealed)
    pub below : All (λ i. i < c.next_segment_id) (ids_in c.working.sealed)
    pub current : AllRegistered c.all_segments c.working.sealed
    pub owned : (id : ℕ) (s : SealedSegment) → lookup id c.all_segments ≡ some s → s.id ≡ id
    pub referenced :
        (id : ℕ)
        → mem id (all_referenced_segments c.versions) ≡ true
        → is_some (lookup id c.all_segments) ≡ true

  -- What writes leave alone.
  pub record SameFrame (c d : Collection P) : Type 0 where
    pub config : d.config ≡ c.config
    pub working : d.working ≡ c.working
    pub segments : d.all_segments ≡ c.all_segments
    pub versions : d.versions ≡ c.versions
    pub next_segment : d.next_segment_id ≡ c.next_segment_id

  pub SameFrame-refl : (c : Collection P) → SameFrame c c
  SameFrame-refl c = record {
    config = refl;
    working = refl;
    segments = refl;
    versions = refl;
    next_segment = refl;
  }

  pub SameFrame-trans : (c d e : Collection P) → SameFrame c d → SameFrame d e → SameFrame c e
  SameFrame-trans c d e p q = record {
    config = q.config ∙ p.config;
    working = q.working ∙ p.working;
    segments = q.segments ∙ p.segments;
    versions = q.versions ∙ p.versions;
    next_segment = q.next_segment ∙ p.next_segment;
  }

  pub SameFrame-IsTidy : (c d : Collection P) → SameFrame c d → IsTidy c → IsTidy d
  SameFrame-IsTidy c d f t = record {
    ascending = subst (λ w. IsAscending (ids_in w.sealed)) (sym f.working) t.ascending;
    below = rw (f.working, f.next_segment) t.below;
    current = rw (f.working, f.segments) t.current;
    owned = rw f.segments t.owned;
    referenced = rw (f.versions, f.segments) t.referenced;
  }

  -- Segments are only added, under new ids.
  pub record Advances (c d : Collection P) : Type 0 where
    pub config : d.config ≡ c.config
    pub next_global : d.next_global_id ≡ c.next_global_id
    pub next_segment : c.next_segment_id ≤ d.next_segment_id
    pub kept :
        (id : ℕ) → id < c.next_segment_id → lookup id d.all_segments ≡ lookup id c.all_segments

  pub Advances-refl : (c : Collection P) → Advances c c
  Advances-refl c = record {
    config = refl;
    next_global = refl;
    next_segment = omega arith;
    kept = λ id h. refl;
  }
