-- ===== src/Segment/Appendable.antt =====
-- The segment that takes writes, crates/vecvec-core/src/segment/appendable.rs, and its sealing.
-- The distance kernel that it carries is a function of the metric and left out.
use vecvec.Prelude.{
  ℕ, ◌%◌, ◌^◌, ◌<◌, ◌≡◌, ◌≢◌, refl, sym, ap, ◌∙◌, Bool, Option, none, some, List, [], ◌∷◌, ◌++◌,
  length, arith, ◌==◌, is_some, length-append, if◌then◌else◌, append-nil,
}
use vecvec.Prelude.Maps.{lookup, lookup-put, nat_key}
use vecvec.Error.{Result, ok, ◌>>=◌, >>=-eq-ok, ok-injective}
use vecvec.Distance.{Floats, Metric}
use vecvec.Vector
use vecvec.Vector.{VectorStorage, stored, pushed, push-eq, length-stored}
use vecvec.Segment.IdMap
use vecvec.Segment.IdMap.{IdMap, to_local}
use vecvec.Segment.Rows.{
  Rows, flat, Holds, vector_at, points_from, range_of, position, ids_of-append, flat-append,
  IsWide-append, length-ids_of,
}
use vecvec.Segment.Sealed.{SealedSegment, HnswConfig}

module _ ⦃fl : Floats⦄ where
  -- `AppendableSegment`
  pub record AppendableSegment : Type 0 where
    pub vectors : VectorStorage
    pub ids : IdMap

  unfoldable pub new : ℕ → Metric → Result AppendableSegment
  new dim metric =
      Vector.new dim metric >>= (λ vectors. ok (record { vectors = vectors; ids = IdMap.new }))

  abbrev pub len : AppendableSegment → ℕ
  len a = a.vectors.count

  abbrev pub is_empty : AppendableSegment → Bool
  is_empty a = a.vectors.count == 0

  -- `append`. A debug build also asserts that both parts give the same local id.
  unfoldable pub append : ℕ → List fl.F32 → AppendableSegment → Result (AppendableSegment × ℕ)
  append global vector a = Vector.push vector a.vectors >>= (λ (vectors, pid).
      let (ids, lid) = IdMap.push global a.ids in ok (record { vectors = vectors; ids = ids }, lid))

  unfoldable pub contains : ℕ → AppendableSegment → Bool
  contains global a = is_some (to_local global a.ids)

  unfoldable pub vector_of : ℕ → AppendableSegment → Result (Option (List fl.F32))
  vector_of global a = vector_at global a.vectors a.ids

  unfoldable pub iter_points : AppendableSegment → Result (List (ℕ × List fl.F32))
  iter_points a = points_from (len a % 2 ^ 32) 0 a.vectors a.ids

  unfoldable pub global_id_range : AppendableSegment → Option (ℕ × ℕ)
  global_id_range a = range_of a.ids.local_to_global

  unfoldable pub seal : ℕ → HnswConfig → AppendableSegment → SealedSegment
  seal id config a = record {
    id = id;
    index = record { vectors = a.vectors; config = config };
    ids = a.ids;
  }

  -- The segment after an `append` of a vector that has the right length.
  abbrev pub appended : ℕ → List fl.F32 → AppendableSegment → AppendableSegment
  appended global vector a = record {
    vectors = pushed vector a.vectors;
    ids = (IdMap.push global a.ids).0;
  }

  pub append-eq :
      (g : ℕ) (v : List fl.F32) (a : AppendableSegment)
      → length v ≡ a.vectors.dim
      → append g v a ≡ ok (appended g v a, length a.ids.local_to_global % 2 ^ 32)
  unfolding append IdMap.push
  append-eq g v a e = rw (append, push-eq v a.vectors e) refl

  pub new-Holds :
      (dim : ℕ) (metric : Metric)
      → Holds (record { data_flat = []; dim = dim; metric = metric; count = 0 }) IdMap.new []
  new-Holds dim metric = record {
    ids_eq = refl;
    data_eq = refl;
    wide = tt;
    count_eq = refl;
    small = omega arith;
    mapped = λ g. refl;
  }

  position-append :
      (g h : ℕ) (v : List fl.F32) (rows : Rows)
      → lookup g rows ≡ none
      → position h (rows ++ (g, v) ∷ []) ≡ (if g == h then some (length rows) else position h rows)
  position-append g h v [] n = refl
  position-append g h v ((i, w) ∷ rows) n = ground (arith, position-append g h v rows)

  module _ {a : AppendableSegment} {rows : Rows} (holds : Holds a.vectors a.ids rows) where
    -- Appending a row under an id that the segment lacks adds it at the end of the rows.
    pub appended-Holds :
        (g : ℕ) (v : List fl.F32)
        → lookup g rows ≡ none
        → length v ≡ a.vectors.dim
        → length rows < 2 ^ 32
        → Holds
            (pushed v a.vectors)
            (IdMap.push g a.ids).0
            (rows ++ (g, stored a.vectors.metric v) ∷ [])
    unfolding IdMap.push
    appended-Holds g v fresh e room = record {
      ids_eq =
          ap (λ l. l ++ g ∷ []) holds.ids_eq
          ∙ sym (ids_of-append rows ((g, stored a.vectors.metric v) ∷ []));
      data_eq =
          ap (λ l. l ++ stored a.vectors.metric v) holds.data_eq
          ∙ ap (◌++◌ (flat rows)) (sym (append-nil (stored a.vectors.metric v)))
          ∙ sym (flat-append rows ((g, stored a.vectors.metric v) ∷ []));
      wide =
          IsWide-append a.vectors.dim rows ((g, stored a.vectors.metric v) ∷ []) holds.wide
            (length-stored a.vectors.metric v ∙ e, tt);
      count_eq =
          omega (arith, holds.count_eq, length-append rows ((g, stored a.vectors.metric v) ∷ []));
      small = omega (arith, length-append rows ((g, stored a.vectors.metric v) ∷ []));
      mapped = λ h.
          lookup-put g h (length a.ids.local_to_global % 2 ^ 32) a.ids.global_to_local
          ∙ ap (λ o. if g == h then some (length a.ids.local_to_global % 2 ^ 32) else o)
              (holds.mapped h)
          ∙ ap (λ n. if g == h then some n else position h rows)
              {x = length a.ids.local_to_global % 2 ^ 32} {y = length rows}
              (omega (arith, ap length holds.ids_eq, length-ids_of rows))
          ∙ sym (position-append g h (stored a.vectors.metric v) rows fresh);
    }

  -- A new segment is empty.
  pub new-eq-ok :
      (dim : ℕ) (metric : Metric) (a : AppendableSegment)
      → new dim metric ≡ ok a
      → (dim ≢ 0) × (a ≡ record { vectors = Vector.blank dim metric; ids = IdMap.new })
  unfolding new
  new-eq-ok dim metric a h =
      let (w, p, q) = >>=-eq-ok (Vector.new dim metric) _ h in
      let (n, e) = Vector.new-eq-ok dim metric w p in
      (
        n,
        sym (ok-injective _ a q)
            ∙ ap (λ (x : VectorStorage). record { vectors = x; ids = IdMap.new }) e,
      )

  pub append-eq-ok :
      (g : ℕ) (v : List fl.F32) (a b : AppendableSegment) (l : ℕ)
      → append g v a ≡ ok (b, l)
      → (length v ≡ a.vectors.dim) × (b ≡ appended g v a)
  unfolding append
  append-eq-ok g v a b l h =
      let ((w, pid), p, q) = >>=-eq-ok (Vector.push v a.vectors) _ h in
      let (e, r) = Vector.push-eq-ok v a.vectors w pid p in
      (
        e,
        ap (λ x. x.0) (sym (ok-injective _ (b, l) q))
            ∙ ap (λ (x : VectorStorage). record { vectors = x; ids = (IdMap.push g a.ids).0 }) r,
      )
