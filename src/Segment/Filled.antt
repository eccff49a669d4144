-- ===== src/Segment/Filled.antt =====
-- A segment filled by appends, crates/vecvec-core/src/segment/appendable.rs, and the segment that
-- sealing makes of it, sealed.rs.
use vecvec.Prelude.{
  ℕ, suc, ◌+◌, ◌<◌, ◌≤◌, ◌^◌, ◌≡◌, ◌≢◌, ==-false, refl, ap, subst, none, List, [], ◌∷◌, ◌++◌,
  length, length-append, append-nil, append_assoc, is_some, arith,
}
use vecvec.Prelude.Maps.{lookup, nat_key}
use vecvec.Error.{Result, ok, ◌>>=◌}
use vecvec.Distance.{Floats, Metric}
use vecvec.Vector
use vecvec.Vector.{stored}
use vecvec.Segment.Rows.{Rows, Holds, vector_at-Holds, is_some-to_local}
use vecvec.Segment.Listing.{points_from-Holds}
use vecvec.Segment.IdMap
use vecvec.Segment.Sealed
use vecvec.Segment.Sealed.{HnswConfig}
use vecvec.Segment.Appendable
use vecvec.Segment.Appendable.{AppendableSegment, append-eq, appended, appended-Holds, new-Holds}

module _ ⦃fl : Floats⦄ where
  -- One `append` after the other, as in the loop of `compact`.
  abbrev pub append_all : Rows → AppendableSegment → Result AppendableSegment
  append_all [] a = ok a
  append_all ((g, v) ∷ rows) a = Appendable.append g v a >>= (λ (b, lid). append_all rows b)

  -- The rows as they are stored.
  abbrev pub stored_rows : Metric → Rows → Rows
  stored_rows metric [] = []
  stored_rows metric ((g, v) ∷ rows) = (g, stored metric v) ∷ stored_rows metric rows

  -- The rows have the dimension `dim`, and ids that differ from each other and from those before.
  abbrev pub IsFresh : ℕ → Metric → Rows → Rows → Type 0
  IsFresh dim metric before [] = Unit
  IsFresh dim metric before ((g, v) ∷ rows) =
      (lookup g before ≡ none)
      × (length v ≡ dim)
      × IsFresh dim metric (before ++ (g, stored metric v) ∷ []) rows

  append_all-Holds :
      (rows before : Rows) (a : AppendableSegment)
      → Holds a.vectors a.ids before
      → IsFresh a.vectors.dim a.vectors.metric before rows
      → length before + length rows ≤ 2 ^ 32
      → (b : AppendableSegment) × (append_all rows a ≡ ok b)
        × Holds b.vectors b.ids (before ++ stored_rows a.vectors.metric rows)
  append_all-Holds [] before a h f room = (a, refl, rw (append-nil before) h)
  append_all-Holds ((g, v) ∷ rows) before a h (new_id, wide, f) room =
      let row : ℕ × List fl.F32 = (g, stored a.vectors.metric v) in
      let (b, q, holds) =
        append_all-Holds rows (before ++ row ∷ []) (appended g v a)
          (appended-Holds {a = a} h g v new_id wide (omega arith)) f
          (omega (arith, length-append before (row ∷ []))) in
      (
        b,
        rw (append-eq g v a wide) q,
        subst (Holds b.vectors b.ids)
            (append_assoc before (row ∷ []) (stored_rows a.vectors.metric rows)) holds,
      )

  length-stored_rows :
      (metric : Metric) (rows : Rows) → length (stored_rows metric rows) ≡ length rows
  length-stored_rows metric [] = refl
  length-stored_rows metric ((g, v) ∷ rows) = ap suc (length-stored_rows metric rows)

  -- Filling an empty segment with fewer than 2 ^ 32 rows that have its dimension, which is not
  -- zero, and different ids succeeds; and what it then reads under an id, contains and lists are
  -- those rows in their stored form, before it is sealed and after.
  pub append_all-reads :
      (dim id : ℕ) (metric : Metric) (config : HnswConfig) (rows : Rows)
      → dim ≢ 0
      → IsFresh dim metric [] rows
      → length rows < 2 ^ 32
      → (b : AppendableSegment) × ((Appendable.new dim metric >>= append_all rows) ≡ ok b)
        × ((g : ℕ) → Appendable.vector_of g b ≡ ok (lookup g (stored_rows metric rows)))
        × ((g : ℕ) → Appendable.contains g b ≡ is_some (lookup g (stored_rows metric rows)))
        × (Appendable.iter_points b ≡ ok (stored_rows metric rows))
        × ((g : ℕ)
            → Sealed.vector_of g (Appendable.seal id config b)
              ≡ ok (lookup g (stored_rows metric rows)))
        × ((g : ℕ)
            → Sealed.contains g (Appendable.seal id config b)
              ≡ is_some (lookup g (stored_rows metric rows)))
        × (Sealed.iter_points (Appendable.seal id config b) ≡ ok (stored_rows metric rows))
  unfolding Appendable.new Vector.new Appendable.vector_of Appendable.contains
      Appendable.iter_points Sealed.vector_of Sealed.contains Sealed.iter_points Appendable.seal
  append_all-reads dim id metric config rows nonzero fresh room =
      let start : AppendableSegment = record {
        vectors = Vector.blank dim metric;
        ids = IdMap.new;
      } in
      let (b, q, holds) =
        append_all-Holds rows [] start (new-Holds dim metric) fresh (omega arith) in
      let listed =
        points_from-Holds b.vectors b.ids (stored_rows metric rows) holds
          (omega (arith, holds.count_eq, length-stored_rows metric rows)) in
      (
        b,
        rw (==-false dim 0 nonzero) q,
        vector_at-Holds holds,
        is_some-to_local holds,
        listed,
        vector_at-Holds holds,
        is_some-to_local holds,
        listed,
      )
