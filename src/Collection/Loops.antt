-- ===== src/Collection/Loops.antt =====
-- The loops inside the operations of crates/vecvec-core/src/collection.rs.
use vecvec.Prelude.{
  ℕ, ◌+◌, ◌%◌, ◌^◌, ◌&&◌, not, Option, none, some, List, [], ◌∷◌, ◌++◌, leb, is_some, if◌then◌else◌,
}
use vecvec.Prelude.Maps.{HashMap, TreeMap, lookup, put, without, nat_key, mem}
use vecvec.Error.{Result, ok, ◌>>=◌}
use vecvec.Distance.{Floats}
use vecvec.Segment.Sealed
use vecvec.Segment.Sealed.{
  HnswConfig, SealedSegment, SegmentSet, from_sealed, with_appended, global_id_range,
}
use vecvec.Version.Deletion.{Treemap}
use vecvec.Version.Manifest.{SegmentRef}

module _ ⦃fl : Floats⦄ ⦃tm : Treemap⦄ where
  abbrev pub put_payload : {P : Type 0} → ℕ → Option P → HashMap ℕ P → HashMap ℕ P
  put_payload id none payloads = payloads
  put_payload id (some p) payloads = put id p payloads

  -- `ids.last().map_or(0, |g| g.get() + 1)`
  abbrev pub after_last : List ℕ → ℕ
  after_last [] = 0
  after_last (id ∷ []) = (id + 1) % 2 ^ 64
  after_last (id ∷ j ∷ ids) = after_last (j ∷ ids)

  -- The references of `commit`, one for each segment that has rows.
  abbrev pub refs_of : List SealedSegment → List SegmentRef
  refs_of [] = []
  refs_of (s ∷ ss) = elim (global_id_range s) [
    | none ↦ refs_of ss
    | some (lo, hi) ↦
        record { id = s.id; id_lo = lo; id_hi = hi; count = Sealed.len s } ∷ refs_of ss
  ]

  -- The segments of a version that the registry has.
  abbrev pub registered : TreeMap SealedSegment → List ℕ → List SealedSegment
  registered all [] = []
  registered all (id ∷ ids) = elim (lookup id all) [
    | none ↦ registered all ids
    | some s ↦ s ∷ registered all ids
  ]

  -- The loops of `compact`: its points in the order of their segments, their sort by id (which
  -- is stable), and the appends to the merged segment.
  abbrev pub points_of : List SealedSegment → Result (List (ℕ × List fl.F32))
  points_of [] = ok []
  points_of (s ∷ ss) =
      Sealed.iter_points s >>= (λ points. points_of ss >>= (λ rest. ok (points ++ rest)))

  abbrev pub sorted_insert : ℕ × List fl.F32 → List (ℕ × List fl.F32) → List (ℕ × List fl.F32)
  sorted_insert p [] = p ∷ []
  sorted_insert (g, v) ((h, w) ∷ rows) =
      let rest = sorted_insert (g, v) rows in
      if leb g h then (g, v) ∷ (h, w) ∷ rows else (h, w) ∷ rest

  abbrev pub sort_by_id : List (ℕ × List fl.F32) → List (ℕ × List fl.F32)
  sort_by_id [] = []
  sort_by_id (p ∷ rows) = sorted_insert p (sort_by_id rows)

  -- The loop of `gc` over the orphans.
  abbrev pub drop_orphans :
      List ℕ → List ℕ → TreeMap SealedSegment → List ℕ → TreeMap SealedSegment × List ℕ
  drop_orphans working_ids [] all dropped = (all, dropped)
  drop_orphans working_ids (sid ∷ sids) all dropped =
      let gone = not (mem sid working_ids) && is_some (lookup sid all) in
      drop_orphans working_ids sids (if gone then without sid all else all)
        (if gone then dropped ++ sid ∷ [] else dropped)
