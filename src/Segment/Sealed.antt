-- ===== src/Segment/Sealed.antt =====
-- Sealed segments and sets of them, crates/vecvec-core/src/segment/sealed.rs and set.rs. Of the
-- index a segment keeps what these functions read, the vectors and the configuration; the graph
-- that `search` walks is left out.
use vecvec.Prelude.{ℕ, ◌+◌, ◌%◌, ◌^◌, Bool, Option, List, [], ◌∷◌, ◌++◌, is_some}
use vecvec.Error.{Result}
use vecvec.Distance.{Floats}
use vecvec.Vector.{VectorStorage}
use vecvec.Segment.IdMap.{IdMap, to_local}
use vecvec.Segment.Rows.{vector_at, points_from, range_of}

-- `HnswConfig`
pub record HnswConfig : Type 0 where
  pub m : ℕ
  pub m_max0 : ℕ
  pub ef_construction : ℕ
  pub ef_search : ℕ
  pub seed : ℕ
  pub keep_pruned : Bool
  pub quantization : Bool

module _ ⦃fl : Floats⦄ where
  -- `HnswIndex`
  pub record HnswIndex : Type 0 where
    pub vectors : VectorStorage
    pub config : HnswConfig

  -- `SealedSegment`
  pub record SealedSegment : Type 0 where
    pub id : ℕ
    pub index : HnswIndex
    pub ids : IdMap

  abbrev pub from_index : ℕ → HnswIndex → IdMap → SealedSegment
  from_index id index ids = record { id = id; index = index; ids = ids }

  -- `len`, which is the index's `capacity`
  abbrev pub len : SealedSegment → ℕ
  len s = s.index.vectors.count

  unfoldable pub contains : ℕ → SealedSegment → Bool
  contains global s = is_some (to_local global s.ids)

  unfoldable pub vector_of : ℕ → SealedSegment → Result (Option (List fl.F32))
  vector_of global s = vector_at global s.index.vectors s.ids

  unfoldable pub iter_points : SealedSegment → Result (List (ℕ × List fl.F32))
  iter_points s = points_from (len s % 2 ^ 32) 0 s.index.vectors s.ids

  unfoldable pub global_id_range : SealedSegment → Option (ℕ × ℕ)
  global_id_range s = range_of s.ids.local_to_global

  -- `SegmentSet`
  pub record SegmentSet : Type 0 where
    pub sealed : List SealedSegment

  abbrev pub empty : SegmentSet
  empty = record { sealed = [] }

  abbrev pub from_sealed : List SealedSegment → SegmentSet
  from_sealed sealed = record { sealed = sealed }

  abbrev pub sum_len : List SealedSegment → ℕ
  sum_len [] = 0
  sum_len (s ∷ ss) = len s + sum_len ss

  unfoldable pub total_rows : SegmentSet → ℕ
  total_rows set = sum_len set.sealed

  unfoldable pub with_appended : SealedSegment → SegmentSet → SegmentSet
  with_appended segment set = record { sealed = set.sealed ++ segment ∷ [] }
