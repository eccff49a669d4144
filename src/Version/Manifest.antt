-- ===== src/Version/Manifest.antt =====
-- Version manifests, crates/vecvec-core/src/version/manifest.rs.
use vecvec.Prelude.{ℕ, ◌+◌, ◌-◌, String, Option, List, [], ◌∷◌, map}
use vecvec.Version.Deletion
use vecvec.Version.Deletion.{Treemap, DeletionVector}

-- `SegmentRef`
pub record SegmentRef : Type 0 where
  pub id : ℕ
  pub id_lo : ℕ
  pub id_hi : ℕ
  pub count : ℕ

module _ ⦃tm : Treemap⦄ where
  -- `Manifest`
  pub record Manifest : Type 0 where
    pub version : ℕ
    pub parent : Option ℕ
    pub created_at_ms : ℕ
    pub trigger : String
    pub message : Option String
    pub segments : List SegmentRef
    pub deletions : DeletionVector

  -- `segment_ids`
  abbrev pub segment_ids : Manifest → List ℕ
  segment_ids m = map (λ (s : SegmentRef). s.id) m.segments

  abbrev pub total_count : List SegmentRef → ℕ
  total_count [] = 0
  total_count (s ∷ ss) = s.count + total_count ss

  -- `live_count`; the subtraction saturates.
  unfoldable pub live_count : Manifest → ℕ
  live_count m = total_count m.segments - Deletion.len m.deletions
