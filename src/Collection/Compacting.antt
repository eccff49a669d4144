-- ===== src/Collection/Compacting.antt =====
-- Merging the live segments: `compact` of crates/vecvec-core/src/collection.rs.
use vecvec.Segment.Rows.{Rows}
use vecvec.Segment.Appendable
use vecvec.Segment.Appendable.{AppendableSegment}
use vecvec.Collection.State.{Collection}
