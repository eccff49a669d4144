-- ===== src/Segment.antt =====
-- crates/vecvec-core/src/segment: the segments that hold a collection's rows.
pub mod IdMap
pub mod Rows
pub mod Listing
pub mod Sealed
pub mod Appendable
pub mod Filled
