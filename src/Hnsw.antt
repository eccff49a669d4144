-- ===== src/Hnsw.antt =====
-- The parts of the HNSW index, crates/vecvec-core/src/index/hnsw.
pub mod Visited
pub mod Marks
pub mod Layer
pub mod Beams
pub mod GraphLayers
pub mod Searching
