-- ===== src/Index.antt =====
-- Exact top-k search, crates/vecvec-core/src/index/mod.rs.
pub mod Deleted
pub mod Order
pub mod TopK
pub mod Scan
pub mod Results
