-- ===== src/Persist.antt =====
-- crates/vecvec-core/src/persist: framed files and the write-ahead log.
pub mod Atomic
pub mod Wal
