-- ===== src/Collection.antt =====
-- crates/vecvec-core/src/collection.rs: the segments, tombstones, payloads and versions of a
-- collection, with its operations one at a time, as each holds its locks.
pub mod State
pub mod Loops
pub mod Write
pub mod Read
pub mod Shapes
pub mod Sound
pub mod Steps
pub mod Compacting
pub mod Collecting
pub mod Effects
pub mod Travel
pub mod Registry
pub mod Contents
pub mod Keeping
pub mod Search
pub mod Found
pub mod Tidy
