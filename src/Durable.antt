-- ===== src/Durable.antt =====
-- crates/vecvec-core/src/durable.rs
pub mod Trigger
pub mod Disk
pub mod State
pub mod Write
pub mod Read
pub mod Replay
pub mod Saved
pub mod Standing
pub mod Opening
pub mod Files
pub mod Safe
pub mod Versions
pub mod Listed
pub mod Switch
pub mod Checkpoint
pub mod Logging
pub mod Records
pub mod Batch
pub mod Recovery
pub mod History
pub mod Survival
pub mod Cut
pub mod Reclaim
pub mod Fresh
