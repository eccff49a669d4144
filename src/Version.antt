-- ===== src/Version.antt =====
-- crates/vecvec-core/src/version: the commit DAG and the rules for automatic commits.
pub mod Deletion
pub mod Manifest
pub mod Policy
pub mod Store
