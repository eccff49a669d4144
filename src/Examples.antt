-- ===== src/Examples.antt =====
-- Runs at concrete inputs of the properties of this library.
mod Data
mod Persisting
mod Versioning
mod Collecting
mod Searching
mod Filtering
mod Durability
mod Graphs
