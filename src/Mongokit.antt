-- ===== src/Mongokit.antt =====
-- The package mongokit: the query, update and projection algorithms.
pub mod Process
pub mod Match
pub mod Query
pub mod Filter
pub mod Find
pub mod Project
pub mod Resolve
pub mod Apply
pub mod Distinct
pub mod Extract
pub mod Index
pub mod Collection
