-- ===== src/Bsonkit.antt =====
-- The package bsonkit: values, paths, comparison, access and sets of documents.
pub mod Value
pub mod Number
pub mod Compare
pub mod Timestamp
pub mod TypeNames
pub mod Path
pub mod Access
pub mod Set
pub mod Sort
pub mod Lists
pub mod Index
pub mod Math
pub mod PathTree
