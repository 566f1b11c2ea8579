-- ===== src/Hash.antt =====
-- The chained hash table of src/hash.c, by its parts.
pub mod Types
pub mod Chain
pub mod Iterate
pub mod Ops
pub mod Table
pub mod Resize
pub mod Methods
pub mod Lookups
pub mod Lifecycle
pub mod Buckets
pub mod Export
pub mod Weight
