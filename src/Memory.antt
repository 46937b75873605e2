-- ===== src/Memory.antt =====
-- The memory head (internal/memory): records, queries, the plane, and the in-memory provider.
pub mod Types
pub mod Sorting
pub mod InsertionSort
pub mod InMemory
pub mod Plane
pub mod Tdb
mod Examples
