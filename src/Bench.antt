-- ===== src/Bench.antt =====
-- The LoCoMo benchmark of the memory plane (bench/locomo and cmd/bench-locomo).
pub mod Types
pub mod Dataset
pub mod Ingest
pub mod Query
pub mod Score
pub mod Smart
pub mod Recall
pub mod Run
mod Fixtures
mod Examples
