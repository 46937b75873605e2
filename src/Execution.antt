-- ===== src/Execution.antt =====
-- The execution plane (internal/execution): jobs, the queue, the delayed scheduler and the processing
-- loop.
pub mod Job
pub mod Queue
pub mod Contract
pub mod Scheduler
pub mod Dag
pub mod Plane
pub mod Graphs
mod Examples
