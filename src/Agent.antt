-- ===== src/Agent.antt =====
-- The agent plane (internal/agent): tools, the executor with its retries, and the runtime.
pub mod Tools
pub mod Executor
pub mod Runtime
mod Examples
