-- ===== src/Launch.antt =====
-- agent/internal/execution/journal.go: which executions the agent has claimed, in memory and on disk.
pub mod Journal
pub mod Steps
pub mod Claims
pub mod Recall
mod Examples
