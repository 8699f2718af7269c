-- ===== src/Execution.antt =====
-- hub/internal/grpcserver/exec_sessions.go: prepared executions, their one-use attachment, their
-- dispatch and their input. A method that holds the mutex of its session is one step; the instants
-- are nanoseconds since the epoch, and what an agent, a stream or a random source does is an argument.
pub mod Messages
pub mod Lifecycle
pub mod Runs
pub mod Once
pub mod Sessions
pub mod Generations
mod Examples
