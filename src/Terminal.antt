-- ===== src/Terminal.antt =====
-- hub/internal/grpcserver: the hub's registry of terminal shells and prepared executions
-- (terminalsessions.go) and its interactive shells (interactive_terminal.go). A method is one step
-- for each time that it takes the registry's mutex.
pub mod Shells
pub mod Admission
pub mod Delivery
pub mod Ending
pub mod Interactive
pub mod Later
pub mod Books
pub mod Quiet
pub mod Traffic
pub mod Steps
pub mod Revocation
pub mod Runs
pub mod Exclusion
pub mod Sending
pub mod Servers
pub mod Policy
mod Examples
