-- ===== src/ConnMgr.antt =====
-- hub/internal/connmgr: the hub's registry of agent connections (connmgr.go) and of the work that
-- runs on them (activities.go). Every operation that holds ConnManager.mu is one step on the state;
-- the mutexes of a connection only order such steps.
pub mod Manager
pub mod Activities
pub mod Uncertainty
pub mod Connections
pub mod Bookkeeping
pub mod Steps
pub mod Exclusion
pub mod Lifetimes
mod Examples
