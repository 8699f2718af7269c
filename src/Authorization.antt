-- ===== src/Authorization.antt =====
-- hub/internal/authorization/authorization.go: live capabilities, the policy of an execution, typed
-- security changes, and the quorum that approves one; with the types of hub/internal/model/security.go.
-- Ids and texts are lists of code points. What the store reads is a directory, an argument.
pub mod Directory
pub mod Coverage
pub mod Changes
pub mod Quorum
pub mod Independence
pub mod Powers
pub mod Limits
mod Examples
