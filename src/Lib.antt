-- ===== src/Lib.antt =====
-- Veyport is a hub that holds accounts, sessions and the connections of agents, and agents that run
-- work on servers. This library models the parts that decide: who may sign in, whose session is live,
-- what the store writes, which work an agent connection may carry, and what an agent admits.
--
-- Parts, and how they interact. The policy of hub/internal/lockout is loaded from settings and read by
-- the status of an account (hub/internal/account), by the verdict on a session (hub/internal/session)
-- and by the store. The store (hub/internal/store) records sign-ins, sessions, activity and refresh
-- rotations under these rules. The registry of hub/internal/connmgr admits work on the connections of
-- agents and excludes it from maintenance. On the agent, agent/internal/sessionlimit bounds work, and
-- the upload area of agent/internal/dropzone runs under that budget. The registries of
-- hub/internal/grpcserver carry the responses of agents to the handlers that wait for them. Two of them
-- hold sessions: a terminal shell is registered, attached to the stream of an agent, and ended together
-- with its authorization, its operator session or its connection, unless maintenance refuses it; an
-- execution is bound to a prepared command and a transport, and then dispatched. On the agent, the launch
-- journal keeps which executions were claimed. The policy of hub/internal/authorization says which
-- executions need a protected submission, where interactive access is refused, and whose approvals count
-- for a change of that policy. Releases are ordered by proto/updateutil.
--
-- Files and code:
--   Base            numbers, lists as tables, int64 instants and durations, strings as codes
--   Lockout/Policy  hub/internal/lockout/lockout.go: Policy, Default, Load, Validate
--   Lockout/State   the same file: State, IsLocked, NextState
--   Account         hub/internal/account/account.go: Status, Input, IsDormant, Evaluate, Refusal
--   Session         hub/internal/session/session.go: State, Verdict, Evaluate, IdleDeadline, Message
--   Store/Rows      the sessions and users tables, and the store's time stamps
--   Store/Sessions  hub/internal/store/sessions.go: create, touch, end, end all of a user, prune
--   Store/Users     hub/internal/store/lifecycle.go and lockout.go: disable, enable, unlock, sign-ins
--   Store/Users/Management
--                   hub/internal/store/account_lifecycle_audited.go: role changes and deletions
--   Store/Refresh   hub/internal/store/session_refresh.go: RotateSessionRefresh
--   ConnMgr/Manager, Activities, Uncertainty, Connections
--                   hub/internal/connmgr/connmgr.go and activities.go: ConnManager and AgentConn,
--                   activities, uncertainty, the generations of a connection, and maintenance
--   ConnMgr/Bookkeeping, Steps
--                   the invariant of the registry, operation by operation and over all sequences
--   ConnMgr/Exclusion, Lifetimes
--                   maintenance against work; completion, abandonment and the loss of a connection
--   Agent/Budget    agent/internal/sessionlimit/budget.go
--   Agent/Dropzone  agent/internal/dropzone/dropzone.go; Names, Uploads, Runs and Transfer hold proofs
--   Relay/Pending, Logs, Heartbeats
--                   hub/internal/grpcserver/pending.go, logsessions.go, heartbeat_coalescer.go
--   Relay/Totp      hub/internal/auth/totp_cache.go
--   Terminal/Shells, Admission, Delivery, Ending, Interactive
--                   hub/internal/grpcserver/terminalsessions.go and interactive_terminal.go
--   Terminal/Later, Books, Quiet, Traffic, Steps, Revocation, Runs, Exclusion, Sending, Servers, Policy
--                   the invariant of that registry over all sequences, and what follows from it
--   Execution/Messages, Lifecycle, Sessions
--                   hub/internal/grpcserver/exec_sessions.go; Runs, Once and Generations hold proofs
--   Authorization/Directory, Coverage, Changes, Quorum
--                   hub/internal/authorization/authorization.go and hub/internal/model/security.go;
--                   Independence, Powers and Limits hold proofs
--   Launch/Journal  agent/internal/execution/journal.go; Steps, Claims and Recall hold proofs
--   Update/Version  proto/updateutil/version.go
-- A Go function in camel case is the definition of the same words in snake case. A function whose name
-- ends in Locked loses that word, and one whose test is a helper here has the helper beside it.
--
-- An instant is a whole number of nanoseconds and a duration an int64 of them, with the wrap-around
-- of Go's arithmetic and the saturation of Time.Sub written out. A table is the list of its rows
-- and a statement an update of the rows that pass its WHERE clause; a transaction is one step. A
-- map is the function that reads it, or a list of entries where its length is read. Mutexes and
-- goroutines appear as sequences of steps in any order: a method that holds its lock is one step.
-- System calls, the transport of a message and the callbacks of a caller are arguments that may
-- answer either way; so are the decoding of JSON and the digests. A registered shell is known by
-- the number of its allocation and is kept, as removed, after it left the map of the code. A
-- message that the code sends on a goroutine of its own is sent with the operation. Of a file of
-- the launch journal the model keeps the record that its content decodes to, if any.
--
-- Recursion is structural but for Register, whose loop takes a number of rounds. Undisturbed, it needs
-- at most three: one that clears another retiring generation, one that detaches the installed one, and
-- one that installs.
--
-- Not modelled: failures of the database, its triggers but for the one that keeps roles, TLS, gRPC
-- and HTTP themselves, the pseudo terminals and the processes of an agent, the manager that starts
-- those, the audit chain, the certificate authorities, notifications, the command line and the web
-- front end.
pub mod Base
pub mod Lockout
pub mod Account
pub mod Session
pub mod Store
pub mod ConnMgr
pub mod Agent
pub mod Relay
pub mod Terminal
pub mod Execution
pub mod Launch
pub mod Authorization
pub mod Update
