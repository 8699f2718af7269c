-- ===== src/Lockout.antt =====
-- hub/internal/lockout/lockout.go: the login lockout policy, its loading and validation, and the
-- transition of an account's lockout state after one failed credential check. Every function of the
-- package is pure; `error` is none for nil. A policy's integers are Go ints (int64).
pub mod Policy
pub mod State
mod Examples
