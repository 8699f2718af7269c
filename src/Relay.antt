-- ===== src/Relay.antt =====
-- hub/internal/grpcserver: what relays agent messages between streams and handlers (pending.go,
-- logsessions.go, heartbeat_coalescer.go), and the one-time codes of hub/internal/auth/totp_cache.go.
-- An id is the list of its code points; a map is the list of its entries, one for each key.
pub mod Keys
pub mod Pending
pub mod Logs
pub mod Heartbeats
pub mod Totp
mod Examples
