-- ===== src/Update.antt =====
-- proto/updateutil/version.go: reading and ordering the versions of releases.
pub mod Version
mod Examples
