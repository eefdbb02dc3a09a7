-- ===== src/KnownHosts.antt =====
-- known_hosts files: src-tauri/src/hostkeys.rs.
pub mod Wildcard
pub mod Line
pub mod Check
pub mod Edit
pub mod Import
