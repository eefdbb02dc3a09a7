-- ===== src/Tests.antt =====
-- Concrete runs: the theorems applied to known hosts, and to connections.
mod Records
mod Store
mod Keystore
mod Backup
mod HostKeys
mod Policy
mod Network
mod Config
mod Session
mod Ppk
mod Clients
