-- ===== src/Fetcher.antt =====
-- pkg/fetcher/server.go: the cache of materialized image roots of the docker root fetcher.
pub mod Options
pub mod RegistryAuth
pub mod Credentials
pub mod Server
pub mod Pins
pub mod Credit
pub mod Eviction
pub mod Validity
pub mod Install
pub mod Leases
pub mod Directories
pub mod System
mod Tests
