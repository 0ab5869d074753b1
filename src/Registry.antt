-- ===== src/Registry.antt =====
-- Images of a registry: references, pulling them, and the archives of their layers.
pub mod References
pub mod Puller
pub mod Archive
pub mod Digests
pub mod Sizes
mod Tests
