-- ===== src/Ephemeral.antt =====
-- The storage in a directory (pkg/ephemeralcas).
pub mod BlobAccess
pub mod Refined
pub mod Answers
mod Tests
