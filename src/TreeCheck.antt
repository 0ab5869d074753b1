-- ===== src/TreeCheck.antt =====
-- pkg/blobstore/dir_tree_verifier.go: the check that all of a directory tree is in storage.
pub mod Verifier
pub mod Present
pub mod Fuel
mod Tests
