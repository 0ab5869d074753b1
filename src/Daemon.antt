-- ===== src/Daemon.antt =====
-- The daemon that serves the roots of images.
pub mod Materialize
pub mod Cleaned
pub mod Removed
pub mod Connection
pub mod Answered
pub mod Served
pub mod Whole
pub mod Start
pub mod Started
pub mod Accepting
pub mod Socket
pub mod Running
pub mod Tests
mod ServedTests
mod StartTests
mod AcceptTests
