-- ===== src/Chroot.antt =====
-- The privileged chroot helper.
pub mod Split
pub mod System
pub mod Run
pub mod Leads
pub mod Confined
pub mod Executed
pub mod ResolvConf
pub mod Started
pub mod Merged
pub mod RunTests
pub mod Tests
