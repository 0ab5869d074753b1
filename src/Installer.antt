-- ===== src/Installer.antt =====
-- The program that installs the chroot helpers (cmd/bb_chroot_helper_installer).
pub mod Install
pub mod Marked
pub mod Seen
mod Tests
