-- ===== src/Users.antt =====
-- The build user in /etc/passwd and /etc/group of an image.
pub mod Lines
pub mod Entries
pub mod Printed
pub mod Replaced
pub mod Clean
pub mod Again
pub mod RoundTrip
pub mod Tests
