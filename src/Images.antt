-- ===== src/Images.antt =====
-- The upload of an image to the content addressable storage.
pub mod Uploader
pub mod Extracted
pub mod Uploaded
pub mod Tests
