-- ===== src/Layers.antt =====
-- pkg/blobstore/cas_uploading_layer_extractor.go: the tree that the layers of an image build, and
-- its upload.
pub mod Tree
pub mod Paths
pub mod Events
pub mod TmpFile
pub mod Proper
pub mod HardLinks
pub mod Upload
pub mod Keeping
pub mod Stored
pub mod Lookup
mod Tests
