-- ===== src/Volumes.antt =====
-- driver/controller_volumes.go: volumes are created, deleted and listed.
pub mod Request
pub mod Create
pub mod Listing
