-- ===== src/Snapshots.antt =====
-- driver/controller_snapshots.go: snapshots are created, deleted and listed.
pub mod Source
pub mod Create
pub mod Listing
