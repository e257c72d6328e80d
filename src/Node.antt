-- ===== src/Node.antt =====
-- The node side (driver/node.go): staging, publishing and expanding volumes on the machine.
pub mod Path
pub mod Interface
pub mod Stage
pub mod Publish
pub mod Volume
pub mod Mock
pub mod Calls
pub mod Mounter
