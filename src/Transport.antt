-- ===== src/Transport.antt =====
-- crates/clew-transport: file transfers that resume, and the leases of connectors.
pub mod FileResume
pub mod FileTransfer
pub mod Inner
pub mod Lease
