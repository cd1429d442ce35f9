-- ===== src/Identity.antt =====
-- crates/clew-identity: grants, keys, the passes of Sites, and the registry of enrolled Devices.
pub mod Grant
pub mod Keys
pub mod Bootstrap
pub mod Records
pub mod Registry
