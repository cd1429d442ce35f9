-- ===== src/Core.antt =====
-- crates/clew-core: the records of Sites and Devices, and the rules that the other crates share.
pub mod Device
pub mod Error
pub mod Policy
pub mod Catalog
pub mod State
pub mod Selection
pub mod Naming
