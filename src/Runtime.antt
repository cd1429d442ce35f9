-- ===== src/Runtime.antt =====
-- crates/clew-runtime: the durable state of the Controller.
pub mod Snapshot
pub mod ControlCalls
pub mod ControlStore
pub mod Transfers
