-- ===== src/Examples.antt =====
-- Tests of the model on concrete inputs, and the theorems applied to them.
pub mod Toy
pub mod Registry
pub mod Catalog
pub mod Store
pub mod Transport
pub mod Sessions
pub mod Naming
pub mod Control
pub mod Wire
pub mod Proofs
pub mod Transfers
