-- ===== src/Memory.antt =====
-- crates/cielo-memory: reference counting over the control-flow graph.
pub mod Verify
pub mod Liveness
pub mod Managed
