-- ===== src/Runtime.antt =====
-- crates/cielo-runtime: lowering to the control-flow graph.
pub mod Region
