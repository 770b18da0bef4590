-- ===== src/Ir/Cfg.antt =====
-- crates/cielo-ir/src/cfg.rs: the control-flow graph in block form.
pub mod Expr
pub mod Instruction
pub mod Terminator
pub mod Program
pub mod Validate
