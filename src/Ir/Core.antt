-- ===== src/Ir/Core.antt =====
-- crates/cielo-ir/src/core.rs: the core language and its arenas.
pub mod Literal
pub mod Ops
pub mod TypeRef
pub mod Expr
pub mod Stmt
pub mod Program
