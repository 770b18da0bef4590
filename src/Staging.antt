-- ===== src/Staging.antt =====
-- crates/cielo-staging: the passes that run before code is generated.
pub mod Ints
pub mod Eval
pub mod CtCache
pub mod ConstantTable
