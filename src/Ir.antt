-- ===== src/Ir.antt =====
-- crates/cielo-ir: the intermediate representations.
pub mod Effect
pub mod Ownership
pub mod Target
pub mod Builtins
pub mod Core
pub mod Region
pub mod Cfg
pub mod Walk
pub mod FunctionGraph
