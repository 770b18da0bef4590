-- ===== src/Ir/Effect.antt =====
-- crates/cielo-ir/src/effect.rs: capability levels, effect flags and effect rows.
pub mod Capability
pub mod Row
pub mod Thunk
