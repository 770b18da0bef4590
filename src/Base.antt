-- ===== src/Base.antt =====
-- crates/cielo-base: the vocabulary below every phase of the compiler.
pub mod DenseMap
pub mod Ids
pub mod Span
pub mod Diagnostics
pub mod Interner
pub mod Fixpoint
