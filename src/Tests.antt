-- ===== src/Tests.antt =====
-- Runs of the model at concrete inputs: each applies a theorem where its hypotheses hold.
pub mod Staging
pub mod Frontend
pub mod Effect
pub mod Core
pub mod Base
pub mod Cfg
