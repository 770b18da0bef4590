-- ===== src/Ir/Target.antt =====
-- crates/cielo-ir/src/target.rs: facts of the target.
use cielo.Prelude.{ℕ}

pub data Endianness : Type 0 where
  little big : Endianness

pub record TargetSpec : Type 0 where
  pub word_size_bits : ℕ
  pub endianness : Endianness
  pub pointer_alignment : ℕ

-- the default on a host of the given byte order
abbrev pub default_target : Endianness → TargetSpec
default_target host = record { word_size_bits = 64; endianness = host; pointer_alignment = 8 }
