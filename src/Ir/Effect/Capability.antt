-- ===== src/Ir/Effect/Capability.antt =====
-- crates/cielo-ir/src/effect.rs: `CapabilityLevel`, `EffectFlags` and `EffectProperties`.
use Prim.Native.Nat.{bit_and, bit_or}
use cielo.Prelude.{ℕ, Bool, true, false, not, ◌&&◌, ltb, ◌==◌}

pub data CapabilityLevel : Type 0 where
  pure diverge alloc local_state shared_state io ffi : CapabilityLevel

-- the derived order, by the place in the declaration
abbrev pub rank : CapabilityLevel → ℕ
rank CapabilityLevel.pure = 0
rank CapabilityLevel.diverge = 1
rank CapabilityLevel.alloc = 2
rank CapabilityLevel.local_state = 3
rank CapabilityLevel.shared_state = 4
rank CapabilityLevel.io = 5
rank CapabilityLevel.ffi = 6

abbrev pub level_lt : CapabilityLevel → CapabilityLevel → Bool
level_lt a b = ltb (rank a) (rank b)

abbrev pub is_runtime_only : CapabilityLevel → Bool
is_runtime_only CapabilityLevel.io = true
is_runtime_only CapabilityLevel.ffi = true
is_runtime_only CapabilityLevel.shared_state = true
is_runtime_only _ = false

-- An `EffectFlags` is its 16-bit pattern.
abbrev pub discardable : ℕ
discardable = 1

abbrev pub commutative : ℕ
commutative = 2

abbrev pub local_state_flag : ℕ
local_state_flag = 4

abbrev pub shared_state_flag : ℕ
shared_state_flag = 8

abbrev pub opaque_for_staging : ℕ
opaque_for_staging = 16

abbrev pub ct_only : ℕ
ct_only = 32

abbrev pub empty_flags : ℕ
empty_flags = 0

unfoldable pub contains_flags : ℕ → ℕ → Bool
contains_flags self other = bit_and self other == other

unfoldable pub bitor : ℕ → ℕ → ℕ
bitor self rhs = bit_or self rhs

pub record EffectProperties : Type 0 where
  pub level : CapabilityLevel
  pub flags : ℕ

unfoldable pub is_ct_eligible : EffectProperties → Bool
is_ct_eligible p = not (is_runtime_only p.level) && not (contains_flags p.flags opaque_for_staging)

abbrev pub default_properties : EffectProperties
default_properties = record { level = CapabilityLevel.pure; flags = empty_flags }
