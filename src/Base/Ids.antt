-- ===== src/Base/Ids.antt =====
-- crates/cielo-base/src/ids.rs: ids are indices that fit 32 bits.
use cielo.Prelude.{
  ℕ, ◌+◌, min, ◌-◌, ◌^◌, ◌<◌, ◌≡◌, Bool, not, Option, none, some, arith, leb, ◌==◌, if◌then◌else◌,
}

-- `u32::MAX`
abbrev pub u32_max : ℕ
u32_max = 2 ^ 32 - 1

-- `u32::saturating_add`
abbrev pub saturating_add : ℕ → ℕ → ℕ
saturating_add a b = min (a + b) u32_max

-- `$name::INVALID`
abbrev pub invalid : ℕ
invalid = u32_max

-- `none` is the failed assertion.
unfoldable pub new : ℕ → Option ℕ
new index = if leb index u32_max then some index else none

unfoldable pub is_valid : ℕ → Bool
is_valid id = not (id == invalid)

pub new-eq_of_lt : (index : ℕ) → index < 2 ^ 32 → new index ≡ some index
unfolding new
new-eq_of_lt index h = ground arith

pub lt_of_new : (index : ℕ) {id : ℕ} → new index ≡ some id → (id ≡ index) × (index < 2 ^ 32)
unfolding new
lt_of_new index h = ground arith
