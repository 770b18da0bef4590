-- ===== src/Staging/Ints.antt =====
-- crates/cielo-staging/src/passes/ct_common.rs: `i64` with its checked operations, and the
-- narrowing to the word of the target.
pub mod Narrow
use cielo.Prelude.{
  ℕ, ◌+◌, ◌-◌, ◌*◌, ◌/◌, ◌%◌, ◌^◌, ◌≤◌, Bool, true, false, ◌&&◌, Option, none, some, leb, ltb,
  if◌then◌else◌, min, max,
}
use cielo.Prelude.Int.{ℤ, pos, negsuc, pos_part, neg_part, ◌+ℤ◌, ◌-ℤ◌, ◌*ℤ◌, div_ℤ, rem_ℤ, eqb_ℤ}

abbrev pub two63 : ℕ
two63 = 0x8000_0000_0000_0000

abbrev pub two64 : ℕ
two64 = 0x1_0000_0000_0000_0000

-- An `i64` is an integer from -2^63 to 2^63 - 1.
abbrev pub IsI64 : ℤ → Type 0
IsI64 z = (pos_part z ≤ two63 - 1) × (neg_part z ≤ two63)

-- `Some` where the exact result is an `i64`
unfoldable pub checked : ℤ → Option ℤ
checked z = if leb (pos_part z) (two63 - 1) && leb (neg_part z) two63 then some z else none

unfoldable pub checked_add : ℤ → ℤ → Option ℤ
unfolding checked
checked_add a b = checked (a +ℤ b)

unfoldable pub checked_sub : ℤ → ℤ → Option ℤ
unfolding checked
checked_sub a b = checked (a -ℤ b)

unfoldable pub checked_mul : ℤ → ℤ → Option ℤ
unfolding checked
checked_mul a b = checked (a *ℤ b)

unfoldable pub checked_div : ℤ → ℤ → Option ℤ
unfolding checked
checked_div a b = if eqb_ℤ b (pos 0) then none else checked (div_ℤ a b)

unfoldable pub checked_neg : ℤ → Option ℤ
unfolding checked
checked_neg a = checked (pos 0 -ℤ a)

-- By -1 the remainder is 0, also for the least integer.
unfoldable pub wrapping_rem : ℤ → ℤ → ℤ
wrapping_rem a b = rem_ℤ a b

-- the 64-bit pattern of an integer, and the integer of a pattern
abbrev pub to_word : ℤ → ℕ
to_word (pos n) = n % two64
to_word (negsuc n) = two64 - 1 - n % two64

abbrev pub of_word : ℕ → ℤ
of_word w = if ltb w two63 then pos w else negsuc (two64 - 1 - w)

-- `value << shift` drops the bits above the word, and `value >> shift` keeps the sign.
unfoldable pub shl : ℤ → ℕ → ℤ
shl value shift = of_word ((to_word value * 2 ^ shift) % two64)

unfoldable pub shr : ℤ → ℕ → ℤ
shr (pos n) shift = pos (n / 2 ^ shift)
shr (negsuc n) shift = negsuc (n / 2 ^ shift)

-- `word_size_bits.clamp(1, 64)`
abbrev pub clamped : ℕ → ℕ
clamped bits = max 1 (min bits 64)

unfoldable pub normalize_int : ℤ → ℕ → ℤ
unfolding shl shr
normalize_int value bits =
    if leb 64 (clamped bits) then value else shr (shl value (64 - clamped bits)) (64 - clamped bits)
