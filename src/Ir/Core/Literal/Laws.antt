-- ===== src/Ir/Core/Literal/Laws.antt =====
-- crates/cielo-ir/src/core.rs: the equality of literals and the two hashes together.
use cielo.Prelude.{ℕ, ◌≡◌, refl, ap, ◌↔◌, ◌⊎◌, Bool, true, false, arith, ==_iff}
use cielo.Prelude.Classes.{text_beq_iff}
use cielo.Prelude.Int.{ℤ, eqb_ℤ, eq_of_parts}
use cielo.Ir.Core.Literal.{
  FloatOps, Literal, unit, bool, int, float, char, string, bool_beq, literal_eq, float_literal_eq,
  hash_structural, hash, normalized_bits,
}

-- What IEEE 754 says of `==`: away from NaN it is an equivalence, and equal numbers are both zero or
-- have the same bits.
pub record IsIeee (ops : FloatOps) : Type 0 where
  pub eq_refl : (x : ops.F) → ops.is_nan x ≡ false → ops.float_eq x x ≡ true
  pub eq_symm : (x y : ops.F) → ops.float_eq x y ≡ true → ops.float_eq y x ≡ true
  pub eq_trans :
      (x y z : ops.F) → ops.float_eq x y ≡ true → ops.float_eq y z ≡ true → ops.float_eq x z ≡ true
  pub eq_bits :
      (x y : ops.F)
      → ops.float_eq x y ≡ true
      → (ops.to_bits x ≡ ops.to_bits y) ⊎ (ops.float_eq x ops.float_zero ≡ true)

bool_beq_iff : (a b : Bool) → (bool_beq a b ≡ true) ↔ (a ≡ b)
bool_beq_iff a b = ground arith

eqb_ℤ_iff : (a b : ℤ) → (eqb_ℤ a b ≡ true) ↔ (a ≡ b)
eqb_ℤ_iff a b = ground (arith, eq_of_parts a b)

module _ (ops : FloatOps) (ieee : IsIeee ops) where
  open ops use {F, is_nan, to_bits, float_eq, float_zero}
  open ieee use {eq_refl, eq_symm, eq_trans, eq_bits}

  -- A literal equals itself, NaN included.
  pub literal_eq_refl : (a : Literal F) → literal_eq ops a a ≡ true
  unfolding literal_eq
  literal_eq_refl unit = refl
  literal_eq_refl (bool v) = ground arith
  literal_eq_refl (int v) = ground arith
  literal_eq_refl (float v) = ground (arith, eq_refl v)
  literal_eq_refl (char v) = ground arith
  literal_eq_refl (string v) = (text_beq_iff v v).1 refl

  pub literal_eq_symm : (a b : Literal F) → literal_eq ops a b ≡ true → literal_eq ops b a ≡ true
  unfolding literal_eq
  literal_eq_symm unit unit h = refl
  literal_eq_symm (bool v) (bool w) h = ground arith
  literal_eq_symm (int v) (int w) h = ground arith
  literal_eq_symm (float v) (float w) h = ground (arith, eq_symm v w)
  literal_eq_symm (char v) (char w) h = ground arith
  literal_eq_symm (string v) (string w) h = ground (arith, text_beq_iff v w, text_beq_iff w v)
  literal_eq_symm _ _ h = cc

  float_literal_eq_trans :
      (x y z : F)
      → float_literal_eq ops x y ≡ true
      → float_literal_eq ops y z ≡ true
      → float_literal_eq ops x z ≡ true
  unfolding float_literal_eq
  float_literal_eq_trans x y z h k = ground (arith, eq_trans x y z)

  -- Where floats compare as IEEE 754 says, two literals that equal a third in turn are equal.
  pub literal_eq_trans :
      (a b c : Literal F)
      → literal_eq ops a b ≡ true
      → literal_eq ops b c ≡ true
      → literal_eq ops a c ≡ true
  unfolding literal_eq
  literal_eq_trans unit unit c h k = k
  literal_eq_trans (bool u) (bool v) (bool w) h k = ground arith
  literal_eq_trans (int u) (int v) (int w) h k = ground arith
  literal_eq_trans (float u) (float v) (float w) h k = float_literal_eq_trans u v w h k
  literal_eq_trans (char u) (char v) (char w) h k = ground arith
  literal_eq_trans (string u) (string v) (string w) h k =
      ground (arith, text_beq_iff u v, text_beq_iff v w, text_beq_iff u w)
  literal_eq_trans _ _ _ h k = cc

  normalized_bits_eq :
      (x y : F) → float_literal_eq ops x y ≡ true → normalized_bits ops x ≡ normalized_bits ops y
  unfolding float_literal_eq normalized_bits
  normalized_bits_eq x y h =
      ground (arith, eq_bits x y, eq_symm x y, eq_trans x y float_zero, eq_trans y x float_zero)

  -- Where floats compare as IEEE 754 says, equal literals feed a hasher the same, as `Hash` has to
  -- beside `Eq`, for any discriminant that is one for all floats.
  pub hash_eq :
      (discriminant : Literal F → ℕ)
      → ((x y : F) → discriminant (float x) ≡ discriminant (float y))
      → (a b : Literal F) → literal_eq ops a b ≡ true
      → hash ops discriminant a ≡ hash ops discriminant b
  unfolding literal_eq hash
  hash_eq d same unit unit h = refl
  hash_eq d same (bool v) (bool w) h = cc ((bool_beq_iff v w).0 h)
  hash_eq d same (int v) (int w) h = cc ((eqb_ℤ_iff v w).0 h)
  hash_eq d same (float v) (float w) h = cc (same v w, normalized_bits_eq v w h)
  hash_eq d same (char v) (char w) h = cc ((==_iff v w).0 h)
  hash_eq d same (string v) (string w) h = cc ((text_beq_iff v w).0 h)
  hash_eq d same _ _ h = cc

-- The structural hash feeds different sequences for different literals, where the bits of a float
-- determine it.
pub hash_structural-injective :
    (ops : FloatOps)
    → ((x y : ops.F) → ops.to_bits x ≡ ops.to_bits y → x ≡ y)
    → (a b : Literal ops.F) → hash_structural ops a ≡ hash_structural ops b
    → a ≡ b
unfolding hash_structural
hash_structural-injective ops from_bits unit unit h = refl
hash_structural-injective ops from_bits (bool v) (bool w) h = cc
hash_structural-injective ops from_bits (int v) (int w) h = cc
hash_structural-injective ops from_bits (float v) (float w) h =
    ap float (from_bits v w (ground arith))
hash_structural-injective ops from_bits (char v) (char w) h = cc
hash_structural-injective ops from_bits (string v) (string w) h = cc
hash_structural-injective ops from_bits _ _ h = ground arith
