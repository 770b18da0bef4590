-- ===== src/Staging/Eval.antt =====
-- crates/cielo-staging/src/passes/ct_common.rs: compile-time evaluation of one operator. The result
-- comes with whether the host's floats were used.
pub mod Laws
use cielo.Prelude.{
  ℕ, ◌≡◌, Bool, true, false, not, ◌&&◌, ◌||◌, Option, none, some, ltb, leb, ◌==◌, if◌then◌else◌,
  ◌>>=◌,
}
use cielo.Prelude.Classes.{Text, text_beq}
use cielo.Prelude.Int.{ℤ, pos, ltb_ℤ, leb_ℤ, eqb_ℤ}
use cielo.Ir.Target.{TargetSpec}
use cielo.Ir.Core.Ops.{
  UnaryOp, BinaryOp, add, sub, mul, div, mod_op, eq, ne, lt, le, gt, ge, and, or, OpCategory,
  arithmetic, comparison, equality, logical, category,
}
use cielo.Ir.Core.Literal.{FloatOps, Literal, unit, bool, int, float, char, string, bool_beq}
use cielo.Staging.Ints.{
  checked_add, checked_sub, checked_mul, checked_div, checked_neg, wrapping_rem, normalize_int,
}

abbrev folded : {F : Type 0} → Literal F → Bool → Option (Literal F × Bool)
folded lit used_host_float = some (lit, used_host_float)

-- `PartialOrd` enters by its tests `<` and `<=`.
unfoldable pub eval_cmp :
    {F A : Type 0}
    → (A → A → Bool)
    → (A → A → Bool)
    → BinaryOp
    → A
    → A
    → Bool
    → Option (Literal F × Bool)
eval_cmp less less_eq lt lhs rhs used = folded (bool (less lhs rhs)) used
eval_cmp less less_eq le lhs rhs used = folded (bool (less_eq lhs rhs)) used
eval_cmp less less_eq gt lhs rhs used = folded (bool (less rhs lhs)) used
eval_cmp less less_eq ge lhs rhs used = folded (bool (less_eq rhs lhs)) used
eval_cmp less less_eq _ lhs rhs used = none

unfoldable pub eval_eq :
    {F A : Type 0} → (A → A → Bool) → BinaryOp → A → A → Bool → Option (Literal F × Bool)
eval_eq same eq lhs rhs used = folded (bool (same lhs rhs)) used
eval_eq same ne lhs rhs used = folded (bool (not (same lhs rhs))) used
eval_eq same _ lhs rhs used = none

-- the `match` of `eval_int_arith`, on operands that are narrowed
unfoldable pub int_op : BinaryOp → ℤ → ℤ → Option ℤ
int_op add lhs rhs = checked_add lhs rhs
int_op sub lhs rhs = checked_sub lhs rhs
int_op mul lhs rhs = checked_mul lhs rhs
int_op div lhs rhs = checked_div lhs rhs
int_op mod_op lhs rhs = if not (eqb_ℤ rhs (pos 0)) then some (wrapping_rem lhs rhs) else none
int_op _ lhs rhs = none

module _ {F : Type 0} where
  unfoldable pub eval_int_arith : BinaryOp → ℤ → ℤ → TargetSpec → Option (Literal F × Bool)
  unfolding int_op
  eval_int_arith op left right target =
      let bits = target.word_size_bits in
      int_op op (normalize_int left bits) (normalize_int right bits) >>= λ value.
      folded (int (normalize_int value bits)) false

  unfoldable pub normalize_literal : Literal F → TargetSpec → Literal F
  normalize_literal (int raw) target = int (normalize_int raw target.word_size_bits)
  normalize_literal literal target = literal

module _ (ops : FloatOps) where
  open ops use {
    F, is_finite, float_eq, float_lt, float_le, float_neg, float_add, float_sub, float_mul,
    float_div, float_zero,
  }

  unfoldable pub host_float_operands_supported : F → F → Bool
  host_float_operands_supported lhs rhs = is_finite lhs && is_finite rhs

  -- the `match` of `eval_float_arith`
  unfoldable pub float_op : BinaryOp → F → F → Option F
  float_op add left right = some (float_add left right)
  float_op sub left right = some (float_sub left right)
  float_op mul left right = some (float_mul left right)
  float_op div left right =
      if not (float_eq right float_zero) then some (float_div left right) else none
  float_op _ left right = none

  unfoldable pub eval_float_arith : BinaryOp → F → F → Option (Literal F × Bool)
  unfolding host_float_operands_supported float_op
  eval_float_arith op left right =
      if not (host_float_operands_supported left right)
      then none
      else (float_op op left right >>= λ value.
          if is_finite value then some (float value, true) else none)

  unfoldable pub eval_unary : UnaryOp → Literal F → TargetSpec → Option (Literal F × Bool)
  eval_unary UnaryOp.neg (int v) target =
      checked_neg v >>= λ negated. some (int (normalize_int negated target.word_size_bits), false)
  eval_unary UnaryOp.neg (float v) target =
      if is_finite v then some (float (float_neg v), true) else none
  eval_unary UnaryOp.not (bool v) target = some (bool (not v), false)
  eval_unary _ _ target = none

  -- the arm for two Booleans of the logical operators
  unfoldable pub eval_logical : BinaryOp → Bool → Bool → Option (Literal F × Bool)
  eval_logical and a b = folded (bool (a && b)) false
  eval_logical or a b = folded (bool (a || b)) false
  eval_logical _ a b = none

  -- the `match` of `eval_binary`, its arms in order
  unfoldable pub eval_category :
      OpCategory → BinaryOp → Literal F → Literal F → TargetSpec → Option (Literal F × Bool)
  unfolding eval_int_arith eval_float_arith eval_cmp eval_eq eval_logical
  eval_category arithmetic op (int a) (int b) target = eval_int_arith op a b target
  eval_category arithmetic op (float a) (float b) target = eval_float_arith op a b
  eval_category comparison op (int a) (int b) target =
      let bits = target.word_size_bits in
      eval_cmp ltb_ℤ leb_ℤ op (normalize_int a bits) (normalize_int b bits) false
  eval_category comparison op (float a) (float b) target =
      if host_float_operands_supported a b then eval_cmp float_lt float_le op a b true else none
  eval_category comparison op (char a) (char b) target = eval_cmp ltb leb op a b false
  eval_category equality op (int a) (int b) target =
      let bits = target.word_size_bits in
      eval_eq eqb_ℤ op (normalize_int a bits) (normalize_int b bits) false
  eval_category equality op (bool a) (bool b) target = eval_eq bool_beq op a b false
  eval_category equality op (float a) (float b) target =
      if host_float_operands_supported a b then eval_eq float_eq op a b true else none
  eval_category equality op (char a) (char b) target = eval_eq ◌==◌ op a b false
  eval_category equality op (string a) (string b) target = eval_eq text_beq op a b false
  eval_category equality op unit unit target = eval_eq {A = Unit {0}} (λ x y. true) op tt tt false
  eval_category logical op (bool a) (bool b) target = eval_logical op a b
  eval_category _ op left right target = none

  unfoldable pub eval_binary :
      BinaryOp → Literal F → Literal F → TargetSpec → Option (Literal F × Bool)
  unfolding eval_category category
  eval_binary op left right target = eval_category (category op) op left right target
