-- ===== src/Ir/Core/Literal.antt =====
-- crates/cielo-ir/src/core.rs: `Literal`, its equality and its two hashes. The type `f64` is not
-- modelled: a record gives the operations that the compiler uses of it.
pub mod Laws
use cielo.Prelude.{ℕ, ◌≡◌, Bool, true, false, ◌&&◌, ◌||◌, List, [], ◌∷◌, ◌==◌, if◌then◌else◌}
use cielo.Prelude.Classes.{Text, text_beq}
use cielo.Prelude.Int.{ℤ, eqb_ℤ}

-- The operations of `f64`.
pub record FloatOps : Type 1 where
  pub F : Type 0
  pub is_finite : F → Bool
  pub is_nan : F → Bool
  pub to_bits : F → ℕ
  pub float_eq : F → F → Bool
  pub float_lt : F → F → Bool
  pub float_le : F → F → Bool
  pub float_neg : F → F
  pub float_add : F → F → F
  pub float_sub : F → F → F
  pub float_mul : F → F → F
  pub float_div : F → F → F
  pub float_zero : F
  pub float_nan : F

pub data Literal (F : Type 0) : Type 0 where
  unit : Literal F
  bool : Bool → Literal F
  int : ℤ → Literal F
  float : F → Literal F
  char : ℕ → Literal F
  string : Text → Literal F

abbrev pub bool_beq : Bool → Bool → Bool
bool_beq true b = b
bool_beq false true = false
bool_beq false false = true

-- what is fed to a hasher
pub data Feed : Type 0 where
  tag bits chr : ℕ → Feed
  flag : Bool → Feed
  num : ℤ → Feed
  text : Text → Feed

module _ (ops : FloatOps) where
  open ops use {F, is_nan, to_bits, float_eq, float_zero, float_nan}

  -- the arm for two floats of `eq`
  unfoldable pub float_literal_eq : F → F → Bool
  float_literal_eq lhs rhs =
      if is_nan lhs || is_nan rhs then is_nan lhs && is_nan rhs else float_eq lhs rhs

  unfoldable pub literal_eq : Literal F → Literal F → Bool
  unfolding float_literal_eq
  literal_eq unit unit = true
  literal_eq (bool lhs) (bool rhs) = bool_beq lhs rhs
  literal_eq (int lhs) (int rhs) = eqb_ℤ lhs rhs
  literal_eq (float lhs) (float rhs) = float_literal_eq lhs rhs
  literal_eq (char lhs) (char rhs) = lhs == rhs
  literal_eq (string lhs) (string rhs) = text_beq lhs rhs
  literal_eq _ _ = false

  unfoldable pub hash_structural : Literal F → List Feed
  hash_structural unit = tag 0 ∷ []
  hash_structural (bool value) = tag 1 ∷ flag value ∷ []
  hash_structural (int value) = tag 2 ∷ num value ∷ []
  hash_structural (float value) = tag 3 ∷ bits (to_bits value) ∷ []
  hash_structural (char value) = tag 4 ∷ chr value ∷ []
  hash_structural (string value) = tag 5 ∷ text value ∷ []

  -- the bits that `Hash` takes of a float
  unfoldable pub normalized_bits : F → ℕ
  normalized_bits value =
      if is_nan value
      then to_bits float_nan
      else if float_eq value float_zero
      then to_bits float_zero
      else to_bits value

  -- `mem::discriminant` is a parameter: it tells the variants apart.
  unfoldable pub hash : (Literal F → ℕ) → Literal F → List Feed
  unfolding normalized_bits
  hash discriminant unit = tag (discriminant unit) ∷ []
  hash discriminant (bool value) = tag (discriminant (bool value)) ∷ flag value ∷ []
  hash discriminant (int value) = tag (discriminant (int value)) ∷ num value ∷ []
  hash discriminant (float value) =
      tag (discriminant (float value)) ∷ bits (normalized_bits value) ∷ []
  hash discriminant (char value) = tag (discriminant (char value)) ∷ chr value ∷ []
  hash discriminant (string value) = tag (discriminant (string value)) ∷ text value ∷ []
