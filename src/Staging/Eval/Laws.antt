-- ===== src/Staging/Eval/Laws.antt =====
-- crates/cielo-staging/src/passes/ct_common.rs: the operands, the result and the flag of evaluation.
use cielo.Prelude.{
  ◌≡◌, refl, ap, ap₂, subst, not, ◌&&◌, Bool, true, false, Option, none, some, if◌then◌else◌, ◌>>=◌,
  inl, inr, Option-cases, Bool-cases,
}
use cielo.Prelude.Int.{ℤ, ltb_ℤ, leb_ℤ, eqb_ℤ}
use cielo.Ir.Target.{TargetSpec}
use cielo.Ir.Core.Ops.{BinaryOp, OpCategory, arithmetic, comparison, equality, logical, category}
use cielo.Ir.Core.Literal.{FloatOps, Literal, unit, bool, int, float, char, string}
use cielo.Staging.Ints.{normalize_int}
use cielo.Staging.Ints.Narrow.{normalize_int_idem}
use cielo.Staging.Eval.{
  eval_cmp, eval_eq, int_op, eval_int_arith, normalize_literal, float_op, eval_float_arith,
  eval_logical, eval_category, eval_binary,
}

abbrev pub is_float : {F : Type 0} → Literal F → Bool
is_float (float v) = true
is_float _ = false

module _ (ops : FloatOps) (target : TargetSpec) where
  open ops use {F}

  eval_category_normalized :
      (c : OpCategory) (op : BinaryOp) (a b : Literal F)
      → eval_category ops c op (normalize_literal a target) (normalize_literal b target) target
        ≡ eval_category ops c op a b target
  unfolding eval_category normalize_literal eval_int_arith
  eval_category_normalized arithmetic op (int a) (int b) =
      ap₂
        (λ (x y : ℤ).
          int_op op x y >>= λ value. some (int (normalize_int value target.word_size_bits), false))
        (normalize_int_idem target.word_size_bits a) (normalize_int_idem target.word_size_bits b)
  eval_category_normalized comparison op (int a) (int b) =
      ap₂ (λ (x y : ℤ). eval_cmp ltb_ℤ leb_ℤ op x y false)
        (normalize_int_idem target.word_size_bits a) (normalize_int_idem target.word_size_bits b)
  eval_category_normalized equality op (int a) (int b) =
      ap₂ (λ (x y : ℤ). eval_eq eqb_ℤ op x y false) (normalize_int_idem target.word_size_bits a)
        (normalize_int_idem target.word_size_bits b)
  eval_category_normalized logical op (int a) (int b) = refl
  eval_category_normalized c op a (int b) = refl
  eval_category_normalized c op (int a) b = refl
  eval_category_normalized c op a b = refl

  -- An integer operand enters by its narrowed value only: narrowing the operands first does not change
  -- the result of a binary operator, nor whether it has one, nor its flag.
  pub eval_binary_normalized :
      (op : BinaryOp) (a b : Literal F)
      → eval_binary ops op (normalize_literal a target) (normalize_literal b target) target
        ≡ eval_binary ops op a b target
  unfolding eval_binary
  eval_binary_normalized op a b = eval_category_normalized (category op) op a b

  -- A result whose flag is as given, and whose value is narrowed.
  abbrev Tells : Bool → Option (Literal F × Bool) → Type 0
  Tells used r =
      (v : Literal F) (flag : Bool)
      → r ≡ some (v, flag)
      → (flag ≡ used) × (normalize_literal v target ≡ v)

  some-Tells :
      (used : Bool) (w : Literal F) → normalize_literal w target ≡ w → Tells used (some (w, used))
  some-Tells used w n v flag h =
      let same : w ≡ v = cc h in
      (cc h, subst (λ (x : Literal F). normalize_literal x target ≡ x) same n)

  none-Tells : (used : Bool) → Tells used none
  none-Tells used v flag h = cc

  eval_cmp-Tells :
      {A : Type 0} (less less_eq : A → A → Bool) (op : BinaryOp) (a b : A) (used : Bool)
      → Tells used (eval_cmp less less_eq op a b used)
  unfolding eval_cmp normalize_literal
  eval_cmp-Tells less less_eq BinaryOp.lt a b used = some-Tells used _ refl
  eval_cmp-Tells less less_eq BinaryOp.le a b used = some-Tells used _ refl
  eval_cmp-Tells less less_eq BinaryOp.gt a b used = some-Tells used _ refl
  eval_cmp-Tells less less_eq BinaryOp.ge a b used = some-Tells used _ refl
  eval_cmp-Tells less less_eq _ a b used = none-Tells used

  eval_eq-Tells :
      {A : Type 0} (same : A → A → Bool) (op : BinaryOp) (a b : A) (used : Bool)
      → Tells used (eval_eq same op a b used)
  unfolding eval_eq normalize_literal
  eval_eq-Tells same BinaryOp.eq a b used = some-Tells used _ refl
  eval_eq-Tells same BinaryOp.ne a b used = some-Tells used _ refl
  eval_eq-Tells same _ a b used = none-Tells used

  eval_logical-Tells : (op : BinaryOp) (a b : Bool) → Tells false (eval_logical ops op a b)
  unfolding eval_logical normalize_literal
  eval_logical-Tells BinaryOp.and a b = some-Tells false _ refl
  eval_logical-Tells BinaryOp.or a b = some-Tells false _ refl
  eval_logical-Tells _ a b = none-Tells false

  eval_int_arith-Tells : (op : BinaryOp) (a b : ℤ) → Tells false (eval_int_arith op a b target)
  unfolding eval_int_arith normalize_literal
  eval_int_arith-Tells op a b =
      let bits = target.word_size_bits in
      elim (Option-cases (int_op op (normalize_int a bits) (normalize_int b bits))) [
        | inl e ↦ rw (e, eval_int_arith) (none-Tells false)
        | inr (value, e) ↦
            rw (e, eval_int_arith)
              (some-Tells false (int (normalize_int value bits))
                (ap int (normalize_int_idem bits value)))
      ]

  if-Tells :
      (used b : Bool) (r : Option (Literal F × Bool))
      → Tells used r
      → Tells used (if b then r else none)
  if-Tells used true r t = t
  if-Tells used false r t = none-Tells used

  eval_float_arith-Tells : (op : BinaryOp) (a b : F) → Tells true (eval_float_arith ops op a b)
  unfolding eval_float_arith normalize_literal
  eval_float_arith-Tells op a b = elim (Bool-cases (not (ops.is_finite a && ops.is_finite b))) [
    | inl outside ↦ rw (outside, eval_float_arith) (none-Tells true)
    | inr inside ↦ elim (Option-cases (float_op ops op a b)) [
      | inl e ↦ rw (inside, e, eval_float_arith) (none-Tells true)
      | inr (value, e) ↦
          rw (inside, e, eval_float_arith)
            (if-Tells true (ops.is_finite value) (some (float value, true))
              (some-Tells true (float value) refl))
    ]
  ]

  eval_category-Tells :
      (c : OpCategory) (op : BinaryOp) (a b : Literal F)
      → Tells (is_float a) (eval_category ops c op a b target)
  unfolding eval_category
  eval_category-Tells arithmetic op (int a) (int b) = eval_int_arith-Tells op a b
  eval_category-Tells arithmetic op (float a) (float b) = eval_float_arith-Tells op a b
  eval_category-Tells comparison op (int a) (int b) = eval_cmp-Tells ltb_ℤ leb_ℤ op _ _ false
  eval_category-Tells comparison op (float a) (float b) =
      if-Tells true _ _ (eval_cmp-Tells _ _ op a b true)
  eval_category-Tells comparison op (char a) (char b) = eval_cmp-Tells _ _ op a b false
  eval_category-Tells equality op (int a) (int b) = eval_eq-Tells eqb_ℤ op _ _ false
  eval_category-Tells equality op (bool a) (bool b) = eval_eq-Tells _ op a b false
  eval_category-Tells equality op (float a) (float b) =
      if-Tells true _ _ (eval_eq-Tells _ op a b true)
  eval_category-Tells equality op (char a) (char b) = eval_eq-Tells _ op a b false
  eval_category-Tells equality op (string a) (string b) = eval_eq-Tells _ op a b false
  eval_category-Tells equality op unit unit = eval_eq-Tells {A = Unit {0}} _ op tt tt false
  eval_category-Tells logical op (bool a) (bool b) = eval_logical-Tells op a b
  eval_category-Tells c op a b = none-Tells (is_float a)

  -- Where a binary operator has a value, the flag says whether the operands are floats, and the value
  -- is narrowed to the word of the target.
  pub eval_binary_lem :
      (op : BinaryOp) (a b v : Literal F) (flag : Bool)
      → eval_binary ops op a b target ≡ some (v, flag)
      → (flag ≡ is_float a) × (normalize_literal v target ≡ v)
  unfolding eval_binary
  eval_binary_lem op a b v flag h = eval_category-Tells (category op) op a b v flag h
