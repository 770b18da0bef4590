-- ===== src/Tests/Staging.antt =====
-- Runs of crates/cielo-staging/src/passes/ct_common.rs, with numbers for floats.
use cielo.Prelude.{
  ℕ, ◌≡◌, refl, ◌↔◌, ◌<◌, ◌≤◌, ◌%◌, ◌+◌, true, false, some, List, [], ◌∷◌, arith, leb, ltb, ◌==◌,
}
use cielo.Prelude.Int.{pos, negsuc, pos_part, neg_part, ◌+ℤ◌}
use cielo.Base.DenseMap
use cielo.Ir.Target.{TargetSpec, little}
use cielo.Ir.Core.Literal.{FloatOps, int}
use cielo.Ir.Core.Ops.{UnaryOp, add, mul}
use cielo.Ir.Core.Expr.{ExprNode, ExprKind, literal, unary, binary, var}
use cielo.Staging.Ints.{normalize_int, to_word, checked_add}
use cielo.Staging.Ints.Narrow.{half, normalize_int_wraps}
use cielo.Staging.Eval.{eval_binary, normalize_literal}
use cielo.Staging.Eval.Laws.{eval_binary_normalized, eval_binary_lem, is_float}
use cielo.Staging.CtCache.{
  Cache, compute_ct_cache, rebuild_branch_decisions, live_true, live_false, unknown,
}
use cielo.Staging.CtCache.Branches.{get-rebuild_branch_decisions}
use cielo.Staging.CtCache.Correct.{Evaluates, compute_ct_cache_iff}
use cielo.Staging.ConstantTable.{
  bool_key, char_key, ctor_literal, no_fields, ConstantCounts, ConstantEntry,
  finalize_constant_table, pool_scalars, pool_strings, pool_ctors, reserve_and_push,
  estimate_ctor_pool_bytes, should_pool_ctor_literal,
}
use cielo.Staging.ConstantTable.Laws.{total_bytes, IsWarranted, finalize_constant_table_lem}
use cielo.Prelude.Classes.{codes}
use cielo.Prelude.{◌≢◌, Elem, none}

abbrev pub number_ops : FloatOps
number_ops = record {
  F = ℕ;
  is_finite = λ x. true;
  is_nan = λ x. false;
  to_bits = λ x. x;
  float_eq = λ x y. x == y;
  float_lt = λ x y. ltb x y;
  float_le = λ x y. leb x y;
  float_neg = λ x. x;
  float_add = λ x y. x;
  float_sub = λ x y. x;
  float_mul = λ x y. x;
  float_div = λ x y. x;
  float_zero = 0;
  float_nan = 0;
}

abbrev narrow_target : TargetSpec
narrow_target = record { word_size_bits = 8; endianness = little; pointer_alignment = 1 }

abbrev node : ExprKind ℕ → ExprNode ℕ
node kind = record { span = record { source = 0; start = 0; end = 1 }; kind = kind }

-- 100 + -x, where x = 100 + 100 and its operands stand behind it
abbrev arena : List (ExprNode ℕ)
arena =
    node (binary add 3 1)
    ∷ node (unary UnaryOp.neg 2)
    ∷ node (binary add 3 3)
    ∷ node (literal (int (pos 100)))
    ∷ node (var 0)
    ∷ []

compute_ct_cache_iff_example :
    (DenseMap.get (compute_ct_cache number_ops narrow_target arena).0 0 ≡ some (int (negsuc 99)))
    ↔ Evaluates number_ops narrow_target arena 0 (int (negsuc 99))
compute_ct_cache_iff_example =
    compute_ct_cache_iff number_ops narrow_target arena 0 (int (negsuc 99))

eval_binary_normalized_example :
    eval_binary number_ops mul
      (normalize_literal (int (pos 300)) narrow_target)
      (normalize_literal (int (negsuc 200)) narrow_target)
      narrow_target
    ≡ eval_binary number_ops mul (int (pos 300)) (int (negsuc 200)) narrow_target
eval_binary_normalized_example =
    eval_binary_normalized number_ops narrow_target mul (int (pos 300)) (int (negsuc 200))

sum_of_words :
    eval_binary number_ops add (int (pos 100)) (int (pos 100)) narrow_target
    ≡ some (int (negsuc 55), false)
unfolding eval_binary normalize_int checked_add ◌+ℤ◌
sum_of_words = refl

eval_binary_lem_example :
    (false ≡ is_float {F = ℕ} (int (pos 100)))
    × (normalize_literal {F = ℕ} (int (negsuc 55)) narrow_target ≡ int (negsuc 55))
eval_binary_lem_example =
    eval_binary_lem number_ops narrow_target add (int (pos 100)) (int (pos 100)) (int (negsuc 55))
      false sum_of_words

normalize_int_wraps_example :
    (pos_part (normalize_int (pos 200) 8) < half 8)
    × (neg_part (normalize_int (pos 200) 8) ≤ half 8)
    × (to_word (normalize_int (pos 200) 8) % (half 8 + half 8)
        ≡ to_word (pos 200) % (half 8 + half 8))
normalize_int_wraps_example = normalize_int_wraps 8 (omega arith) (pos 200)

abbrev known_values : Cache ℕ
known_values = record {
  slots = some (int (pos 1)) ∷ none ∷ some (cielo.Ir.Core.Literal.Literal.bool true) ∷ [];
  len = 2;
}

get-rebuild_branch_decisions_example :
    ((DenseMap.get (rebuild_branch_decisions known_values) 2 ≡ some live_true)
      ↔ (DenseMap.get known_values 2 ≡ some (cielo.Ir.Core.Literal.Literal.bool true)))
    × ((DenseMap.get (rebuild_branch_decisions known_values) 2 ≡ some live_false)
        ↔ (DenseMap.get known_values 2 ≡ some (cielo.Ir.Core.Literal.Literal.bool false)))
    × (DenseMap.get (rebuild_branch_decisions known_values) 2 ≢ some unknown)
get-rebuild_branch_decisions_example = get-rebuild_branch_decisions known_values 2

known_branch : DenseMap.get (rebuild_branch_decisions known_values) 2 ≡ some live_true
unfolding rebuild_branch_decisions DenseMap.get DenseMap.iter DenseMap.from_iter DenseMap.insert_all
    DenseMap.insert DenseMap.grow
known_branch = refl

abbrev some_counts : ConstantCounts
some_counts = record {
  scalars = (bool_key true, 3) ∷ (char_key 97, 1) ∷ [];
  strings = codes "hello" ∷ [];
  ctors = (ctor_literal 1 2 no_fields, 2) ∷ [];
}

finalize_constant_table_lem_example :
    ((finalize_constant_table some_counts).total_size_bytes
      ≡ total_bytes (finalize_constant_table some_counts).entries)
    × ((finalize_constant_table some_counts).total_size_bytes ≤ 16384)
    × ((e : ConstantEntry)
        → Elem e (finalize_constant_table some_counts).entries
        → (e.estimated_size_bytes ≤ 1024) × IsWarranted some_counts e)
finalize_constant_table_lem_example = finalize_constant_table_lem some_counts

pooled_bytes : (finalize_constant_table some_counts).total_size_bytes ≡ 70
unfolding finalize_constant_table pool_ctors should_pool_ctor_literal reserve_and_push
    estimate_ctor_pool_bytes pool_strings pool_scalars
pooled_bytes = refl
