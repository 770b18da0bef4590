-- ===== src/Staging/ConstantTable.antt =====
-- crates/cielo-ir/src/constants.rs and crates/cielo-staging/src/passes/constant_table.rs: the keys of
-- constants, and the table that is made of the counted ones within a budget of bytes. The maps of
-- the counts are their lists of pairs, in the order of the keys.
pub mod Laws
use cielo.Prelude.{
  ℕ, ◌+◌, ◌*◌, Bool, true, false, not, ◌&&◌, ◌||◌, Option, none, some, List, [], ◌∷◌, ◌++◌, length,
  min, ltb, leb, ◌==◌, if◌then◌else◌,
}
use cielo.Prelude.Classes.{Text}
use cielo.Prelude.Int.{ℤ}
use cielo.Ir.Core.Literal.{FloatOps, Literal}

pub data ScalarLiteralKey : Type 0 where
  bool_key : Bool → ScalarLiteralKey
  int_key : ℤ → ScalarLiteralKey
  char_key : ℕ → ScalarLiteralKey
  float_key : ℕ → ScalarLiteralKey

mutual
  pub data CtorFieldKey : Type 0 where
    unit_field : CtorFieldKey
    bool_field : Bool → CtorFieldKey
    int_field : ℤ → CtorFieldKey
    char_field : ℕ → CtorFieldKey
    float_field : ℕ → CtorFieldKey
    string_field : Text → CtorFieldKey
    ctor_field : CtorLiteralKey → CtorFieldKey

  pub data CtorLiteralKey : Type 0 where
    ctor_literal : (ty variant : ℕ) (fields : FieldKeys) → CtorLiteralKey

  pub data FieldKeys : Type 0 where
    no_fields : FieldKeys
    field_and : CtorFieldKey → FieldKeys → FieldKeys

pub data ConstantKey : Type 0 where
  scalar_constant : ScalarLiteralKey → ConstantKey
  string_constant : Text → ConstantKey
  ctor_constant : CtorLiteralKey → ConstantKey

pub data ConstantEmbedStrategy : Type 0 where
  static_const pooled : ConstantEmbedStrategy

pub record ConstantEntry : Type 0 where
  pub key : ConstantKey
  pub strategy : ConstantEmbedStrategy
  pub estimated_size_bytes : ℕ

pub record ConstantTable : Type 0 where
  pub entries : List ConstantEntry
  pub entry_cap_bytes : ℕ
  pub unit_cap_bytes : ℕ
  pub total_size_bytes : ℕ

module _ (ops : FloatOps) where
  unfoldable pub scalar_from_literal : Literal ops.F → Option ScalarLiteralKey
  scalar_from_literal (Literal.bool value) = some (bool_key value)
  scalar_from_literal (Literal.int value) = some (int_key value)
  scalar_from_literal (Literal.char value) = some (char_key value)
  scalar_from_literal (Literal.float value) =
      if ops.is_finite value then some (float_key (ops.to_bits value)) else none
  scalar_from_literal Literal.unit = none
  scalar_from_literal (Literal.string value) = none

  unfoldable pub field_from_literal : Literal ops.F → Option CtorFieldKey
  field_from_literal Literal.unit = some unit_field
  field_from_literal (Literal.bool value) = some (bool_field value)
  field_from_literal (Literal.int value) = some (int_field value)
  field_from_literal (Literal.char value) = some (char_field value)
  field_from_literal (Literal.float value) =
      if ops.is_finite value then some (float_field (ops.to_bits value)) else none
  field_from_literal (Literal.string value) = some (string_field value)

abbrev pub max_const_entry_bytes : ℕ
max_const_entry_bytes = 1024

abbrev pub max_const_pool_bytes : ℕ
max_const_pool_bytes = 16 * 1024

abbrev pub large_serializable_pool_bytes : ℕ
large_serializable_pool_bytes = 512

abbrev pub estimated_value_bytes : ℕ
estimated_value_bytes = 16

abbrev pub estimated_ctor_bytes : ℕ
estimated_ctor_bytes = 32

abbrev pub usize_max : ℕ
usize_max = 0xffff_ffff_ffff_ffff

abbrev pub saturating_add : ℕ → ℕ → ℕ
saturating_add a b = min (a + b) usize_max

abbrev pub saturating_mul : ℕ → ℕ → ℕ
saturating_mul a b = min (a * b) usize_max

abbrev field_count : FieldKeys → ℕ
field_count no_fields = 0
field_count (field_and field rest) = 1 + field_count rest

-- The `sum` does not overflow: the estimates of keys in memory are of the order of their sizes.
unfoldable mutual
  pub estimate_ctor_pool_bytes : CtorLiteralKey → ℕ
  estimate_ctor_pool_bytes (ctor_literal ty variant fields) =
      saturating_add
        (saturating_add (saturating_add estimated_value_bytes estimated_ctor_bytes)
          (saturating_mul (field_count fields) estimated_value_bytes))
        (estimate_fields fields)

  pub estimate_fields : FieldKeys → ℕ
  estimate_fields no_fields = 0
  estimate_fields (field_and field rest) =
      estimate_ctor_field_pool_bytes field + estimate_fields rest

  pub estimate_ctor_field_pool_bytes : CtorFieldKey → ℕ
  estimate_ctor_field_pool_bytes unit_field = 1
  estimate_ctor_field_pool_bytes (bool_field value) = 1
  estimate_ctor_field_pool_bytes (int_field value) = 8
  estimate_ctor_field_pool_bytes (char_field value) = 4
  estimate_ctor_field_pool_bytes (float_field value) = 8
  estimate_ctor_field_pool_bytes (string_field value) = saturating_add (length value) 1
  estimate_ctor_field_pool_bytes (ctor_field key) = estimate_ctor_pool_bytes key

unfoldable pub should_pool_ctor_literal : ℕ → ℕ → Bool
should_pool_ctor_literal use_count estimated_bytes =
    leb 2 use_count || leb large_serializable_pool_bytes estimated_bytes

pub record ConstPoolBudget : Type 0 where
  pub used_bytes : ℕ
  pub max_bytes : ℕ

unfoldable pub try_reserve : ConstPoolBudget → ℕ → ConstPoolBudget × Bool
try_reserve budget bytes =
    if bytes == 0
    then (budget, true)
    else if ltb max_const_entry_bytes bytes
    then (budget, false)
    else if ltb budget.max_bytes (saturating_add budget.used_bytes bytes)
    then (budget, false)
    else (record budget { used_bytes = saturating_add budget.used_bytes bytes }, true)

pub record ConstantCounts : Type 0 where
  pub scalars : List (ScalarLiteralKey × ℕ)
  pub strings : List Text
  pub ctors : List (CtorLiteralKey × ℕ)

-- the variables `budget` and `entries`
abbrev pub Pool : Type 0
Pool = ConstPoolBudget × List ConstantEntry

abbrev pub scalar_entry : ScalarLiteralKey → ConstantEntry
scalar_entry key = record {
  key = scalar_constant key;
  strategy = static_const;
  estimated_size_bytes = estimated_value_bytes;
}

abbrev pub string_entry : Text → ConstantEntry
string_entry value = record {
  key = string_constant value;
  strategy = static_const;
  estimated_size_bytes = saturating_add (length value) 1;
}

abbrev pub ctor_entry : CtorLiteralKey → ConstantEntry
ctor_entry key = record {
  key = ctor_constant key;
  strategy = pooled;
  estimated_size_bytes = estimate_ctor_pool_bytes key;
}

-- `try_reserve` for the entry, and `push` where it succeeds
unfoldable pub reserve_and_push : Pool → ConstantEntry → Pool
unfolding try_reserve
reserve_and_push (budget, entries) entry =
    let reserved = try_reserve budget entry.estimated_size_bytes in
    if reserved.1 then (reserved.0, entries ++ entry ∷ []) else (reserved.0, entries)

-- the three loops of `finalize_constant_table`
unfoldable pub pool_scalars : Pool → List (ScalarLiteralKey × ℕ) → Pool
pool_scalars pool [] = pool
pool_scalars pool ((key, count) ∷ rest) =
    pool_scalars (if ltb count 2 then pool else reserve_and_push pool (scalar_entry key)) rest

unfoldable pub pool_strings : Pool → List Text → Pool
pool_strings pool [] = pool
pool_strings pool (value ∷ rest) = pool_strings (reserve_and_push pool (string_entry value)) rest

unfoldable pub pool_ctors : Pool → List (CtorLiteralKey × ℕ) → Pool
pool_ctors pool [] = pool
pool_ctors pool ((key, count) ∷ rest) =
    pool_ctors
      (if not (should_pool_ctor_literal count (estimate_ctor_pool_bytes key))
        then pool
        else reserve_and_push pool (ctor_entry key))
      rest

abbrev pub empty_pool : Pool
empty_pool = (record { used_bytes = 0; max_bytes = max_const_pool_bytes }, [])

unfoldable pub finalize_constant_table : ConstantCounts → ConstantTable
finalize_constant_table counts =
    let pool =
      pool_ctors (pool_strings (pool_scalars empty_pool counts.scalars) counts.strings)
        counts.ctors in
    record {
      entries = pool.1;
      entry_cap_bytes = max_const_entry_bytes;
      unit_cap_bytes = max_const_pool_bytes;
      total_size_bytes = pool.0.used_bytes;
    }
