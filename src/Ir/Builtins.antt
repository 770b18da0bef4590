-- ===== src/Ir/Builtins.antt =====
-- crates/cielo-ir/src/builtins.rs: the operations that the runtime implements.
pub mod Laws
use cielo.Prelude.{ℕ, Bool, true, false, Option, none, some, List, [], ◌∷◌, if◌then◌else◌, ◌>>=◌}
use cielo.Prelude.Classes.{Text, text_beq, codes, nat_eq}
use cielo.Prelude.HashMap.{HashMap, get, insert}
use cielo.Base.Interner.{Interner, intern}
use cielo.Ir.Core.TypeRef.{PrimitiveTypeRef, CoreTypeRef}

pub data Builtin : Type 0 where
  print str_len str_concat : Builtin

abbrev pub all_builtins : List Builtin
all_builtins = print ∷ str_len ∷ str_concat ∷ []

unfoldable pub name : Builtin → Text
name print = codes "print"
name str_len = codes "str_len"
name str_concat = codes "str_concat"

unfoldable pub c_symbol : Builtin → Text
c_symbol print = codes "cielo_builtin_print"
c_symbol str_len = codes "cielo_builtin_str_len"
c_symbol str_concat = codes "cielo_builtin_str_concat"

unfoldable pub arity : Builtin → ℕ
arity print = 1
arity str_len = 1
arity str_concat = 2

unfoldable pub is_observable : Builtin → Bool
is_observable print = true
is_observable _ = false

unfoldable pub param_types : Builtin → List (Option PrimitiveTypeRef)
param_types print = none ∷ []
param_types str_len = some PrimitiveTypeRef.string ∷ []
param_types str_concat = some PrimitiveTypeRef.string ∷ some PrimitiveTypeRef.string ∷ []

unfoldable pub return_type : Builtin → CoreTypeRef
return_type print = CoreTypeRef.unit
return_type str_len = CoreTypeRef.primitive PrimitiveTypeRef.int
return_type str_concat = CoreTypeRef.primitive PrimitiveTypeRef.string

find_name : List Builtin → Text → Option Builtin
find_name [] text = none
find_name (builtin ∷ rest) text =
    if text_beq (name builtin) text then some builtin else find_name rest text

unfoldable pub from_name : Text → Option Builtin
unfolding find_name name
from_name text = find_name all_builtins text

-- `BuiltinSymbols`, the map `by_symbol`
abbrev pub BuiltinSymbols : Type 0
BuiltinSymbols = HashMap ℕ Builtin

-- the `map` and `collect` of `BuiltinSymbols::intern`
unfoldable pub intern_each :
    Interner → BuiltinSymbols → List Builtin → Option (Interner × BuiltinSymbols)
unfolding name
intern_each it by_symbol [] = some (it, by_symbol)
intern_each it by_symbol (builtin ∷ rest) = intern it (name builtin) >>= λ (it', symbol).
    intern_each it' (insert by_symbol symbol builtin) rest

unfoldable pub intern_builtins : Interner → Option (Interner × BuiltinSymbols)
unfolding intern_each
intern_builtins it = intern_each it [] all_builtins

unfoldable pub lookup : BuiltinSymbols → ℕ → Option Builtin
lookup by_symbol symbol = get by_symbol symbol
