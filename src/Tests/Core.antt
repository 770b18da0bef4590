-- ===== src/Tests/Core.antt =====
-- Runs of crates/cielo-ir/src/core.rs, builtins.rs and function_graph.rs.
use cielo.Prelude.{
  ℕ, ◌≡◌, refl, ◌↔◌, ◌≤◌, ◌+◌, true, false, Option, List, some, none, [], ◌∷◌, arith, length, ◌==◌,
  inl, if◌then◌else◌,
}
use cielo.Prelude.Classes.{codes}
use cielo.Prelude.HashMap.{get, insert}
use cielo.Base.Ids.{new}
use cielo.Base.Interner.{Interner, empty_interner, resolve, intern}
use cielo.Base.Interner.Laws.{empty_interner-IsValid}
use cielo.Ir.Core.Literal.{Literal, float, literal_eq, hash}
use cielo.Ir.Core.Literal.Laws.{IsIeee, hash_eq}
use cielo.Ir.Core.TypeRef.{
  CoreTypeRef, PrimitiveTypeRef, primitive, param, applied, nil, cons, mentions_param, depth,
  unwrap_or, substitute,
}
use cielo.Ir.Core.TypeRef.Laws.{
  Occurs, compose, substitute-substitute, depth-substitute, substitute_closed,
}
use cielo.Base.Span.{synthetic}
use cielo.Ir.Core.Expr.{ExprNode, pure_call, make_closure}
use cielo.Ir.Core.Stmt.{call}
use cielo.Ir.Core.Program.{CoreProgram, FunctionDecl, new_program}
use cielo.Ir.FunctionGraph.{prune_to}
use cielo.Ir.FunctionGraph.Resolved.{IsPruned, prune_to-resolves}
use cielo.Ir.Builtins.{
  Builtin, print, str_len, name, arity, param_types, from_name, intern_builtins, lookup,
  BuiltinSymbols,
}
use cielo.Ir.Builtins.Laws.{from_name_iff, lookup-intern_builtins}
use cielo.Tests.Staging.{number_ops}

number_ops-IsIeee : IsIeee number_ops
number_ops-IsIeee = record {
  eq_refl = λ x h. ground arith;
  eq_symm = λ x y h. ground arith;
  eq_trans = λ x y z h k. ground arith;
  eq_bits = λ x y h. inl (ground arith);
}

two_eq : literal_eq number_ops (float 2) (float 2) ≡ true
unfolding literal_eq
two_eq = refl

hash_eq_example : hash number_ops (λ l. 3) (float 2) ≡ hash number_ops (λ l. 3) (float 2)
hash_eq_example =
    hash_eq number_ops number_ops-IsIeee (λ l. 3) (λ x y. refl) (float 2) (float 2) two_eq

abbrev two_float : Literal ℕ
two_float = float 2

-- a list of pairs of the parameters 0 and 1
abbrev pairs : CoreTypeRef
pairs = applied 5 (cons (applied 6 (cons (param 0) (cons (param 1) nil))) nil)

abbrev swap : ℕ → Option CoreTypeRef
swap x = if x == 0 then some (param 1) else if x == 1 then some (param 0) else none

abbrev to_int : ℕ → Option CoreTypeRef
to_int x = some (primitive PrimitiveTypeRef.int)

substitute-substitute_example :
    substitute to_int (substitute swap pairs) ≡ substitute (compose swap to_int) pairs
substitute-substitute_example = substitute-substitute swap to_int pairs

ints_are_flat : (x : ℕ) → depth (unwrap_or (to_int x) (param x)) ≤ 0
unfolding depth
ints_are_flat x = omega arith

depth-substitute_example : depth (substitute to_int pairs) ≤ depth pairs + 0
depth-substitute_example = depth-substitute to_int 0 ints_are_flat pairs

ints_are_closed : (x : ℕ) → Occurs x pairs → mentions_param (unwrap_or (to_int x) (param x)) ≡ false
unfolding mentions_param
ints_are_closed x o = refl

substitute_closed_example : mentions_param (substitute to_int pairs) ≡ false
substitute_closed_example = substitute_closed to_int pairs ints_are_closed

from_name_iff_example :
    ((from_name (codes "print") ≡ some print) ↔ (name print ≡ codes "print"))
    × (arity print ≡ length (param_types print))
from_name_iff_example = from_name_iff (codes "print") print

abbrev known : Interner
known = record {
  symbols = codes "print" ∷ codes "str_len" ∷ codes "str_concat" ∷ [];
  lookup = (codes "print", 0) ∷ (codes "str_len", 1) ∷ (codes "str_concat", 2) ∷ [];
}

abbrev symbols : BuiltinSymbols
symbols = (0, print) ∷ (1, str_len) ∷ (2, Builtin.str_concat) ∷ []

interned : intern_builtins empty_interner ≡ some (known, symbols)
unfolding intern_builtins intern new get insert
interned = refl

lookup-intern_builtins_example :
    (lookup symbols 1 ≡ some str_len) ↔ (resolve known 1 ≡ some (name str_len))
lookup-intern_builtins_example =
    lookup-intern_builtins empty_interner known symbols 1 str_len empty_interner-IsValid interned

abbrev function : ℕ → FunctionDecl
function name = record {
  name = name;
  params = [];
  param_types = [];
  return_type = param 0;
  declared_effects = [];
  body = 0;
  ct_only = false;
  span = synthetic;
}

-- Of three functions the last two are kept. A call and a closure name the last, a call the first.
abbrev calls : CoreProgram ℕ
calls = record new_program {
  functions = function 5 ∷ function 6 ∷ function 7 ∷ [];
  stmts = (record { span = synthetic; kind = call 9 2 [] [] 0 }) ∷ [];
  exprs =
      (record { span = synthetic; kind = pure_call 0 [] })
      ∷ (record { span = synthetic; kind = make_closure 2 [] })
      ∷ [];
  entrypoints = 1 ∷ [];
}

prune_to-resolves_example :
    (pruned : CoreProgram ℕ) × (remap : List (Option ℕ)) × IsPruned calls (1 ∷ 2 ∷ []) pruned remap
prune_to-resolves_example =
    prune_to-resolves calls (1 ∷ 2 ∷ []) (refl, (refl, tt)) (omega arith, (omega arith, tt))
      (refl, tt) (omega arith)

-- The closure names the new place of the last function, and the call of the first one is out of
-- range.
abbrev exprs_of : Option (CoreProgram ℕ × List (Option ℕ)) → List (ExprNode ℕ)
exprs_of none = []
exprs_of (some (program, remap)) = program.exprs

pruned_exprs :
    exprs_of (prune_to calls (1 ∷ 2 ∷ []))
    ≡ (record { span = synthetic; kind = pure_call 3 [] })
      ∷ (record { span = synthetic; kind = make_closure 1 [] })
      ∷ []
unfolding prune_to new
pruned_exprs = refl
