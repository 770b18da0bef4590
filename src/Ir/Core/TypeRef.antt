-- ===== src/Ir/Core/TypeRef.antt =====
-- crates/cielo-ir/src/core.rs: references to types, and substitution for their parameters.
pub mod Laws
use cielo.Prelude.{
  ℕ, zero, suc, ◌+◌, max, Bool, true, false, ◌||◌, Option, none, some, List, [], ◌∷◌,
}

pub data PrimitiveTypeRef : Type 0 where
  bool int float char string : PrimitiveTypeRef

-- Symbols are numbers; `TypeRefs` are the vectors of references.
mutual
  pub data CoreTypeRef : Type 0 where
    unit : CoreTypeRef
    primitive : PrimitiveTypeRef → CoreTypeRef
    named : ℕ → CoreTypeRef
    param : ℕ → CoreTypeRef
    applied : ℕ → TypeRefs → CoreTypeRef
    func : TypeRefs → CoreTypeRef → List ℕ → CoreTypeRef
    unknown : CoreTypeRef

  pub data TypeRefs : Type 0 where
    nil : TypeRefs
    cons : CoreTypeRef → TypeRefs → TypeRefs

unfoldable mutual
  pub mentions_param : CoreTypeRef → Bool
  mentions_param unit = false
  mentions_param (primitive p) = false
  mentions_param (named n) = false
  mentions_param (param n) = true
  mentions_param (applied n args) = any_mentions_param args
  mentions_param (func params ret effects) = any_mentions_param params || mentions_param ret
  mentions_param unknown = false

  pub any_mentions_param : TypeRefs → Bool
  any_mentions_param nil = false
  any_mentions_param (cons t ts) = mentions_param t || any_mentions_param ts

-- `max().unwrap_or(0)` over the depths is a fold from 0.
unfoldable mutual
  pub depth : CoreTypeRef → ℕ
  depth unit = 0
  depth (primitive p) = 0
  depth (named n) = 0
  depth (param n) = 0
  depth (applied n args) = 1 + max_depth args
  depth (func params ret effects) = 1 + max (max_depth params) (depth ret)
  depth unknown = 0

  pub max_depth : TypeRefs → ℕ
  max_depth nil = 0
  max_depth (cons t ts) = max (depth t) (max_depth ts)

abbrev pub unwrap_or : Option CoreTypeRef → CoreTypeRef → CoreTypeRef
unwrap_or none t = t
unwrap_or (some u) t = u

unfoldable mutual
  pub substitute : (ℕ → Option CoreTypeRef) → CoreTypeRef → CoreTypeRef
  substitute bindings unit = unit
  substitute bindings (primitive p) = primitive p
  substitute bindings (named n) = named n
  substitute bindings (param n) = unwrap_or (bindings n) (param n)
  substitute bindings (applied n args) = applied n (substitute_all bindings args)
  substitute bindings (func params ret effects) =
      func (substitute_all bindings params) (substitute bindings ret) effects
  substitute bindings unknown = unknown

  pub substitute_all : (ℕ → Option CoreTypeRef) → TypeRefs → TypeRefs
  substitute_all bindings nil = nil
  substitute_all bindings (cons t ts) = cons (substitute bindings t) (substitute_all bindings ts)
