-- ===== src/Memory/Managed.antt =====
-- crates/cielo-memory/src/refcount/analysis/managed.rs: which values the collector manages.
pub mod Least
use cielo.Prelude.{
  ℕ, zero, suc, Bool, true, false, Option, none, some, List, [], ◌∷◌, ◌++◌, if◌then◌else◌, length,
  map, set, ◌≡◌, Elem,
}
use cielo.Ir.Cfg.Expr
use cielo.Ir.Cfg.Expr.{CfgExpr, CfgExprNode}
use cielo.Ir.Cfg.Instruction.{CfgInstruction, CfgInstructionNode, let_value, eval_value}
use cielo.Ir.Cfg.Terminator.{CfgTerminator, goto, match_on, all_binders}
use cielo.Ir.Cfg.Program.{CfgProgram, CfgBlock, block, instruction, expr}

-- `is_managed`: the flag of a value, false out of range
abbrev pub is_managed : List Bool → ℕ → Bool
is_managed [] value = false
is_managed (flag ∷ flags) zero = flag
is_managed (flag ∷ flags) (suc value) = is_managed flags value

-- What decides whether an expression is managed: a value, or the expression alone.
pub data Source : Type 0 where
  of_value : ℕ → Source
  always never : Source

abbrev pub source_is_managed : Source → List Bool → Bool
source_is_managed (of_value value) managed = is_managed managed value
source_is_managed always managed = true
source_is_managed never managed = false

pub record Marking : Type 0 where
  pub managed : List Bool
  pub changed : Bool

-- A write of a flag that was not set. The source panics out of range, which theorems exclude.
abbrev pub raise : ℕ → Marking → Marking
raise value s =
    if is_managed s.managed value
    then s
    else record { managed = set s.managed value true; changed = true }

-- The flags that a round may raise, each with what it follows.
unfoldable pub fire : List (Source × ℕ) → Marking → Marking
fire [] s = s
fire ((source, value) ∷ moves) s =
    fire moves (if source_is_managed source s.managed then raise value s else s)

-- `while changed`; `none` is the fuel running out
unfoldable pub mark_all : ℕ → List (Source × ℕ) → Marking → Option (List Bool)
unfolding fire
mark_all zero moves s = none
mark_all (suc fuel) moves s =
    let after = fire moves (record s { changed = false }) in
    let rest = mark_all fuel moves after in if after.changed then rest else some after.managed

module _ {F : Type 0} (cfg : CfgProgram F) where
  abbrev pub node_source : Option (CfgExprNode F) → Source
  node_source none = never
  node_source (some node) = elim node.kind [
    | Expr.value value ↦ of_value value
    | Expr.pure_call callee callee_fn args ↦ always
    | Expr.make_struct ty fields ↦ always
    | Expr.make_enum ty variant fields ↦ always
    | _ ↦ never
  ]

  -- `expression_is_managed` is `source_is_managed` of this
  unfoldable pub expression_source : ℕ → Source
  expression_source expression = node_source (expr cfg expression)

  abbrev pub node_moves : Option CfgInstructionNode → List (Source × ℕ)
  node_moves none = []
  node_moves (some node) = elim node.kind [
    | let_value result value ↦ (expression_source value, result) ∷ []
    | eval_value result value ↦ (expression_source value, result) ∷ []
    | _ ↦ []
  ]

  abbrev pub instruction_moves : List ℕ → List (Source × ℕ)
  instruction_moves [] = []
  instruction_moves (id ∷ ids) = node_moves (instruction cfg id) ++ instruction_moves ids

  -- `zip`
  abbrev pub param_moves : List ℕ → List ℕ → List (Source × ℕ)
  param_moves (param ∷ params) (arg ∷ args) =
      (expression_source arg, param) ∷ param_moves params args
  param_moves [] args = []
  param_moves (param ∷ params) [] = []

  abbrev pub goto_moves : Option CfgBlock → List ℕ → List (Source × ℕ)
  goto_moves none args = []
  goto_moves (some target) args = param_moves target.params args

  abbrev pub end_moves : CfgTerminator → List (Source × ℕ)
  end_moves (goto target args) = goto_moves (block cfg target) args
  end_moves (match_on scrutinee arms default) =
      map (λ binder. (expression_source scrutinee, binder)) (all_binders arms)
  end_moves _ = []

  unfoldable pub block_moves : List CfgBlock → List (Source × ℕ)
  unfolding expression_source
  block_moves [] = []
  block_moves (block ∷ blocks) =
      instruction_moves block.instructions ++ (end_moves block.terminator ++ block_moves blocks)

  -- `facts` is the method `is_managed` of `RuntimeValueFacts`.
  unfoldable pub classify : (ℕ → Bool) → Option (List Bool)
  unfolding mark_all block_moves
  classify facts =
      mark_all (suc (length cfg.values)) (block_moves cfg.blocks)
        (record { managed = map (λ value. facts value.id) cfg.values; changed = true })

-- A value is managed if it is given as such, or if what it follows is.
pub data Managed (given : List Bool) (moves : List (Source × ℕ)) : ℕ → Type 0 where
  given_managed : {v : ℕ} → is_managed given v ≡ true → Managed given moves v
  from_always : {v : ℕ} → Elem (always, v) moves → Managed given moves v
  from_value :
      {v : ℕ} (w : ℕ) → Managed given moves w → Elem (of_value w, v) moves → Managed given moves v
