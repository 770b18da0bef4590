-- ===== src/Ir/Builtins/Laws.antt =====
-- crates/cielo-ir/src/builtins.rs: names, symbols and signatures together.
use cielo.Prelude.{
  ℕ, ◌≡◌, ap, ◌↔◌, inl, inr, some, List, [], ◌∷◌, arith, length, Elem, >>=-eq-some, Bool-cases,
}
use cielo.Prelude.Classes.{Text, text_beq_iff, nat_eq}
use cielo.Prelude.HashMap.{get, get_empty, insert, get-insert, get-insert_self}
use cielo.Base.Interner.{Interner, intern, resolve}
use cielo.Base.Interner.Laws.{IsValid, resolve-intern, resolve_kept, intern-IsValid}
use cielo.Ir.Builtins.{
  Builtin, print, str_len, str_concat, all_builtins, name, arity, param_types, from_name,
  BuiltinSymbols, intern_each, intern_builtins, lookup,
}

name-injective : (a b : Builtin) → name a ≡ name b → a ≡ b
unfolding name
name-injective a b h = ground arith

-- A name is a builtin's exactly if `from_name` finds that builtin, and each builtin takes as many
-- arguments as it has parameter types.
pub from_name_iff :
    (text : Text) (b : Builtin)
    → ((from_name text ≡ some b) ↔ (name b ≡ text)) × (arity b ≡ length (param_types b))
unfolding from_name arity param_types
from_name_iff text b = (
  ground (
    arith,
    text_beq_iff (name print) text,
    text_beq_iff (name str_len) text,
    text_beq_iff (name str_concat) text,
    name-injective print b,
    name-injective str_len b,
    name-injective str_concat b,
  ),
  ground arith,
)

-- Every entry maps the symbol of a builtin's name to it.
abbrev IsNamed : Interner → BuiltinSymbols → Type 0
IsNamed it m =
    (symbol : ℕ) (b : Builtin) → get m symbol ≡ some b → resolve it symbol ≡ some (name b)

record Interned (it : Interner) (m : BuiltinSymbols) (bs : List Builtin) (it' : Interner)
    (m' : BuiltinSymbols) : Type 0 where
  valid : IsValid it'
  named : IsNamed it' m'
  kept : (symbol : ℕ) (b : Builtin) → get m symbol ≡ some b → get m' symbol ≡ some b
  added : (b : Builtin) → Elem b bs → (symbol : ℕ) × (get m' symbol ≡ some b)

module _ (it it1 : Interner) (m : BuiltinSymbols) (b : Builtin) (symbol : ℕ) (valid : IsValid it)
    (named : IsNamed it m) (ends : intern it (name b) ≡ some (it1, symbol)) where
  insert-IsNamed : IsNamed it1 (insert m symbol b)
  insert-IsNamed s c h = elim (Bool-cases (nat_eq.beq symbol s)) [
    | inl same ↦
        let e : symbol ≡ s = ground arith in
        let which : b ≡ c = ground (arith, get-insert m symbol s b) in
        rw (← e, ← which) (resolve-intern it it1 (name b) symbol ends valid)
    | inr other ↦
        let old : get m s ≡ some c = ground (arith, get-insert m symbol s b) in
        resolve_kept it it1 (name b) symbol ends s (named s c old)
  ]

  insert_kept : (s : ℕ) (c : Builtin) → get m s ≡ some c → get (insert m symbol b) s ≡ some c
  insert_kept s c h = elim (Bool-cases (nat_eq.beq symbol s)) [
    | inl same ↦
        let e : symbol ≡ s = ground arith in
        let at_c = resolve_kept it it1 (name b) symbol ends s (named s c h) in
        let at_b = resolve-intern it it1 (name b) symbol ends valid in
        let which : b ≡ c = name-injective b c (cc (ap (resolve it1) e)) in
        ground (arith, get-insert m symbol s b)
    | inr other ↦ ground (arith, get-insert m symbol s b)
  ]

intern_each_lem :
    (it : Interner) (m : BuiltinSymbols) (bs : List Builtin) {it' : Interner} {m' : BuiltinSymbols}
    → IsValid it
    → IsNamed it m
    → intern_each it m bs ≡ some (it', m')
    → Interned it m bs it' m'
unfolding intern_each
intern_each_lem it m [] {it'} {m'} valid named h =
    let same_it : it ≡ it' = ground arith in
    let same_m : m ≡ m' = ground arith in
    rw (← same_it, ← same_m)
      (record { valid = valid; named = named; kept = λ s b g. g; added = λ b e. absurd e })
intern_each_lem it m (b ∷ bs) valid named h =
    let ((it1, symbol), ends, rest) = >>=-eq-some (intern it (name b)) _ h in
    let ih =
      intern_each_lem it1 (insert m symbol b) bs (intern-IsValid it it1 (name b) symbol ends valid)
        (insert-IsNamed it it1 m b symbol valid named ends) rest in
    record {
      valid = ih.valid;
      named = ih.named;
      kept = λ s c g. ih.kept s c (insert_kept it it1 m b symbol valid named ends s c g);
      added = λ c e. elim e [
        | inl here ↦ rw here (symbol, ih.kept symbol b (get-insert_self m symbol b))
        | inr there ↦ ih.added c there
      ];
    }

all_builtins_complete : (b : Builtin) → Elem b all_builtins
all_builtins_complete b = ground arith

-- Where the builtins' names were interned into a valid interner, a symbol looks up a builtin exactly
-- when the resulting interner resolves it to that builtin's name.
pub lookup-intern_builtins :
    (it it' : Interner) (m : BuiltinSymbols) (symbol : ℕ) (b : Builtin)
    → IsValid it
    → intern_builtins it ≡ some (it', m)
    → (lookup m symbol ≡ some b) ↔ (resolve it' symbol ≡ some (name b))
unfolding intern_builtins lookup resolve
lookup-intern_builtins it it' m symbol b valid h =
    let all =
      intern_each_lem it [] all_builtins valid (λ s c g. cc (get_empty {V = Builtin} s)) h in
    (
      all.named symbol b,
      λ resolved.
          let (s, found) = all.added b (all_builtins_complete b) in
          let at_s = all.valid.found (name b) s (all.named s b found) in
          let at_symbol = all.valid.found (name b) symbol resolved in
          let same : s ≡ symbol = cc in rw (← same) found,
    )
