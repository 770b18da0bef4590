-- ===== src/Ir/Core/TypeRef/Laws.antt =====
-- crates/cielo-ir/src/core.rs: `substitute`, `depth` and `mentions_param` together.
use cielo.Prelude.{
  ℕ, ◌+◌, ◌≤◌, ◌≡◌, refl, ap, ap₂, ◌↔◌, ◌⊎◌, inl, inr, Bool, true, false, ◌||◌, Option, none, some,
  arith, Option-cases, Bool-cases,
}
use cielo.Ir.Core.TypeRef.{
  CoreTypeRef, TypeRefs, unit, primitive, named, param, applied, func, unknown, nil, cons,
  mentions_param, any_mentions_param, depth, max_depth, unwrap_or, substitute, substitute_all,
}

-- A parameter that occurs in a type.
abbrev mutual
  pub Occurs : ℕ → CoreTypeRef → Type 0
  Occurs x unit = ⊥
  Occurs x (primitive p) = ⊥
  Occurs x (named n) = ⊥
  Occurs x (param n) = x ≡ n
  Occurs x (applied n args) = OccursIn x args
  Occurs x (func params ret effects) = OccursIn x params ⊎ Occurs x ret
  Occurs x unknown = ⊥

  pub OccursIn : ℕ → TypeRefs → Type 0
  OccursIn x nil = ⊥
  OccursIn x (cons t ts) = Occurs x t ⊎ OccursIn x ts

module _ (b c : ℕ → Option CoreTypeRef) where
  mutual
    unfolding substitute

    ext_one :
        (t : CoreTypeRef) → ((x : ℕ) → Occurs x t → b x ≡ c x) → substitute b t ≡ substitute c t
    ext_one unit h = refl
    ext_one (primitive p) h = refl
    ext_one (named n) h = refl
    ext_one (param n) h = ap (λ o. unwrap_or o (param n)) (h n refl)
    ext_one (applied n args) h = ap (applied n) (ext_all args h)
    ext_one (func params ret effects) h =
        ap₂ (λ ps r. func ps r effects) (ext_all params (λ x o. h x (inl o)))
          (ext_one ret (λ x o. h x (inr o)))
    ext_one unknown h = refl

    ext_all :
        (ts : TypeRefs)
        → ((x : ℕ) → OccursIn x ts → b x ≡ c x)
        → substitute_all b ts ≡ substitute_all c ts
    ext_all nil h = refl
    ext_all (cons t ts) h =
        ap₂ cons (ext_one t (λ x o. h x (inl o))) (ext_all ts (λ x o. h x (inr o)))

  -- Two substitutions that bind the parameters of a type alike give the same type.
  pub substitute_ext :
      (t : CoreTypeRef) → ((x : ℕ) → Occurs x t → b x ≡ c x) → substitute b t ≡ substitute c t
  substitute_ext t h = ext_one t h

  -- First `b`, then `c` on what it gives.
  pub compose : ℕ → Option CoreTypeRef
  compose x = elim (b x) [ some u ↦ some (substitute c u) | none ↦ c x ]

  mutual
    unfolding substitute compose

    compose_one : (t : CoreTypeRef) → substitute c (substitute b t) ≡ substitute compose t
    compose_one unit = refl
    compose_one (primitive p) = refl
    compose_one (named n) = refl
    compose_one (param n) = elim (Option-cases (b n)) [
      | inl free ↦ ground arith
      | inr (u, bound) ↦ ground arith
    ]
    compose_one (applied n args) = ap (applied n) (compose_all args)
    compose_one (func params ret effects) =
        ap₂ (λ ps r. func ps r effects) (compose_all params) (compose_one ret)
    compose_one unknown = refl

    compose_all :
        (ts : TypeRefs) → substitute_all c (substitute_all b ts) ≡ substitute_all compose ts
    compose_all nil = refl
    compose_all (cons t ts) = ap₂ cons (compose_one t) (compose_all ts)

  -- Two substitutions in a row are one.
  pub substitute-substitute :
      (t : CoreTypeRef) → substitute c (substitute b t) ≡ substitute compose t
  substitute-substitute t = compose_one t

either :
    (p q : Bool) {P Q : ℕ → Type 0}
    → (p ≡ true) ↔ ((x : ℕ) × P x)
    → (q ≡ true) ↔ ((x : ℕ) × Q x)
    → ((p || q) ≡ true) ↔ ((x : ℕ) × (P x ⊎ Q x))
either true q f g = (λ h. let (x, o) = f.0 refl in (x, inl o), λ h. refl)
either false q f g = (
  λ h. let (x, o) = g.0 h in (x, inr o),
  λ (x, o). elim o [ inl o' ↦ cc (f.1 (x, o')) | inr o' ↦ g.1 (x, o') ],
)

mutual
  unfolding mentions_param

  mentions_one : (t : CoreTypeRef) → (mentions_param t ≡ true) ↔ ((x : ℕ) × Occurs x t)
  mentions_one unit = (λ h. cc, λ h. absurd h.1)
  mentions_one (primitive p) = (λ h. cc, λ h. absurd h.1)
  mentions_one (named n) = (λ h. cc, λ h. absurd h.1)
  mentions_one (param n) = (λ h. (n, refl), λ h. refl)
  mentions_one (applied n args) = mentions_all args
  mentions_one (func params ret effects) =
      either (any_mentions_param params) (mentions_param ret) (mentions_all params)
        (mentions_one ret)
  mentions_one unknown = (λ h. cc, λ h. absurd h.1)

  mentions_all : (ts : TypeRefs) → (any_mentions_param ts ≡ true) ↔ ((x : ℕ) × OccursIn x ts)
  mentions_all nil = (λ h. cc, λ h. absurd h.1)
  mentions_all (cons t ts) =
      either (mentions_param t) (any_mentions_param ts) (mentions_one t) (mentions_all ts)

-- `mentions_param` decides whether a parameter occurs.
pub mentions_param_iff : (t : CoreTypeRef) → (mentions_param t ≡ true) ↔ ((x : ℕ) × Occurs x t)
mentions_param_iff t = mentions_one t

module _ (b : ℕ → Option CoreTypeRef) (n : ℕ)
    (small : (x : ℕ) → depth (unwrap_or (b x) (param x)) ≤ n) where
  mutual
    unfolding depth substitute

    depth_one : (t : CoreTypeRef) → depth (substitute b t) ≤ depth t + n
    depth_one unit = omega arith
    depth_one (primitive p) = omega arith
    depth_one (named m) = omega arith
    depth_one (param m) = omega (arith, small m)
    depth_one (applied m args) = omega (arith, depth_all args)
    depth_one (func params ret effects) = omega (arith, depth_all params, depth_one ret)
    depth_one unknown = omega arith

    depth_all : (ts : TypeRefs) → max_depth (substitute_all b ts) ≤ max_depth ts + n
    depth_all nil = omega arith
    depth_all (cons t ts) = omega (arith, depth_one t, depth_all ts)

  -- Where every bound type, and every parameter left as it is, has a depth of at most `n`, substituting
  -- deepens a type by at most `n`.
  pub depth-substitute : (t : CoreTypeRef) → depth (substitute b t) ≤ depth t + n
  depth-substitute t = depth_one t

mutual
  unfolding substitute

  Occurs-one :
      (b : ℕ → Option CoreTypeRef) (x : ℕ) (t : CoreTypeRef)
      → Occurs x (substitute b t)
      → (y : ℕ) × Occurs y t × Occurs x (unwrap_or (b y) (param y))
  Occurs-one b x unit h = absurd h
  Occurs-one b x (primitive p) h = absurd h
  Occurs-one b x (named m) h = absurd h
  Occurs-one b x (param m) h = (m, refl, h)
  Occurs-one b x (applied m args) h = Occurs-all b x args h
  Occurs-one b x (func params ret effects) (inl h) =
      let (y, o, p) = Occurs-all b x params h in (y, inl o, p)
  Occurs-one b x (func params ret effects) (inr h) =
      let (y, o, p) = Occurs-one b x ret h in (y, inr o, p)
  Occurs-one b x unknown h = absurd h

  Occurs-all :
      (b : ℕ → Option CoreTypeRef) (x : ℕ) (ts : TypeRefs)
      → OccursIn x (substitute_all b ts)
      → (y : ℕ) × OccursIn y ts × Occurs x (unwrap_or (b y) (param y))
  Occurs-all b x nil h = absurd h
  Occurs-all b x (cons t ts) (inl h) = let (y, o, p) = Occurs-one b x t h in (y, inl o, p)
  Occurs-all b x (cons t ts) (inr h) = let (y, o, p) = Occurs-all b x ts h in (y, inr o, p)

-- Where each parameter that occurs is bound to a type without parameters, the result has none.
pub substitute_closed :
    (b : ℕ → Option CoreTypeRef) (t : CoreTypeRef)
    → ((x : ℕ) → Occurs x t → mentions_param (unwrap_or (b x) (param x)) ≡ false)
    → mentions_param (substitute b t) ≡ false
substitute_closed b t closed = elim (Bool-cases (mentions_param (substitute b t))) [
  | inl mentions ↦
      let (x, o) = (mentions_param_iff (substitute b t)).0 mentions in
      let (y, o', p) = Occurs-one b x t o in
      cc (closed y o', (mentions_param_iff (unwrap_or (b y) (param y))).1 (x, p))
  | inr none_left ↦ none_left
]
