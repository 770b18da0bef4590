-- ===== src/Ir/Effect/Thunk.antt =====
-- crates/cielo-ir/src/effect.rs: the level of a row, and the rows whose computation may be delayed.
-- docs/v2/compiler_additions.md calls a row thunkable where `cap_level < IO`. The code asks for a
-- level below `SharedState`, for known properties and for neither of two flags.
use cielo.Prelude.{
  ℕ, ◌≤◌, ◌<◌, ◌≡◌, refl, ◌↔◌, inl, inr, Bool, true, false, not, ◌&&◌, ◌||◌, Option, none, some,
  List, [], ◌∷◌, arith, Elem, max, if◌then◌else◌, Bool-cases,
}
use cielo.Prelude.Classes.{nat_eq}
use cielo.Prelude.HashMap.{HashMap, get}
use cielo.Ir.Effect.Capability.{
  CapabilityLevel, rank, level_lt, is_runtime_only, EffectProperties, is_ct_eligible,
  contains_flags, shared_state_flag, opaque_for_staging,
}
use cielo.Ir.Effect.Row.Laws.{union_lem}
use cielo.Prelude.Sorted.{IsSorted}
use cielo.Ir.Effect.Row.{SortedEffectRow, union}

abbrev pub Properties : Type 0
Properties = HashMap ℕ EffectProperties

-- `map(|props| props.level).unwrap_or(Ffi)`
abbrev pub level_or_ffi : Option EffectProperties → CapabilityLevel
level_or_ffi none = CapabilityLevel.ffi
level_or_ffi (some props) = props.level

unfoldable pub effect_level : Properties → ℕ → CapabilityLevel
effect_level properties effect = level_or_ffi (get properties effect)

-- one round of the loop of `capability_of_row`
raise : Properties → CapabilityLevel → ℕ → CapabilityLevel
unfolding effect_level
raise properties level effect =
    if level_lt level (effect_level properties effect)
    then effect_level properties effect
    else level

capability_from : Properties → CapabilityLevel → List ℕ → CapabilityLevel
unfolding raise
capability_from properties level [] = level
capability_from properties level (effect ∷ rest) =
    capability_from properties (raise properties level effect) rest

unfoldable pub capability_of_row : SortedEffectRow → Properties → CapabilityLevel
unfolding capability_from
capability_of_row row properties = capability_from properties CapabilityLevel.pure row

-- the test of `find`
blocks : Option EffectProperties → Bool
blocks none = true
blocks (some props) =
    not (is_ct_eligible props)
    || contains_flags props.flags shared_state_flag
    || contains_flags props.flags opaque_for_staging

unfoldable pub first_non_thunkable_effect : SortedEffectRow → Properties → Option ℕ
unfolding blocks
first_non_thunkable_effect [] properties = none
first_non_thunkable_effect (effect ∷ rest) properties =
    if blocks (get properties effect)
    then some effect
    else first_non_thunkable_effect rest properties

abbrev is_none : Option ℕ → Bool
is_none none = true
is_none (some _) = false

unfoldable pub is_thunkable : SortedEffectRow → Properties → Bool
unfolding first_non_thunkable_effect capability_of_row
is_thunkable row properties =
    is_none (first_non_thunkable_effect row properties)
    && level_lt (capability_of_row row properties) CapabilityLevel.io

rank-raise :
    (properties : Properties) (level : CapabilityLevel) (effect : ℕ)
    → rank (raise properties level effect)
      ≡ max (rank level) (rank (effect_level properties effect))
unfolding raise
rank-raise properties level effect =
    elim (Bool-cases (level_lt level (effect_level properties effect))) [
      | inl higher ↦ rw higher (ground arith)
      | inr lower ↦ rw lower (ground arith)
    ]

capability_from_iff :
    (properties : Properties) (level : CapabilityLevel) (row : List ℕ) (n : ℕ)
    → (rank (capability_from properties level row) ≤ n)
      ↔ ((rank level ≤ n) × ((e : ℕ) → Elem e row → rank (effect_level properties e) ≤ n))
unfolding capability_from
capability_from_iff properties level [] n = (λ h. (h, λ e m. elim m [ ]), λ h. h.0)
capability_from_iff properties level (x ∷ row) n =
    let (to, from) = capability_from_iff properties (raise properties level x) row n in
    let step = rank-raise properties level x in
    (
      λ h.
          let (raised, rest) = to h in
          (
            omega arith,
            λ e m. elim m [ inl here ↦ rw here (omega arith) | inr there ↦ rest e there ],
          ),
      λ h. from (omega (arith, h.0, h.1 x (inl refl)), λ e m. h.1 e (inr m)),
    )

-- The level of a row is the least one that no effect of the row exceeds, where an effect with no
-- properties counts as `Ffi`.
pub capability_of_row_iff :
    (row : SortedEffectRow) (properties : Properties) (n : ℕ)
    → (rank (capability_of_row row properties) ≤ n)
      ↔ ((e : ℕ) → Elem e row → rank (effect_level properties e) ≤ n)
unfolding capability_of_row
capability_of_row_iff row properties n =
    let (to, from) = capability_from_iff properties CapabilityLevel.pure row n in
    (λ h. (to h).1, λ h. from (omega arith, h))

-- The level of a union, whose first row is increasing, is the greater one of the two levels.
pub capability_of_row-union :
    (a b : SortedEffectRow) (properties : Properties)
    → IsSorted a
    → rank (capability_of_row (union a b) properties)
      ≡ max (rank (capability_of_row a properties)) (rank (capability_of_row b properties))
capability_of_row-union a b properties sa =
    let members = (union_lem a b sa).1 in
    let level = λ (row : SortedEffectRow). rank (capability_of_row row properties) in
    let bound = λ (row : SortedEffectRow). capability_of_row_iff row properties in
    let above_a : level a ≤ level (union a b) =
      (bound a (level (union a b))).1 (λ e m.
        (bound (union a b) (level (union a b))).0 (omega arith) e ((members e).1 (inl m))) in
    let above_b : level b ≤ level (union a b) =
      (bound b (level (union a b))).1 (λ e m.
        (bound (union a b) (level (union a b))).0 (omega arith) e ((members e).1 (inr m))) in
    let below : level (union a b) ≤ max (level a) (level b) =
      (bound (union a b) (max (level a) (level b))).1 (λ e m. elim ((members e).0 m) [
        | inl in_a ↦ (bound a (max (level a) (level b))).0 (omega arith) e in_a
        | inr in_b ↦ (bound b (max (level a) (level b))).0 (omega arith) e in_b
      ]) in
    omega arith

-- Known properties of a level below `SharedState`, with neither of the two blocking flags.
abbrev pub IsDelayable : Option EffectProperties → Type 0
IsDelayable none = ⊥
IsDelayable (some p) =
    (rank p.level < rank CapabilityLevel.shared_state)
    × (contains_flags p.flags shared_state_flag ≡ false)
    × (contains_flags p.flags opaque_for_staging ≡ false)

runtime_only_iff : (l : CapabilityLevel) → (is_runtime_only l ≡ false) ↔ (rank l < 4)
runtime_only_iff l = ground arith

blocks_iff : (o : Option EffectProperties) → (blocks o ≡ false) ↔ IsDelayable o
unfolding blocks is_ct_eligible
blocks_iff none = ground arith
blocks_iff (some p) = ground (arith, runtime_only_iff p.level)

first_non_thunkable_effect-none_iff :
    (row : List ℕ) (properties : Properties)
    → (first_non_thunkable_effect row properties ≡ none)
      ↔ ((e : ℕ) → Elem e row → IsDelayable (get properties e))
unfolding first_non_thunkable_effect
first_non_thunkable_effect-none_iff [] properties = (λ _ e m. elim m [ ], λ _. refl)
first_non_thunkable_effect-none_iff (x ∷ row) properties =
    elim (Bool-cases (blocks (get properties x))) [
      | inl blocked ↦
          rw (blocked, if◌then◌else◌)
            (λ h. cc, λ h. cc (blocked, (blocks_iff (get properties x)).1 (h x (inl refl))))
      | inr free ↦
          let (to, from) = first_non_thunkable_effect-none_iff row properties in
          let here = (blocks_iff (get properties x)).0 free in
          rw free (
            λ h e m. elim m [ inl same ↦ rw same here | inr there ↦ to h e there ],
            λ h. from (λ e m. h e (inr m)),
          )
    ]

level_of_delayable : (o : Option EffectProperties) → IsDelayable o → rank (level_or_ffi o) ≤ 3
level_of_delayable none h = absurd h
level_of_delayable (some p) h = omega (arith, h.0)

-- A row is thunkable exactly when every effect has known properties of a level below
-- `SharedState` and neither of the two blocking flags.
pub is_thunkable_iff :
    (row : SortedEffectRow) (properties : Properties)
    → (is_thunkable row properties ≡ true) ↔ ((e : ℕ) → Elem e row → IsDelayable (get properties e))
unfolding is_thunkable effect_level
is_thunkable_iff row properties =
    let (to, from) = first_non_thunkable_effect-none_iff row properties in
    (
      λ h. to (ground arith),
      λ h.
          let low : rank (capability_of_row row properties) ≤ 3 =
            (capability_of_row_iff row properties 3).1 (λ e m. level-le e (h e m)) in
          let free = from h in ground arith,
    )
  where
    level-le : (e : ℕ) → IsDelayable (get properties e) → rank (effect_level properties e) ≤ 3
    level-le e d = level_of_delayable (get properties e) d
