-- ===== src/Memory/Managed/Least.antt =====
-- crates/cielo-memory/src/refcount/analysis/managed.rs: the classification returns the least set.
use cielo.Prelude.{
  ℕ, zero, suc, ◌+◌, ◌≤◌, ◌<◌, Bool, true, false, some, List, [], ◌∷◌, if◌then◌else◌, length,
  length-set, length-map, map, set, ◌≡◌, ◌↔◌, ◌⊎◌, Elem, All, refl, sym, subst, ap, ◌∙◌, arith, inl,
  inr, Bool-cases, ◌==◌, ==_iff,
}
use cielo.Ir.Cfg.Program.{CfgProgram, CfgValue}
use cielo.Memory.Managed.{
  is_managed, Source, of_value, always, never, source_is_managed, Marking, raise, fire, mark_all,
  Managed, given_managed, from_always, from_value, classify, block_moves,
}

abbrev unmarked : List Bool → ℕ
unmarked [] = 0
unmarked (flag ∷ flags) = (if flag then 0 else 1) + unmarked flags

is_managed-set :
    (flags : List Bool) (i j : ℕ)
    → i < length flags
    → is_managed (set flags i true) j ≡ (if i == j then true else is_managed flags j)
is_managed-set [] i j h = absurd (omega arith)
is_managed-set (f ∷ flags) zero zero h = refl
is_managed-set (f ∷ flags) zero (suc j) h = ground arith
is_managed-set (f ∷ flags) (suc i) zero h = ground arith
is_managed-set (f ∷ flags) (suc i) (suc j) h = ground (arith, is_managed-set flags i j)

unmarked-set :
    (flags : List Bool) (i : ℕ)
    → i < length flags
    → is_managed flags i ≡ false
    → unmarked (set flags i true) < unmarked flags
unmarked-set [] i h e = absurd (omega arith)
unmarked-set (f ∷ flags) zero h e = ground arith
unmarked-set (f ∷ flags) (suc i) h e = ground (arith, unmarked-set flags i)

unmarked-le : (flags : List Bool) → unmarked flags ≤ length flags
unmarked-le [] = omega arith
unmarked-le (f ∷ flags) = ground (arith, unmarked-le flags)

-- What a move asks of the flags.
abbrev Holds : List Bool → Source × ℕ → Type 0
Holds managed m = source_is_managed m.0 managed ≡ true → is_managed managed m.1 ≡ true

abbrev pub Targets : ℕ → List (Source × ℕ) → Type 0
Targets n = All (λ m. m.1 < n)

module _ (given : List Bool) (all_moves : List (Source × ℕ)) where
  record Good (managed : List Bool) : Type 0 where
    size : length managed ≡ length given
    kept : (v : ℕ) → is_managed given v ≡ true → is_managed managed v ≡ true
    sound : (v : ℕ) → is_managed managed v ≡ true → Managed given all_moves v

  -- Nothing changed and the moves hold, or a flag was raised.
  abbrev Progress : List (Source × ℕ) → Marking → Marking → Type 0
  Progress moves s s' =
      ((s' ≡ s) × All (Holds s.managed) moves)
      ⊎ ((s'.changed ≡ true) × (unmarked s'.managed < unmarked s.managed))

  raise-Good :
      (source : Source) (value : ℕ) (managed : List Bool)
      → Elem (source, value) all_moves
      → value < length given
      → source_is_managed source managed ≡ true
      → Good managed
      → Good (set managed value true)
  raise-Good source value managed m lt e g = record {
    size = length-set managed value true ∙ g.size;
    kept = λ v h. ground (arith, is_managed-set managed value v, g.kept v, g.size);
    sound = λ v h. elim (Bool-cases (value == v)) [
      | inl same ↦
          subst (λ (v : ℕ). Managed given all_moves v) ((==_iff value v).0 same) (derive source m e)
      | inr other ↦ g.sound v (ground (arith, is_managed-set managed value v, g.size))
    ];
  }
    where
      derive :
          (source : Source)
          → Elem (source, value) all_moves
          → source_is_managed source managed ≡ true
          → Managed given all_moves value
      derive (of_value w) m e = from_value w (g.sound w e) m
      derive always m e = from_always m
      derive never m e = cc

  fire-Progress :
      (moves : List (Source × ℕ)) (s : Marking)
      → ((m : Source × ℕ) → Elem m moves → Elem m all_moves)
      → Targets (length given) moves
      → Good s.managed
      → Good (fire moves s).managed × Progress moves s (fire moves s)
  unfolding fire
  fire-Progress [] s sub lt g = (g, inl (refl, tt))
  fire-Progress ((source, value) ∷ moves) s sub (here, lt) g =
      split (source_is_managed source s.managed) refl (is_managed s.managed value) refl
        (λ s' g'. fire-Progress moves s' (λ m e. sub m (inr e)) lt g')
    where
      moved :
          (n : Marking)
          → (if source_is_managed source s.managed then raise value s else s) ≡ n
          → Good (fire moves n).managed × Progress ((source, value) ∷ moves) s (fire moves n)
          → Good (fire ((source, value) ∷ moves) s).managed
            × Progress ((source, value) ∷ moves) s (fire ((source, value) ∷ moves) s)
      moved n e h =
          subst
            (λ (n : Marking).
              Good (fire moves n).managed × Progress ((source, value) ∷ moves) s (fire moves n))
            (sym e) h

      extend :
          (n : Marking)
          → Holds n.managed (source, value)
          → Good (fire moves n).managed × Progress moves n (fire moves n)
          → Good (fire moves n).managed × Progress ((source, value) ∷ moves) n (fire moves n)
      extend n holds (g', inl (same, rest)) = (g', inl (same, (holds, rest)))
      extend n holds (g', inr more) = (g', inr more)

      grown :
          (n : Marking)
          → unmarked n.managed < unmarked s.managed
          → n.changed ≡ true
          → Good (fire moves n).managed × Progress moves n (fire moves n)
          → Good (fire moves n).managed × Progress ((source, value) ∷ moves) s (fire moves n)
      grown n less c (g', inl (same, rest)) = (
        g',
        inr (
          ap (λ (s : Marking). s.changed) same ∙ c,
          omega (arith, ap (λ (s : Marking). unmarked s.managed) same),
        ),
      )
      grown n less c (g', inr (c', more)) = (g', inr (c', omega arith))

      split :
          (b : Bool)
          → source_is_managed source s.managed ≡ b
          → (c : Bool) → is_managed s.managed value ≡ c
          → ((s' : Marking)
              → Good s'.managed
              → Good (fire moves s').managed × Progress moves s' (fire moves s'))
          → Good (fire ((source, value) ∷ moves) s).managed
            × Progress ((source, value) ∷ moves) s (fire ((source, value) ∷ moves) s)
      split false e c ec ih = moved s (rw e) (extend s (λ h. cc) (ih s g))
      split true e true ec ih = moved s (rw (e, ec)) (extend s (λ h. ec) (ih s g))
      split true e false ec ih =
          let s' : Marking = record { managed = set s.managed value true; changed = true } in
          let g' = raise-Good source value s.managed (sub (source, value) (inl refl)) here e g in
          let less = unmarked-set s.managed value (omega (arith, g.size)) ec in
          moved s' (rw (e, ec)) (grown s' less refl (ih s' g'))

  -- Rounds beyond the flags that are not set suffice.
  mark_all-Good :
      (fuel : ℕ) (s : Marking)
      → Targets (length given) all_moves
      → Good s.managed
      → unmarked s.managed < fuel
      → (flags : List Bool) × (mark_all fuel all_moves s ≡ some flags)
        × Good flags
        × All (Holds flags) all_moves
  unfolding mark_all
  mark_all-Good zero s lt g room = absurd (omega arith)
  mark_all-Good (suc fuel) s lt g room =
      decide (fire all_moves (record s { changed = false })).changed refl
        (fire-Progress all_moves (record s { changed = false }) (λ m e. e) lt g)
        (λ g' more. mark_all-Good fuel (fire all_moves (record s { changed = false })) lt g' more)
    where
      decide :
          (c : Bool)
          → (fire all_moves (record s { changed = false })).changed ≡ c
          → Good (fire all_moves (record s { changed = false })).managed
            × Progress all_moves
                (record s { changed = false })
                (fire all_moves (record s { changed = false }))
          → (Good (fire all_moves (record s { changed = false })).managed
              → unmarked (fire all_moves (record s { changed = false })).managed < fuel
              → (flags : List Bool) × (mark_all fuel all_moves
                    (fire all_moves (record s { changed = false }))
                  ≡ some flags)
                × Good flags
                × All (Holds flags) all_moves)
          → (flags : List Bool) × (mark_all (suc fuel) all_moves s ≡ some flags)
            × Good flags
            × All (Holds flags) all_moves
      decide false e (g', inl (same, holds)) ih = (
        (fire all_moves (record s { changed = false })).managed,
        rw e,
        g',
        subst (λ (n : Marking). All (Holds n.managed) all_moves) (sym same) holds,
      )
      decide false e (g', inr (c, more)) ih = cc
      decide true e (g', inl (same, holds)) ih = let c = ap (λ (s : Marking). s.changed) same in cc
      decide true e (g', inr (c, more)) ih =
          let (flags, returned, good, holds) = ih g' (omega arith) in
          (flags, rw e returned, good, holds)

  start-Good : Good given
  start-Good = record { size = refl; kept = λ v h. h; sound = λ v h. given_managed h }

  Holds-Elem :
      (managed : List Bool) (moves : List (Source × ℕ)) (m : Source × ℕ)
      → All (Holds managed) moves
      → Elem m moves
      → Holds managed m
  Holds-Elem managed [] m h e = absurd e
  Holds-Elem managed (x ∷ moves) m (h, hs) (inl same) = subst (Holds managed) (sym same) h
  Holds-Elem managed (x ∷ moves) m (h, hs) (inr later) = Holds-Elem managed moves m hs later

  complete :
      (flags : List Bool)
      → Good flags
      → All (Holds flags) all_moves
      → {v : ℕ} → Managed given all_moves v
      → is_managed flags v ≡ true
  complete flags g h {v} (given_managed e) = g.kept v e
  complete flags g h {v} (from_always m) = Holds-Elem flags all_moves (always, v) h m refl
  complete flags g h {v} (from_value w d m) =
      Holds-Elem flags all_moves (of_value w, v) h m (complete flags g h d)

  mark_all-Managed :
      Targets (length given) all_moves
      → (flags : List Bool) × (mark_all
            (suc (length given))
            all_moves
            (record { managed = given; changed = true })
          ≡ some flags)
        × ((v : ℕ) → (is_managed flags v ≡ true) ↔ Managed given all_moves v)
  mark_all-Managed lt =
      let (flags, returned, good, holds) =
        mark_all-Good (suc (length given)) (record { managed = given; changed = true }) lt
          start-Good (omega (arith, unmarked-le given)) in
      (flags, returned, λ v. (good.sound v, complete flags good holds))

-- The classification of a program returns, if the values that its moves raise are in range, and a
-- value is classified as managed exactly when it is given as such or follows, through moves, an
-- expression that is.
pub classify-Managed :
    {F : Type 0} (cfg : CfgProgram F) (facts : ℕ → Bool)
    → Targets (length cfg.values) (block_moves cfg cfg.blocks)
    → (flags : List Bool) × (classify cfg facts ≡ some flags)
      × ((v : ℕ)
          → (is_managed flags v ≡ true)
            ↔ Managed (map (λ value. facts value.id) cfg.values) (block_moves cfg cfg.blocks) v)
unfolding classify
classify-Managed cfg facts lt =
    let given = map (λ (value : CfgValue). facts value.id) cfg.values in
    let size : length given ≡ length cfg.values =
      length-map (λ (value : CfgValue). facts value.id) cfg.values in
    let lt' : Targets (length given) (block_moves cfg cfg.blocks) =
      subst (λ (n : ℕ). Targets n (block_moves cfg cfg.blocks)) (sym size) lt in
    let (flags, returned, exact) = mark_all-Managed given (block_moves cfg cfg.blocks) lt' in
    (
      flags,
      subst
          (λ (n : ℕ).
            mark_all (suc n) (block_moves cfg cfg.blocks)
              (record { managed = given; changed = true })
            ≡ some flags)
          size returned,
      exact,
    )
