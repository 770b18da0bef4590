-- ===== src/Memory/Liveness/Solve.antt =====
-- crates/cielo-memory/src/refcount/analysis/cfg_liveness.rs: the loop ends at the least solution of
-- the equations.
use cielo.Prelude.{
  ℕ, zero, suc, ◌+◌, ◌*◌, ◌≤◌, ◌<◌, Bool, true, false, not, ◌||◌, some, List, [], ◌∷◌, length, ◌≡◌,
  ◌⊎◌, inl, inr, refl, sym, subst, ap, ◌∙◌, arith, ◌==◌, ==_iff, Bool-cases,
}
use cielo.Prelude.Classes.{text_beq, text_beq_iff}
use cielo.Prelude.Sorted.{IsSorted}
use cielo.Prelude.Explore.{mem}
use cielo.Memory.Liveness.{get_set, put, Flow, Live, new_out, new_in, visit_block, round, solve}
use cielo.Memory.Liveness.Sets.{mem-Elem, sub_length, sorted_length, total, total-set, total-le}
use cielo.Memory.Liveness.Grow.{IsBounded, Good, visit-Good, out-IsSorted, entry-IsSorted}

pub lt_or_le : (a c : ℕ) → (a < c) ⊎ (c ≤ a)
lt_or_le a c = omega arith

-- A write that leaves the sets as they were, or that makes them larger.
abbrev Writes : List (List ℕ) → ℕ → List ℕ → Type 0
Writes sets i new =
    ((text_beq new (get_set sets i) ≡ true) × (put sets i new ≡ sets) × (get_set sets i ≡ new))
    ⊎ ((text_beq new (get_set sets i) ≡ false) × (total sets < total (put sets i new)))

Writes-le :
    (sets : List (List ℕ)) (i : ℕ) (new : List ℕ)
    → Writes sets i new
    → total sets ≤ total (put sets i new)
Writes-le sets i new (inl (e, same, _)) = let size = ap total same in omega arith
Writes-le sets i new (inr (e, lt)) = omega arith

or_true : (c x y : Bool) → (x ≡ true) ⊎ (y ≡ true) → (c || (x || y)) ≡ true
or_true true x y h = refl
or_true false true y h = refl
or_true false false true h = refl
or_true false false false h = elim h [ inl e ↦ e | inr e ↦ e ]

or_false : (c : Bool) → (c || (false || false)) ≡ c
or_false true = refl
or_false false = refl

put-Writes :
    (sets : List (List ℕ)) (i : ℕ) (new : List ℕ)
    → i < length sets
    → IsSorted (get_set sets i)
    → IsSorted new
    → ((v : ℕ) → mem v (get_set sets i) ≡ true → mem v new ≡ true)
    → Writes sets i new
put-Writes sets i new h old_sorted new_sorted sub =
    elim (Bool-cases (text_beq new (get_set sets i))) [
      | inl e ↦ inl (e, rw e, sym ((text_beq_iff new (get_set sets i)).0 e))
      | inr e ↦
          elim (sub_length (get_set sets i) new old_sorted new_sorted
            (λ v m. (mem-Elem v new).0 (sub v ((mem-Elem v (get_set sets i)).1 m)))) [
              | inl lt ↦ inr (e, rw e (omega (arith, total-set sets i new h)))
              | inr same ↦ let e' = (text_beq_iff new (get_set sets i)).1 (sym same) in cc
            ]
    ]

abbrev pub measure : Live → ℕ
measure s = total s.live_in + total s.live_out

module _ (flow : Flow) (n bound : ℕ) (b : IsBounded flow n bound) where
  abbrev pub IsGood : Live → Type 0
  IsGood s = Good flow n bound s.live_in s.live_out

  -- The equations of a block hold.
  abbrev pub Solves : Live → ℕ → Type 0
  Solves s i =
      (get_set s.live_out i ≡ new_out flow i s.live_in)
      × (get_set s.live_in i ≡ new_in flow i (new_out flow i s.live_in))

  -- Nothing changed and the equations of the blocks visited hold, or the sets grew.
  abbrev Progress : List ℕ → Live → Live → Type 0
  Progress order s s' =
      ((s'.changed ≡ s.changed)
        × (s'.live_in ≡ s.live_in)
        × (s'.live_out ≡ s.live_out)
        × ((i : ℕ) → mem i order ≡ true → Solves s i))
      ⊎ ((s'.changed ≡ true) × (measure s < measure s'))

  visit_block-IsGood : (i : ℕ) (s : Live) → i < n → IsGood s → IsGood (visit_block flow i s)
  unfolding visit_block
  visit_block-IsGood i s lt g = visit-Good flow n bound b i lt s.live_in s.live_out g

  visit_block-Progress :
      (i : ℕ) (s : Live) → i < n → IsGood s → Progress (i ∷ []) s (visit_block flow i s)
  unfolding visit_block
  visit_block-Progress i s lt g =
      combine
        (put-Writes s.live_out i (new_out flow i s.live_in) (omega (arith, g.size_out))
          (g.sorted_out i) (out-IsSorted flow n bound b i lt s.live_in s.live_out g)
          (g.grows_out i))
        (put-Writes s.live_in i (new_in flow i (new_out flow i s.live_in))
          (omega (arith, g.size_in)) (g.sorted_in i)
          (entry-IsSorted flow n bound b i lt s.live_in s.live_out g) (g.grows_in i))
    where
      combine :
          Writes s.live_out i (new_out flow i s.live_in)
          → Writes s.live_in i (new_in flow i (new_out flow i s.live_in))
          → Progress (i ∷ []) s (visit_block flow i s)
      combine (inl (bo, eo, fo)) (inl (be, ee, fe)) = inl (
        rw (bo, be) (or_false s.changed),
        ee,
        eo,
        λ j m.
            let same : i ≡ j = ground (arith, ==_iff j i) in
            subst (λ (j : ℕ). Solves s j) same (fo, fe),
      )
      combine (inr (bo, lo)) e = inr (
        or_true s.changed (not (text_beq (new_out flow i s.live_in) (get_set s.live_out i)))
            (not (text_beq (new_in flow i (new_out flow i s.live_in)) (get_set s.live_in i)))
            (inl (rw bo)),
        omega (arith, Writes-le _ _ _ e),
      )
      combine (inl o) (inr (be, le)) = inr (
        or_true s.changed (not (text_beq (new_out flow i s.live_in) (get_set s.live_out i)))
            (not (text_beq (new_in flow i (new_out flow i s.live_in)) (get_set s.live_in i)))
            (inr (rw be)),
        omega (arith, Writes-le s.live_out i _ (inl o)),
      )

  round-IsGood :
      (order : List ℕ) (s : Live)
      → ((i : ℕ) → mem i order ≡ true → i < n)
      → IsGood s
      → IsGood (round flow order s)
  unfolding round
  round-IsGood [] s lt g = g
  round-IsGood (i ∷ order) s lt g =
      round-IsGood order (visit_block flow i s) (λ j m. lt j (ground arith))
        (visit_block-IsGood i s (lt i (ground (arith, ==_iff i i))) g)

  back :
      (s s' : Live)
      → s'.live_in ≡ s.live_in
      → s'.live_out ≡ s.live_out
      → (j : ℕ) → Solves s' j
      → Solves s j
  back s s' ei eo j h = rw (← ei, ← eo) h

  round-Progress :
      (order : List ℕ) (s : Live)
      → ((i : ℕ) → mem i order ≡ true → i < n)
      → IsGood s
      → Progress order s (round flow order s)
  unfolding round
  round-Progress [] s lt g = inl (refl, refl, refl, λ i m. cc)
  round-Progress (i ∷ order) s lt g =
      let here : i < n = lt i (ground (arith, ==_iff i i)) in
      combine (visit_block-Progress i s here g) (
        round-Progress order (visit_block flow i s) (λ j m. lt j (ground arith))
          (visit_block-IsGood i s here g))
    where
      combine :
          Progress (i ∷ []) s (visit_block flow i s)
          → Progress order (visit_block flow i s) (round flow order (visit_block flow i s))
          → Progress (i ∷ order) s (round flow order (visit_block flow i s))
      combine (inl (c, ei, eo, h)) (inl (c', ei', eo', h')) = inl (
        c' ∙ c,
        ei' ∙ ei,
        eo' ∙ eo,
        λ j m. elim (Bool-cases (j == i)) [
          | inl e ↦ h j (rw e)
          | inr e ↦ back s (visit_block flow i s) ei eo j (h' j (rw e at m))
        ],
      )
      combine (inl (c, ei, eo, h)) (inr (c', lt')) =
          inr (c', omega (arith, ap total ei, ap total eo))
      combine (inr (c, lt')) (inl (c', ei', eo', h')) =
          inr (c' ∙ c, omega (arith, ap total ei', ap total eo'))
      combine (inr (c, lt')) (inr (c', lt'')) = inr (c', omega arith)

  total-bound :
      (sets : List (List ℕ))
      → length sets ≡ n
      → ((i : ℕ) → IsSorted (get_set sets i))
      → ((i v : ℕ) → mem v (get_set sets i) ≡ true → v < bound)
      → total sets ≤ n * bound
  total-bound sets size sorted below =
      let each : total sets ≤ length sets * bound = total-le sets bound λ i.
        sorted_length bound 0 (get_set sets i) (sorted i) λ v m.
          let lt = below i v ((mem-Elem v (get_set sets i)).1 m) in (omega arith, omega arith) in
      subst (λ (k : ℕ). total sets ≤ k * bound) size each

  measure_bound : (s : Live) → IsGood s → measure s ≤ n * bound + n * bound
  measure_bound s g = omega (
    arith,
    total-bound s.live_in g.size_in g.sorted_in g.below_in,
    total-bound s.live_out g.size_out g.sorted_out g.below_out,
  )

  -- A round fewer than the room that is left for the sets suffices.
  pub solve-Solves :
      (order : List ℕ) (fuel : ℕ) (s : Live)
      → ((i : ℕ) → mem i order ≡ true → i < n)
      → IsGood s
      → n * bound + n * bound < fuel + measure s
      → (s' : Live) × (solve flow fuel order s ≡ some s')
        × IsGood s'
        × ((i : ℕ) → mem i order ≡ true → Solves s' i)
  unfolding solve
  solve-Solves order zero s lt g room = absurd (omega (arith, measure_bound s g))
  solve-Solves order (suc fuel) s lt g room =
      decide (round flow order (record s { changed = false })).changed refl
        (round-Progress order (record s { changed = false }) lt g)
        (λ more.
          solve-Solves order fuel (round flow order (record s { changed = false })) lt good more)
    where
      good : IsGood (round flow order (record s { changed = false }))
      good = round-IsGood order (record s { changed = false }) lt g

      decide :
          (c : Bool)
          → (round flow order (record s { changed = false })).changed ≡ c
          → Progress order
              (record s { changed = false })
              (round flow order (record s { changed = false }))
          → (n * bound + n * bound
                < fuel + measure (round flow order (record s { changed = false }))
              → (s' : Live) × (solve flow fuel order
                    (round flow order (record s { changed = false }))
                  ≡ some s')
                × IsGood s'
                × ((i : ℕ) → mem i order ≡ true → Solves s' i))
          → (s' : Live) × (solve flow (suc fuel) order s ≡ some s')
            × IsGood s'
            × ((i : ℕ) → mem i order ≡ true → Solves s' i)
      decide false e (inl (c, ei, eo, h)) ih =
          (round flow order (record s { changed = false }), rw e, good, λ i m. rw (ei, eo) (h i m))
      decide false e (inr (c, more)) ih = cc
      decide true e (inl (c, ei, eo, h)) ih = cc
      decide true e (inr (c, more)) ih =
          let (s', returned, kept, rest) = ih (omega arith) in (s', rw e returned, kept, rest)
