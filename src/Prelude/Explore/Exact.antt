-- ===== src/Prelude/Explore/Exact.antt =====
-- What an exploration marks: an invariant of its rounds.
use Prim.Native.Nat.{ℕ, zero, suc, ◌≤◌}
use mathlib.Core.Bool.{Bool, true, false}
use mathlib.Core.List.{List, [], ◌∷◌, ◌++◌}
use mathlib.Core.Path.{◌≡◌, refl}
use mathlib.Core.Logic.{◌≢◌, ◌⊎◌, inl, inr}
use native.Mathlib.Omega.{arith}
use cielo.Prelude.Tests.{==_iff}
use cielo.Prelude.Elems.{Elem-append, Elem-append_left, Elem-append_right}
use cielo.Prelude.Lists.{Elem}
use cielo.Prelude.Explore.{
  Visit, border, halt, expand, Turn, go, stop, Outcome, exhausted, halted, done, mark, explore, mem,
  Reach, here, step, IsExpanded, IsExact, weight,
}
use cielo.Prelude.Explore.Fuel.{IsBounded, explore-ends}

module _ (visit : ℕ → Visit) (root : ℕ) where
  -- A node met already: still to visit, marked, or a border that was noted.
  abbrev IsMet : (stack seen : List ℕ) → Bool → ℕ → Type 0
  IsMet stack seen saw y = Elem y stack ⊎ (mem y seen ≡ true) ⊎ ((visit y ≡ border) × (saw ≡ true))

  record Inv (stack seen : List ℕ) (saw : Bool) : Type 0 where
    stacked : (y : ℕ) → Elem y stack → Reach visit root y
    marked : (y : ℕ) → mem y seen ≡ true → Reach visit root y × IsExpanded (visit y)
    noted : saw ≡ true → (y : ℕ) × Reach visit root y × (visit y ≡ border)
    closed :
        (x y : ℕ) (next : List ℕ)
        → mem x seen ≡ true
        → visit x ≡ expand next
        → Elem y next
        → IsMet stack seen saw y
    rooted : IsMet stack seen saw root

  Inv-start : Inv (root ∷ []) [] false
  Inv-start = record {
    stacked = λ y h. elim h [ inl e ↦ rw e here | inr e ↦ absurd e ];
    marked = λ y h. cc;
    noted = λ h. cc;
    closed = λ x y next h e m. cc;
    rooted = inl (inl refl);
  }

  Inv-border :
      (x : ℕ) (stack seen : List ℕ) (saw : Bool)
      → visit x ≡ border
      → Inv (x ∷ stack) seen saw
      → Inv stack seen true
  Inv-border x stack seen saw e v = record {
    stacked = λ y h. v.stacked y (inr h);
    marked = v.marked;
    noted = λ _. (x, v.stacked x (inl refl), e);
    closed = λ z y next h ez m. move y (v.closed z y next h ez m);
    rooted = move root v.rooted;
  }
    where
      move : (y : ℕ) → IsMet (x ∷ stack) seen saw y → IsMet stack seen true y
      move y (inl (inl same)) = inr (inr (rw same e, refl))
      move y (inl (inr m)) = inl m
      move y (inr (inl m)) = inr (inl m)
      move y (inr (inr m)) = inr (inr (m.0, refl))

  Inv-repeat :
      (x : ℕ) (stack seen : List ℕ) (saw : Bool)
      → mem x seen ≡ true
      → Inv (x ∷ stack) seen saw
      → Inv stack seen saw
  Inv-repeat x stack seen saw e v = record {
    stacked = λ y h. v.stacked y (inr h);
    marked = v.marked;
    noted = v.noted;
    closed = λ z y next h ez m. move y (v.closed z y next h ez m);
    rooted = move root v.rooted;
  }
    where
      move : (y : ℕ) → IsMet (x ∷ stack) seen saw y → IsMet stack seen saw y
      move y (inl (inl same)) = inr (inl (rw same e))
      move y (inl (inr m)) = inl m
      move y (inr m) = inr m

  Inv-expand :
      (x : ℕ) (next stack seen : List ℕ) (saw : Bool)
      → visit x ≡ expand next
      → Inv (x ∷ stack) seen saw
      → Inv (next ++ stack) (x ∷ seen) saw
  Inv-expand x next stack seen saw e v = record {
    stacked = λ y h. elim (Elem-append y next stack h) [
      | inl m ↦ step next reached e m
      | inr m ↦ v.stacked y (inr m)
    ];
    marked = λ y h. elim (mem-cons y h) [
      | inl same ↦ (rw same reached, (next, rw same e))
      | inr m ↦ v.marked y m
    ];
    noted = v.noted;
    closed = λ z y next' h ez m. elim (mem-cons z h) [
      | inl same ↦
          let e' : expand next ≡ expand next' = rw (same, e) at ez in
          let eq : next ≡ next' = cc in inl (Elem-append_left y next stack (rw eq m))
      | inr old ↦ move y (v.closed z y next' old ez m)
    ];
    rooted = move root v.rooted;
  }
    where
      reached : Reach visit root x
      reached = v.stacked x (inl refl)

      mem-cons : (y : ℕ) → mem y (x ∷ seen) ≡ true → (y ≡ x) ⊎ (mem y seen ≡ true)
      mem-cons y h = ground (arith, ==_iff y x)

      move : (y : ℕ) → IsMet (x ∷ stack) seen saw y → IsMet (next ++ stack) (x ∷ seen) saw y
      move y (inl (inl same)) = inr (inl (ground (arith, ==_iff y x)))
      move y (inl (inr m)) = inl (Elem-append_right y next stack m)
      move y (inr (inl m)) = inr (inl (ground arith))
      move y (inr (inr m)) = inr (inr m)

  -- At the end of the stack, everything reachable has been met.
  Reach-IsMet :
      (seen : List ℕ) (saw : Bool)
      → Inv [] seen saw
      → {y : ℕ} → Reach visit root y
      → IsMet [] seen saw y
  Reach-IsMet seen saw v here = v.rooted
  Reach-IsMet seen saw v (step {x} {y} next r e m) = elim (Reach-IsMet seen saw v r) [
    | inl none_left ↦ absurd none_left
    | inr (inl old) ↦ v.closed x y next old e m
    | inr (inr at_border) ↦ cc
  ]

  Inv-IsExact : (seen : List ℕ) (saw : Bool) → Inv [] seen saw → IsExact visit root (done seen saw)
  Inv-IsExact seen saw v = (
    λ y. (
      v.marked y,
      λ r. elim (Reach-IsMet seen saw v r.0) [
        | inl none_left ↦ absurd none_left
        | inr (inl old) ↦ old
        | inr (inr at_border) ↦ absurd (border_IsExpanded at_border.0 r.1)
      ],
    ),
    (
      v.noted,
      λ r. elim (Reach-IsMet seen saw v r.1) [
        | inl none_left ↦ absurd none_left
        | inr (inl old) ↦ absurd (border_IsExpanded r.2 (v.marked r.0 old).1)
        | inr (inr at_border) ↦ at_border.1
      ],
    ),
    λ y r e. elim (Reach-IsMet seen saw v r) [
      | inl none_left ↦ absurd none_left
      | inr (inl old) ↦ halt_IsExpanded e (v.marked y old).1
      | inr (inr at_border) ↦ cc
    ],
  )
    where
      border_IsExpanded : {y : ℕ} → visit y ≡ border → IsExpanded (visit y) → ⊥
      border_IsExpanded e (next, e') = cc

      halt_IsExpanded : {y : ℕ} → visit y ≡ halt → IsExpanded (visit y) → ⊥
      halt_IsExpanded e (next, e') = cc

  explore-Inv :
      (fuel : ℕ) (stack seen : List ℕ) (saw : Bool)
      → Inv stack seen saw
      → explore visit fuel stack seen saw ≢ exhausted
      → IsExact visit root (explore visit fuel stack seen saw)
  unfolding explore
  explore-Inv zero [] seen saw v h = Inv-IsExact seen saw v
  explore-Inv (suc fuel) [] seen saw v h = Inv-IsExact seen saw v
  explore-Inv zero (x ∷ stack) seen saw v h = absurd (h refl)
  explore-Inv (suc fuel) (x ∷ stack) seen saw v h =
      after (visit x) refl (mem x seen) refl
        (λ stack' seen' saw' v' h'. explore-Inv fuel stack' seen' saw' v' h') h
    where
      turned : Turn → Outcome
      turned t = elim t [
        | go stack' seen' saw' ↦ explore visit fuel stack' seen' saw'
        | stop seen' ↦ halted seen'
      ]

      after :
          (w : Visit)
          → visit x ≡ w
          → (m : Bool) → mem x seen ≡ m
          → ((stack' seen' : List ℕ) (saw' : Bool)
              → Inv stack' seen' saw'
              → explore visit fuel stack' seen' saw' ≢ exhausted
              → IsExact visit root (explore visit fuel stack' seen' saw'))
          → turned (mark (visit x) x stack seen saw) ≢ exhausted
          → IsExact visit root (turned (mark (visit x) x stack seen saw))
      after border e m em ih = rw e (ih stack seen true (Inv-border x stack seen saw e v))
      after halt e true em ih = rw e (rw em (ih stack seen saw (Inv-repeat x stack seen saw em v)))
      after halt e false em ih = rw e (rw em (λ _. (x, v.stacked x (inl refl), e)))
      after (expand next) e true em ih =
          rw e (rw em (ih stack seen saw (Inv-repeat x stack seen saw em v)))
      after (expand next) e false em ih =
          rw e (rw em (ih (next ++ stack) (x ∷ seen) saw (Inv-expand x next stack seen saw e v)))

-- An exploration from `root` with enough fuel is exact.
pub explore-IsExact :
    (visit : ℕ → Visit) (n : ℕ) (bounded : IsBounded visit n) (root fuel : ℕ)
    → suc (weight visit n []) ≤ fuel
    → IsExact visit root (explore visit fuel (root ∷ []) [] false)
explore-IsExact visit n bounded root fuel h =
    explore-Inv visit root fuel (root ∷ []) [] false (Inv-start visit root)
      (explore-ends visit n bounded fuel (root ∷ []) [] false (omega arith))
