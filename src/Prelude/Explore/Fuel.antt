-- ===== src/Prelude/Explore/Fuel.antt =====
-- An exploration ends: each round takes a node off the stack, and a node's neighbours are pushed
-- once, when it is marked.
use Prim.Native.Nat.{ℕ, zero, suc, ◌+◌, ◌≤◌, ◌<◌}
use mathlib.Core.Bool.{Bool, true, false}
use mathlib.Core.List.{List, [], ◌∷◌, ◌++◌}
use mathlib.Core.Path.{◌≡◌, refl, ap}
use mathlib.Core.Logic.{◌≢◌, ◌⊎◌, inl, inr}
use native.Mathlib.Omega.{arith}
use cielo.Prelude.Tests.{Bool-cases, ◌==◌, ==_iff}
use cielo.Prelude.Lists.{length, length-append}
use cielo.Prelude.Explore.{
  Visit, border, halt, expand, Turn, go, stop, Outcome, exhausted, halted, mark, explore, mem,
  degree, weight,
}

weight-above :
    (visit : ℕ → Visit) (n x : ℕ) (seen : List ℕ)
    → n ≤ x
    → weight visit n (x ∷ seen) ≡ weight visit n seen
weight-above visit zero x seen h = refl
weight-above visit (suc n) x seen h = ground (arith, weight-above visit n x seen, ==_iff n x)

pub weight-mark :
    (visit : ℕ → Visit) (n x : ℕ) (seen : List ℕ)
    → x < n
    → mem x seen ≡ false
    → weight visit n (x ∷ seen) + degree (visit x) ≡ weight visit n seen
weight-mark visit zero x seen h m = absurd (omega arith)
weight-mark visit (suc n) x seen h m = elim (Bool-cases (n == x)) [
  | inl e ↦
      let same : n ≡ x = (==_iff n x).0 e in
      let m' : mem n seen ≡ false = rw same m in
      let e' : (n == n) ≡ true = (==_iff n n).1 refl in
      rw (← same) (rw (e', m') (omega (arith, weight-above visit n n seen)))
  | inr e ↦
      let lt : x < n = ground (arith, ==_iff n x) in
      rw e (omega (arith, weight-mark visit n x seen lt m))
]

lt_or_le : (a b : ℕ) → (a < b) ⊎ (b ≤ a)
lt_or_le a b = omega arith

-- Nodes from `n` on have no neighbours.
abbrev pub IsBounded : (ℕ → Visit) → ℕ → Type 0
IsBounded visit n = (x : ℕ) → n ≤ x → degree (visit x) ≡ 0

weight-expand :
    (visit : ℕ → Visit) (n : ℕ) (bounded : IsBounded visit n) (x : ℕ) (next seen : List ℕ)
    → visit x ≡ expand next
    → mem x seen ≡ false
    → weight visit n (x ∷ seen) + length next ≡ weight visit n seen
weight-expand visit n bounded x next seen e m =
    let size : degree (visit x) ≡ length next = ap degree e in
    elim (lt_or_le x n) [
      | inl h ↦ omega (arith, weight-mark visit n x seen h m)
      | inr h ↦ omega (arith, weight-above visit n x seen h, bounded x h)
    ]

-- `explore` ends by its own test when the fuel covers the stack and the neighbours yet to push.
pub explore-ends :
    (visit : ℕ → Visit) (n : ℕ) (bounded : IsBounded visit n) (fuel : ℕ) (stack seen : List ℕ)
    (saw : Bool)
    → length stack + weight visit n seen ≤ fuel
    → explore visit fuel stack seen saw ≢ exhausted
unfolding explore
explore-ends visit n bounded zero [] seen saw h = λ e. cc
explore-ends visit n bounded (suc fuel) [] seen saw h = λ e. cc
explore-ends visit n bounded zero (x ∷ stack) seen saw h = absurd (omega arith)
explore-ends visit n bounded (suc fuel) (x ∷ stack) seen saw h =
    after (visit x) refl (mem x seen) refl
      (λ stack' seen' saw' h'. explore-ends visit n bounded fuel stack' seen' saw' h')
  where
    turned : Turn → Outcome
    turned t = elim t [
      | go stack' seen' saw' ↦ explore visit fuel stack' seen' saw'
      | stop seen' ↦ halted seen'
    ]

    after :
        (v : Visit)
        → visit x ≡ v
        → (m : Bool) → mem x seen ≡ m
        → ((stack' seen' : List ℕ) (saw' : Bool)
            → length stack' + weight visit n seen' ≤ fuel
            → explore visit fuel stack' seen' saw' ≢ exhausted)
        → turned (mark (visit x) x stack seen saw) ≢ exhausted
    after border e m em ih = rw e (ih stack seen true (omega arith))
    after halt e true em ih = rw e (rw em (ih stack seen saw (omega arith)))
    after halt e false em ih = rw e (rw em (λ same. cc))
    after (expand next) e true em ih = rw e (rw em (ih stack seen saw (omega arith)))
    after (expand next) e false em ih = rw e (
        rw em (
          ih (next ++ stack) (x ∷ seen) saw (
            omega
              (arith, length-append next stack, weight-expand visit n bounded x next seen e em))))
