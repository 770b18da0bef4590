-- ===== src/Memory/Liveness/Least.antt =====
-- crates/cielo-memory/src/refcount/analysis/cfg_liveness.rs: the solution found is the least one,
-- liveness along the paths of the graph.
use cielo.Prelude.{
  ℕ, zero, suc, ◌+◌, ◌*◌, ◌<◌, Bool, true, false, not, ◌||◌, ◌&&◌, some, List, [], length-replicate,
  replicate, ◌≡◌, ◌↔◌, inl, inr, refl, sym, arith, Bool-cases,
}
use cielo.Prelude.Explore.{mem}
use cielo.Memory.Liveness.{
  get_set, Flow, Live, new_out, solve, LiveIn, used, passed, IsClosed, IsLiveness,
}
use cielo.Memory.Liveness.Grow.{IsBounded, mem-new_out, mem-new_in}
use cielo.Memory.Liveness.Solve.{IsGood, Solves, solve-Solves, lt_or_le}

module _ (flow : Flow) (n bound : ℕ) (b : IsBounded flow n bound) where
  empty_get : (k i : ℕ) → get_set (replicate k []) i ≡ []
  empty_get zero i = refl
  empty_get (suc k) zero = refl
  empty_get (suc k) (suc i) = empty_get k i

  abbrev pub start : Live
  start = record { live_in = replicate n []; live_out = replicate n []; changed = true }

  start-IsGood : IsGood flow n bound b start
  start-IsGood = record {
    size_in = length-replicate n [];
    size_out = length-replicate n [];
    sorted_in = λ i. rw (empty_get n i) tt;
    sorted_out = λ i. rw (empty_get n i) tt;
    below_in = λ i v m. let m' : false ≡ true = rw (empty_get n i) at m in cc;
    below_out = λ i v m. let m' : false ≡ true = rw (empty_get n i) at m in cc;
    grows_in = λ i v m. let m' : false ≡ true = rw (empty_get n i) at m in cc;
    grows_out = λ i v m. let m' : false ≡ true = rw (empty_get n i) at m in cc;
    live = λ i v m. let m' : false ≡ true = rw (empty_get n i) at m in cc;
  }

  -- Where the equations hold, what is live is in the sets.
  live-mem :
      (s : Live)
      → IsClosed flow n
      → ((i : ℕ) → i < n → Solves flow n bound b s i)
      → {v i : ℕ} → LiveIn flow v i
      → mem v (get_set s.live_in i) ≡ true
  live-mem s closed solves {v} (used {i} m) = elim (lt_or_le i n) [
    | inl lt ↦ rw (solves i lt).1 ((mem-new_in flow i (new_out flow i s.live_in) v).1 (inl m))
    | inr le ↦ let m' : false ≡ true = rw (closed i le).0 at m in cc
  ]
  live-mem s closed solves {v} (passed {i} c m l free) = elim (lt_or_le i n) [
    | inl lt ↦
        let there = live-mem s closed solves l in
        let at_out = (mem-new_out flow i s.live_in v).1 (c, m, there) in
        rw (solves i lt).1 ((mem-new_in flow i (new_out flow i s.live_in) v).1 (inr (at_out, free)))
    | inr le ↦ let m' : false ≡ true = rw (closed i le).1 at m in cc
  ]

  pub solve-IsLiveness :
      (order : List ℕ) (fuel : ℕ)
      → IsClosed flow n
      → ((i : ℕ) → (mem i order ≡ true) ↔ (i < n))
      → n * bound + n * bound < fuel
      → (s : Live) × (solve flow fuel order start ≡ some s) × IsLiveness flow n s
  solve-IsLiveness order fuel closed covers room =
      let (s, returned, good, equations) =
        solve-Solves flow n bound b order fuel start (λ i m. (covers i).0 m) start-IsGood
          (omega arith) in
      let solves = λ (i : ℕ) (lt : i < n). equations i ((covers i).1 lt) in
      let entry = λ (i v : ℕ) (l : LiveIn flow v i). live-mem s closed solves l in
      (
        s,
        returned,
        record {
          at_entry = λ i v. (good.live i v, entry i v);
          at_exit = λ i v lt. rw (solves i lt).0 (
            λ m.
                let (c, mc, mv) = (mem-new_out flow i s.live_in v).0 m in (c, mc, good.live c v mv),
            λ (c, mc, l). (mem-new_out flow i s.live_in v).1 (c, mc, entry c v l),
          );
        },
      )

bool_ext : (a c : Bool) → ((a ≡ true) ↔ (c ≡ true)) → a ≡ c
bool_ext true c h = sym (h.0 refl)
bool_ext false true h = h.1 refl
bool_ext false false h = refl

-- The sets of liveness satisfy the equation of each block.
pub live_in-equation :
    (flow : Flow) (n : ℕ) (s : Live) (i v : ℕ)
    → IsLiveness flow n s
    → i < n
    → mem v (get_set s.live_in i)
      ≡ (mem v (flow.uses i) || mem v (get_set s.live_out i) && not (mem v (flow.defs i)))
live_in-equation flow n s i v solution lt = bool_ext _ _ (
  λ m. from_live ((solution.at_entry i v).0 m),
  λ h. elim (Bool-cases (mem v (flow.uses i))) [
    | inl e ↦ (solution.at_entry i v).1 (used e)
    | inr e ↦
        let at_out : mem v (get_set s.live_out i) ≡ true = ground arith in
        let free : mem v (flow.defs i) ≡ false = ground arith in
        let (c, mc, l) = (solution.at_exit i v lt).0 at_out in
        (solution.at_entry i v).1 (passed c mc l free)
  ],
)
  where
    from_live :
        LiveIn flow v i
        → (mem v (flow.uses i) || mem v (get_set s.live_out i) && not (mem v (flow.defs i))) ≡ true
    from_live (used m) = rw m
    from_live (passed c mc l free) =
        let at_out = (solution.at_exit i v lt).1 (c, mc, l) in ground arith
