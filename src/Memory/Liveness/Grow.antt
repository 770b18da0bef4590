-- ===== src/Memory/Liveness/Grow.antt =====
-- crates/cielo-memory/src/refcount/analysis/cfg_liveness.rs: a visit of a block keeps the invariant
-- of the loop, and adds values only.
use cielo.Prelude.{
  ℕ, ◌<◌, true, false, not, List, [], length, length-set, ◌≡◌, ◌↔◌, ◌⊎◌, inl, inr, subst, arith,
  ◌==◌, ==_iff, Bool-cases,
}
use cielo.Prelude.Classes.{text_beq}
use cielo.Prelude.Sorted.{IsSorted}
use cielo.Prelude.Explore.{mem}
use cielo.Prelude.NatSet.{keep, mem-insert_all, mem-keep}
use cielo.Memory.Liveness.{get_set, put, Flow, new_out, new_in, LiveIn, used, passed}
use cielo.Memory.Liveness.Sets.{insert_all-IsSorted, gather-IsSorted, Sub, mem-gather, get_set-put}

module _ (flow : Flow) where
  open flow use {successors, uses, defs}

  pub mem-new_out :
      (i : ℕ) (ins : List (List ℕ)) (v : ℕ)
      → (mem v (new_out flow i ins) ≡ true)
        ↔ ((c : ℕ) × (mem c (successors i) ≡ true) × (mem v (get_set ins c) ≡ true))
  unfolding new_out
  mem-new_out i ins v =
      let all = mem-gather (successors i) ins [] v in
      (λ h. elim (all.0 h) [ inl m ↦ cc | inr found ↦ found ], λ found. all.1 (inr found))

  pub mem-new_in :
      (i : ℕ) (out : List ℕ) (v : ℕ)
      → (mem v (new_in flow i out) ≡ true)
        ↔ ((mem v (uses i) ≡ true) ⊎ ((mem v out ≡ true) × (mem v (defs i) ≡ false)))
  unfolding new_in
  mem-new_in i out v = ground (
    arith,
    mem-insert_all (keep (λ value. not (mem value (defs i))) out) (uses i) v,
    mem-keep (λ value. not (mem value (defs i))) out v,
  )

  new_out_mono :
      (i : ℕ) (ins ins' : List (List ℕ))
      → Sub ins ins'
      → (v : ℕ) → mem v (new_out flow i ins) ≡ true
      → mem v (new_out flow i ins') ≡ true
  new_out_mono i ins ins' sub v h =
      let (c, mc, mv) = (mem-new_out i ins v).0 h in (mem-new_out i ins' v).1 (c, mc, sub c v mv)

  new_in_mono :
      (i : ℕ) (out out' : List ℕ)
      → ((v : ℕ) → mem v out ≡ true → mem v out' ≡ true)
      → (v : ℕ) → mem v (new_in flow i out) ≡ true
      → mem v (new_in flow i out') ≡ true
  new_in_mono i out out' sub v h = elim ((mem-new_in i out v).0 h) [
    | inl m ↦ (mem-new_in i out' v).1 (inl m)
    | inr (m, free) ↦ (mem-new_in i out' v).1 (inr (sub v m, free))
  ]

  -- `n` blocks, and values below `bound`
  module _ (n bound : ℕ) where
    pub record IsBounded : Type 0 where
      pub used_below : (i v : ℕ) → mem v (uses i) ≡ true → v < bound
      pub uses_sorted : (i : ℕ) → IsSorted (uses i)

    -- What the loop keeps: sets grow towards the equations, and hold only values that are live.
    pub record Good (ins outs : List (List ℕ)) : Type 0 where
      pub size_in : length ins ≡ n
      pub size_out : length outs ≡ n
      pub sorted_in : (i : ℕ) → IsSorted (get_set ins i)
      pub sorted_out : (i : ℕ) → IsSorted (get_set outs i)
      pub below_in : (i v : ℕ) → mem v (get_set ins i) ≡ true → v < bound
      pub below_out : (i v : ℕ) → mem v (get_set outs i) ≡ true → v < bound
      pub grows_in :
          (i v : ℕ)
          → mem v (get_set ins i) ≡ true
          → mem v (new_in flow i (new_out flow i ins)) ≡ true
      pub grows_out : (i v : ℕ) → mem v (get_set outs i) ≡ true → mem v (new_out flow i ins) ≡ true
      pub live : (i v : ℕ) → mem v (get_set ins i) ≡ true → LiveIn flow v i

    module _ (b : IsBounded) (i : ℕ) (lt : i < n) (ins outs : List (List ℕ))
        (g : Good ins outs) where
      open g use {
        size_in, size_out, sorted_in, sorted_out, below_in, below_out, grows_in, grows_out, live,
      }

      abbrev pub out : List ℕ
      out = new_out flow i ins

      abbrev pub entry : List ℕ
      entry = new_in flow i out

      abbrev pub ins' : List (List ℕ)
      ins' = put ins i entry

      abbrev pub outs' : List (List ℕ)
      outs' = put outs i out

      -- a property of the sets after a write, from the set written and the sets before
      at_put :
          (P : ℕ → List ℕ → Type 0) (sets : List (List ℕ)) (new : List ℕ)
          → i < length sets
          → P i new
          → ((j : ℕ) → P j (get_set sets j))
          → (j : ℕ) → P j (get_set (put sets i new) j)
      at_put P sets new h here others j = elim (Bool-cases (i == j)) [
        | inl e ↦
            let same : i ≡ j = (==_iff i j).0 e in
            rw (get_set-put sets i j new h) (rw e (subst (λ (j : ℕ). P j new) same here))
        | inr e ↦ rw (get_set-put sets i j new h) (rw e (others j))
      ]

      out_below : (v : ℕ) → mem v out ≡ true → v < bound
      out_below v h = let (c, mc, mv) = (mem-new_out i ins v).0 h in below_in c v mv

      entry_below : (v : ℕ) → mem v entry ≡ true → v < bound
      entry_below v h = elim ((mem-new_in i out v).0 h) [
        | inl m ↦ b.used_below i v m
        | inr (m, free) ↦ out_below v m
      ]

      entry_live : (v : ℕ) → mem v entry ≡ true → LiveIn flow v i
      entry_live v h = elim ((mem-new_in i out v).0 h) [
        | inl m ↦ used m
        | inr (m, free) ↦
            let (c, mc, mv) = (mem-new_out i ins v).0 m in passed c mc (live c v mv) free
      ]

      pub out-IsSorted : IsSorted out
      unfolding new_out
      out-IsSorted = gather-IsSorted (successors i) ins [] tt

      pub entry-IsSorted : IsSorted entry
      unfolding new_in
      entry-IsSorted =
          insert_all-IsSorted (keep (λ value. not (mem value (defs i))) out) (uses i)
            (b.uses_sorted i)

      ins-Sub : Sub ins ins'
      ins-Sub =
          at_put (λ j xs. (v : ℕ) → mem v (get_set ins j) ≡ true → mem v xs ≡ true) ins entry
            (omega arith) (grows_in i) (λ j v m. m)

      pub visit-Good : Good ins' outs'
      visit-Good = record {
        size_in = size_put ins entry size_in;
        size_out = size_put outs out size_out;
        sorted_in = at_put (λ j xs. IsSorted xs) ins entry (omega arith) entry-IsSorted sorted_in;
        sorted_out = at_put (λ j xs. IsSorted xs) outs out (omega arith) out-IsSorted sorted_out;
        below_in =
            at_put (λ j xs. (v : ℕ) → mem v xs ≡ true → v < bound) ins entry (omega arith)
              entry_below below_in;
        below_out =
            at_put (λ j xs. (v : ℕ) → mem v xs ≡ true → v < bound) outs out (omega arith) out_below
              below_out;
        grows_in =
            at_put
              (λ j xs.
                (v : ℕ) → mem v xs ≡ true → mem v (new_in flow j (new_out flow j ins')) ≡ true)
              ins entry (omega arith) (raise i) (λ j v m. raise j v (grows_in j v m));
        grows_out =
            at_put (λ j xs. (v : ℕ) → mem v xs ≡ true → mem v (new_out flow j ins') ≡ true) outs out
              (omega arith) (new_out_mono i ins ins' ins-Sub)
              (λ j v m. new_out_mono j ins ins' ins-Sub v (grows_out j v m));
        live =
            at_put (λ j xs. (v : ℕ) → mem v xs ≡ true → LiveIn flow v j) ins entry (omega arith)
              entry_live live;
      }
        where
          size_put :
              (sets : List (List ℕ)) (new : List ℕ) → length sets ≡ n → length (put sets i new) ≡ n
          size_put sets new e = elim (Bool-cases (text_beq new (get_set sets i))) [
            | inl same ↦ rw same e
            | inr other ↦ rw other (omega (arith, length-set sets i new))
          ]

          raise :
              (j v : ℕ)
              → mem v (new_in flow j (new_out flow j ins)) ≡ true
              → mem v (new_in flow j (new_out flow j ins')) ≡ true
          raise j =
              new_in_mono j (new_out flow j ins) (new_out flow j ins')
                (new_out_mono j ins ins' ins-Sub)
