-- ===== src/Memory/Liveness.antt =====
-- crates/cielo-memory/src/refcount/analysis/cfg_liveness.rs: backward liveness of values.
pub mod Sets
pub mod Grow
pub mod Solve
pub mod Least
pub mod Analyze
pub mod LastUses
use cielo.Prelude.{
  ℕ, zero, suc, ◌+◌, ◌*◌, Bool, true, false, not, ◌||◌, ◌&&◌, Option, none, some, List, [], ◌∷◌,
  if◌then◌else◌, get_elem?, set, ◌≡◌, ◌↔◌, ◌≤◌, ◌<◌,
}
use cielo.Prelude.Classes.{text_beq}
use cielo.Prelude.Explore.{mem}
use cielo.Prelude.NatSet.{insert, insert_all, keep}

-- The set of a block; the source's `get` gives none for a successor out of range.
abbrev pub get_set : List (List ℕ) → ℕ → List ℕ
get_set [] i = []
get_set (xs ∷ sets) zero = xs
get_set (xs ∷ sets) (suc i) = get_set sets i

-- `new_out`: what is live on entry to some successor
unfoldable pub gather : List ℕ → List (List ℕ) → List ℕ → List ℕ
gather [] sets acc = acc
gather (successor ∷ rest) sets acc = gather rest sets (insert_all (get_set sets successor) acc)

-- an assignment of a set that is made if the set differs from the old one
abbrev pub put : List (List ℕ) → ℕ → List ℕ → List (List ℕ)
put sets i new = if text_beq new (get_set sets i) then sets else set sets i new

pub record Live : Type 0 where
  pub live_in : List (List ℕ)
  pub live_out : List (List ℕ)
  pub changed : Bool

-- The equations of a graph: for each block its successors, what it uses before it defines it, and
-- what it defines.
pub record Flow : Type 0 where
  pub successors : ℕ → List ℕ
  pub uses : ℕ → List ℕ
  pub defs : ℕ → List ℕ

module _ (flow : Flow) where
  unfoldable pub new_out : ℕ → List (List ℕ) → List ℕ
  unfolding gather
  new_out i live_in = gather (flow.successors i) live_in []

  unfoldable pub new_in : ℕ → List ℕ → List ℕ
  new_in i out = insert_all (keep (λ value. not (mem value (flow.defs i))) out) (flow.uses i)

  -- the body of the loop over the blocks
  unfoldable pub visit_block : ℕ → Live → Live
  visit_block i s =
      let out = new_out i s.live_in in
      let entry = new_in i out in
      record {
        live_in = put s.live_in i entry;
        live_out = put s.live_out i out;
        changed =
            s.changed
            || (not (text_beq out (get_set s.live_out i))
                || not (text_beq entry (get_set s.live_in i)));
      }

  unfoldable pub round : List ℕ → Live → Live
  unfolding visit_block
  round [] s = s
  round (i ∷ order) s = round order (visit_block i s)

  -- `while changed`; `none` is the fuel running out
  unfoldable pub solve : ℕ → List ℕ → Live → Option Live
  unfolding round
  solve zero order s = none
  solve (suc fuel) order s =
      let after = round order (record s { changed = false }) in
      let rest = solve fuel order after in if after.changed then rest else some after

  -- A value is live on entry to a block that uses it, or that passes it on to one where it is.
  pub data LiveIn (v : ℕ) : ℕ → Type 0 where
    used : {i : ℕ} → mem v (flow.uses i) ≡ true → LiveIn v i
    passed :
        {i : ℕ} (c : ℕ)
        → mem c (flow.successors i) ≡ true
        → LiveIn v c
        → mem v (flow.defs i) ≡ false
        → LiveIn v i

  -- What every block from `n` on lacks.
  abbrev pub IsClosed : ℕ → Type 0
  IsClosed n = (i : ℕ) → n ≤ i → (flow.uses i ≡ []) × (flow.successors i ≡ [])

  -- The sets of a state are liveness in a graph of `n` blocks.
  pub record IsLiveness (n : ℕ) (s : Live) : Type 0 where
    pub at_entry : (i v : ℕ) → (mem v (get_set s.live_in i) ≡ true) ↔ LiveIn v i
    pub at_exit :
        (i v : ℕ)
        → i < n
        → (mem v (get_set s.live_out i) ≡ true)
          ↔ ((c : ℕ) × (mem c (flow.successors i) ≡ true) × LiveIn v c)
