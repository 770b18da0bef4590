-- ===== src/Memory/Liveness/Analyze/Correct.antt =====
-- crates/cielo-memory/src/refcount/analysis/cfg_liveness.rs: the analysis of a program returns, and
-- its sets are liveness along the paths of the graph.
use cielo.Prelude.{
  length-map, ℕ, zero, suc, ◌+◌, ◌≤◌, ◌<◌, Bool, true, false, Option, none, some, List, [], ◌∷◌,
  get_elem?, length, map, get_elem?-none, ◌≡◌, ◌↔◌, inl, inr, refl, arith, Elem, ◌==◌, ==_iff,
  Bool-cases, if◌then◌else◌,
}
use mathlib.Core.List.{reverse}
use cielo.Prelude.Sorted.{IsSorted}
use cielo.Prelude.Explore.{mem}
use cielo.Prelude.NatSet.{insert, insert-IsSorted}
use cielo.Ir.Cfg.Program.{CfgProgram, CfgBlock, instruction}
use cielo.Memory.Liveness.{get_set, Live, IsClosed, IsLiveness}
use cielo.Memory.Liveness.Sets.{mem-Elem}
use cielo.Memory.Liveness.Grow.{IsBounded}
use cielo.Memory.Liveness.Least.{solve-IsLiveness}
use cielo.Memory.Liveness.Analyze.{
  Gathered, add_uses, upper, upper_of, gather_node, gather_instructions, gather_block, block_uses,
  flow_of, order, value_bound, analysis_fuel, analyze_flow,
}
use cielo.Prelude.Elems.{Elem-reverse}

add_uses-IsSorted :
    (values defs uses : List ℕ) → IsSorted uses → IsSorted (add_uses values defs uses)
unfolding add_uses
add_uses-IsSorted [] defs uses s = s
add_uses-IsSorted (v ∷ values) defs uses s =
    add_uses-IsSorted values defs (if mem v defs then uses else insert v uses) (split (mem v defs))
  where
    split : (b : Bool) → IsSorted (if b then uses else insert v uses)
    split true = s
    split false = insert-IsSorted v uses s

lt-upper : (v : ℕ) (xs : List ℕ) → mem v xs ≡ true → v < upper xs
lt-upper v [] m = cc
lt-upper v (x ∷ xs) m = ground (arith, ==_iff v x, lt-upper v xs)

lt-upper_of : (sets : List (List ℕ)) (i v : ℕ) → mem v (get_set sets i) ≡ true → v < upper_of sets
lt-upper_of [] i v m = cc
lt-upper_of (xs ∷ sets) zero v m = omega (arith, lt-upper v xs m)
lt-upper_of (xs ∷ sets) (suc i) v m = omega (arith, lt-upper_of sets i v m)

module _ {F : Type 0} (cfg : CfgProgram F) where
  gather_instructions-IsSorted :
      (ids : List ℕ) (g : Gathered)
      → IsSorted g.uses
      → IsSorted (gather_instructions cfg ids g).uses
  unfolding gather_instructions
  gather_instructions-IsSorted [] g s = s
  gather_instructions-IsSorted (id ∷ ids) g s =
      gather_instructions-IsSorted ids (gather_node cfg (instruction cfg id) g)
        (split (instruction cfg id))
    where
      split : (o : Option _) → IsSorted (gather_node cfg o g).uses
      split none = s
      split (some node) = add_uses-IsSorted _ g.defs g.uses s

  block_uses-IsSorted :
      (blocks : List CfgBlock) (i : ℕ)
      → IsSorted (get_set (map (λ block. (gather_block cfg block).uses) blocks) i)
  unfolding gather_block
  block_uses-IsSorted [] i = tt
  block_uses-IsSorted (block ∷ blocks) zero =
      add_uses-IsSorted _ _ _ (gather_instructions-IsSorted block.instructions _ tt)
  block_uses-IsSorted (block ∷ blocks) (suc i) = block_uses-IsSorted blocks i

  pub flow_of-IsBounded : IsBounded (flow_of cfg) (length cfg.blocks) (value_bound cfg)
  unfolding flow_of block_uses
  flow_of-IsBounded = record {
    used_below = lt-upper_of (block_uses cfg);
    uses_sorted = block_uses-IsSorted cfg.blocks;
  }

get_set-none : (sets : List (List ℕ)) (i : ℕ) → length sets ≤ i → get_set sets i ≡ []
get_set-none [] i h = refl
get_set-none (xs ∷ sets) zero h = absurd (omega arith)
get_set-none (xs ∷ sets) (suc i) h = get_set-none sets i (omega arith)

-- Blocks numbered from `low` by their places.
abbrev NumberedFrom : ℕ → List CfgBlock → Type 0
NumberedFrom low [] = Unit
NumberedFrom low (block ∷ blocks) = (block.id ≡ low) × NumberedFrom (suc low) blocks

-- Blocks are numbered by their places.
abbrev pub HasDenseBlocks : List CfgBlock → Type 0
HasDenseBlocks blocks = (i : ℕ) (block : CfgBlock) → get_elem? blocks i ≡ some block → block.id ≡ i

numbered_from :
    (low : ℕ) (blocks : List CfgBlock)
    → ((i : ℕ) (block : CfgBlock) → get_elem? blocks i ≡ some block → block.id ≡ low + i)
    → NumberedFrom low blocks
numbered_from low [] h = tt
numbered_from low (block ∷ blocks) h = (
  omega (arith, h 0 block refl),
  numbered_from (suc low) blocks (λ i b e. omega (arith, h (suc i) b e)),
)

Elem-ids :
    (low : ℕ) (blocks : List CfgBlock) (i : ℕ)
    → NumberedFrom low blocks
    → Elem i (map (λ block. block.id) blocks) ↔ ((low ≤ i) × (i < low + length blocks))
Elem-ids low [] i h = (λ m. absurd m, λ (a, c). absurd (omega arith))
Elem-ids low (block ∷ blocks) i (here, rest) =
    let ih = Elem-ids (suc low) blocks i rest in
    (
      λ m. elim m [
        | inl e ↦ (omega arith, omega arith)
        | inr later ↦ let (a, c) = ih.0 later in (omega arith, omega arith)
      ],
      λ (a, c). elim (Bool-cases (i == low)) [
        | inl e ↦ let same = (==_iff i low).0 e in inl (omega arith)
        | inr e ↦ inr (ih.1 (ground (arith, ==_iff i low), omega arith))
      ],
    )

module _ {F : Type 0} (cfg : CfgProgram F) where
  order_iff :
      HasDenseBlocks cfg.blocks → (i : ℕ) → (mem i (order cfg) ≡ true) ↔ (i < length cfg.blocks)
  unfolding order
  order_iff dense i =
      let numbered = numbered_from 0 cfg.blocks (λ i b e. omega (arith, dense i b e)) in
      let ids = Elem-ids 0 cfg.blocks i numbered in
      let back = Elem-reverse i (map (λ block. block.id) cfg.blocks) in
      let test = mem-Elem i (reverse (map (λ block. block.id) cfg.blocks)) in
      (
        λ m. let (a, c) = ids.0 (back.0 (test.0 m)) in omega arith,
        λ lt. test.1 (back.1 (ids.1 (omega arith, omega arith))),
      )

  flow_of-IsClosed : IsClosed (flow_of cfg) (length cfg.blocks)
  unfolding flow_of block_uses
  flow_of-IsClosed i le = (
    get_set-none (block_uses cfg) i (
        omega (arith, length-map (λ (block : CfgBlock). (gather_block cfg block).uses) cfg.blocks)),
    rw (get_elem?-none cfg.blocks i le),
  )

  -- On a program whose blocks are numbered by their places the analysis returns, and a value is in
  -- the set of a block's entry exactly when some path from there uses it before defining it, and in
  -- that of its exit exactly when it is so on entry to a successor.
  pub analyze_flow-IsLiveness :
      HasDenseBlocks cfg.blocks
      → (s : Live) × (analyze_flow cfg ≡ some s) × IsLiveness (flow_of cfg) (length cfg.blocks) s
  unfolding analyze_flow
  analyze_flow-IsLiveness dense =
      solve-IsLiveness (flow_of cfg) (length cfg.blocks) (value_bound cfg) (flow_of-IsBounded cfg)
        (order cfg) (analysis_fuel cfg) flow_of-IsClosed (order_iff dense) (omega arith)
