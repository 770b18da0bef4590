-- ===== src/Runtime/Region/Escape.antt =====
-- crates/cielo-runtime/src/region.rs: a region's slots are put on the stack exactly when its extent
-- confines them.
use cielo.Prelude.{ℕ, true, false, Option, none, some, List, [], ◌∷◌, ◌≡◌, ◌↔◌, refl, ◌>>=◌}
use cielo.Prelude.Explore.{Outcome, exhausted, halted, done, IsExact}
use cielo.Ir.Cfg.Program.{CfgProgram, CfgBlock, block, region}
use cielo.Runtime.Region.{
  extent_visit, closed_extent, region_extent, block_leaks, own_effect, extent_leaks, escapes,
}
use cielo.Runtime.Region.Confined.{
  KeepsControl, leaks-false, any-false_iff, entries, IsConfined, unique, exploration,
  exploration-IsExact, region_extent_lem, marked-Inside, Reach-Inside, Inside-Reach, visit_border,
  visit_halt,
}

module _ {F : Type 0} (cfg : CfgProgram F) (id : ℕ) (own : Option ℕ) where
  blocks_keep :
      (y : ℕ)
      → (block_leaks own (block cfg y) ≡ false)
        ↔ ((found : CfgBlock) × (block cfg y ≡ some found) × KeepsControl own found.terminator)
  blocks_keep y = split (block cfg y)
    where
      split :
          (o : Option CfgBlock)
          → (block_leaks own o ≡ false)
            ↔ ((found : CfgBlock) × (o ≡ some found) × KeepsControl own found.terminator)
      split none = (λ e. cc, λ (found, e, k). cc)
      split (some b) = (
        λ e. (b, refl, (leaks-false own b.terminator).0 e),
        λ (found, e, k). let same : b ≡ found = cc in (leaks-false own b.terminator).1 (rw same k),
      )

  -- The extent of one start, by the outcome of its exploration.
  from_start :
      (start : ℕ) (o : Outcome)
      → entries cfg id cfg.blocks ≡ start ∷ []
      → IsExact (extent_visit cfg id) start o
      → extent_leaks cfg own (closed_extent o) ≡ false
      → IsConfined cfg id own
  from_start start exhausted opens x h = absurd x
  from_start start (halted seen) opens x h = cc
  from_start start (done seen false) opens x h = cc
  from_start start (done seen true) opens x h = record {
    start = start;
    opens = opens;
    closes =
        let (y, r, e) = x.1.0 refl in (y, Reach-Inside cfg id start r, (visit_border cfg id y).0 e);
    keeps = λ y i no_exit. (blocks_keep y).0 (
        (any-false_iff (λ y. block_leaks own (block cfg y)) seen).0 h y
          ((marked-Inside cfg id start seen true x y).1 (i, no_exit)));
  }

  from_confined :
      (o : Outcome) (c : IsConfined cfg id own)
      → IsExact (extent_visit cfg id) c.start o
      → extent_leaks cfg own (closed_extent o) ≡ false
  from_confined exhausted c x = absurd x
  from_confined (halted seen) c (y, r, e) =
      let (no_exit, missing) = visit_halt cfg id y e in
      let (found, at_block, _) = c.keeps y (Reach-Inside cfg id c.start r) no_exit in cc
  from_confined (done seen false) c x =
      let (y, i, e) = c.closes in
      let saw = x.1.1 (y, Inside-Reach cfg id c.start i, (visit_border cfg id y).1 e) in cc
  from_confined (done seen true) c x =
      (any-false_iff (λ y. block_leaks own (block cfg y)) seen).1 λ y m.
        let (i, no_exit) = (marked-Inside cfg id c.start seen true x y).0 m in
        (blocks_keep y).1 (c.keeps y i no_exit)

  extent-IsConfined : (extent_leaks cfg own (region_extent cfg id) ≡ false) ↔ IsConfined cfg id own
  extent-IsConfined = rw (region_extent_lem cfg id) (
    split (entries cfg id cfg.blocks) refl,
    λ c.
        rw c.opens
          (from_confined (exploration cfg id c.start) c (exploration-IsExact cfg id c.start)),
  )
    where
      split :
          (xs : List ℕ)
          → entries cfg id cfg.blocks ≡ xs
          → extent_leaks cfg own (
              unique cfg id (entries cfg id cfg.blocks) >>= λ entry.
              entry >>= λ start. closed_extent (exploration cfg id start))
            ≡ false
          → IsConfined cfg id own
      split [] e h = let h' = rw e at h in cc
      split (x ∷ y ∷ xs) e h = let h' = rw e at h in cc
      split (x ∷ []) e h =
          from_start x (exploration cfg id x) e (exploration-IsExact cfg id x) (rw e at h)

module _ {F : Type 0} (cfg : CfgProgram F) (id : ℕ) where
  -- A region's slots do not escape exactly when its extent confines control.
  pub escapes_iff : (escapes cfg id ≡ false) ↔ IsConfined cfg id (own_effect (region cfg id))
  unfolding escapes
  escapes_iff = extent-IsConfined cfg id (own_effect (region cfg id))
