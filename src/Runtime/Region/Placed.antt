-- ===== src/Runtime/Region/Placed.antt =====
-- crates/cielo-runtime/src/region.rs: what the placement writes.
use cielo.Prelude.{
  ℕ, zero, suc, Bool, true, false, not, Option, none, some, List, [], ◌∷◌, ◌≡◌, ◌↔◌, inl, inr, refl,
  sym, ◌||◌, arith, Option-cases, Bool-cases, if◌then◌else◌, map, get_elem?, ◌==◌, ==_iff, set, ◌∙◌,
  ap, ap₂,
}
use cielo.Prelude.Explore.{mem}
use cielo.Ir.Region.{CfgRegion, RegionSlot, RegionSlotKind, handler_evidence, stack, arena}
use cielo.Ir.Cfg.Program.{CfgProgram, block, instruction, region, region_mut}
use cielo.Runtime.Region.{
  block_has, extent_visit, region_extent, own_effect, escapes, place_slot, place_region, place_at,
  place_all, place,
}
use cielo.Runtime.Region.Confined.{IsConfined}
use cielo.Runtime.Region.Escape.{escapes_iff}

place_slot_lem :
    (confined : Bool) (slot : RegionSlot)
    → place_slot confined slot ≡ record slot { placement = if confined then stack else arena }
place_slot_lem confined slot = split slot.kind
  where
    split :
        (kind : RegionSlotKind)
        → (elim kind [
          | handler_evidence effect ↦ record slot { placement = if confined then stack else arena }
        ])
          ≡ record slot { placement = if confined then stack else arena }
    split (handler_evidence effect) = refl

place_slots_again :
    (confined : Bool) (slots : List RegionSlot)
    → map (place_slot confined) (map (place_slot confined) slots) ≡ map (place_slot confined) slots
place_slots_again confined [] = refl
place_slots_again confined (slot ∷ slots) =
    ap₂ ◌∷◌
      (ap (place_slot confined) (place_slot_lem confined slot)
        ∙ place_slot_lem confined (record slot { placement = if confined then stack else arena })
        ∙ sym (place_slot_lem confined slot))
      (place_slots_again confined slots)

abbrev placed : Bool → Option CfgRegion → Option CfgRegion
placed confined none = none
placed confined (some node) = some (place_region confined node)

placed_again :
    (confined : Bool) (o : Option CfgRegion)
    → placed confined (placed confined o) ≡ placed confined o
placed_again confined none = refl
placed_again confined (some node) =
    ap (λ (slots : List RegionSlot). some (record node { slots = slots }))
      (place_slots_again confined node.slots)

placed_twice :
    (same rest first second : Bool) (o : Option CfgRegion)
    → (same ≡ true → first ≡ second)
    → (if rest
        then placed second (if same then placed first o else o)
        else if same
        then placed first o
        else o)
      ≡ (if same || rest then placed second o else o)
placed_twice true true first second o h = rw (h refl) (placed_again second o)
placed_twice true false first second o h = rw (h refl)
placed_twice false rest first second o h = refl

own_effect-set :
    (regions : List CfgRegion) (i j : ℕ) (confined : Bool) {node : CfgRegion}
    → get_elem? regions j ≡ some node
    → own_effect (get_elem? (set regions j (place_region confined node)) i)
      ≡ own_effect (get_elem? regions i)
own_effect-set [] i j confined h = refl
own_effect-set (r ∷ regions) zero zero confined {node} h = let same : r ≡ node = cc in rw same
own_effect-set (r ∷ regions) (suc i) zero confined h = refl
own_effect-set (r ∷ regions) zero (suc j) confined h = refl
own_effect-set (r ∷ regions) (suc i) (suc j) confined h = own_effect-set regions i j confined h

get_elem?-set_placed :
    (regions : List CfgRegion) (i j : ℕ) (confined : Bool) {node : CfgRegion}
    → get_elem? regions j ≡ some node
    → get_elem? (set regions j (place_region confined node)) i
      ≡ (if i == j then placed confined (get_elem? regions i) else get_elem? regions i)
get_elem?-set_placed [] i j confined h = cc
get_elem?-set_placed (r ∷ regions) zero zero confined {node} h = let same : r ≡ node = cc in rw same
get_elem?-set_placed (r ∷ regions) (suc i) zero confined h = ground arith
get_elem?-set_placed (r ∷ regions) zero (suc j) confined h = ground arith
get_elem?-set_placed (r ∷ regions) (suc i) (suc j) confined h =
    ground (arith, get_elem?-set_placed regions i j confined h)

mem-ids :
    (regions : List CfgRegion) (i : ℕ) {node : CfgRegion}
    → get_elem? regions i ≡ some node
    → mem node.id (map (λ node. node.id) regions) ≡ true
mem-ids [] i h = cc
mem-ids (r ∷ regions) zero {node} h =
    let same : r ≡ node = cc in rw same (ground (arith, ==_iff node.id node.id))
mem-ids (r ∷ regions) (suc i) h = ground (arith, mem-ids regions i h)

-- Regions are numbered by their places.
abbrev pub HasDenseIds : List CfgRegion → Type 0
HasDenseIds regions = (i : ℕ) (node : CfgRegion) → get_elem? regions i ≡ some node → node.id ≡ i

if_either : (b : Bool) (o : Option CfgRegion) → (if b then o else o) ≡ o
if_either true o = refl
if_either false o = refl

-- The slot's placement where the slots of a region were placed.
placed-slot :
    (confined : Bool) (slots : List RegionSlot) (k : ℕ) {slot : RegionSlot}
    → get_elem? (map (place_slot confined) slots) k ≡ some slot
    → slot.placement ≡ (if confined then stack else arena)
placed-slot confined [] k h = cc
placed-slot confined (s ∷ slots) zero {slot} h =
    let same : place_slot confined s ≡ slot = cc in
    ap (λ (slot : RegionSlot). slot.placement) (sym same ∙ place_slot_lem confined s)
placed-slot confined (s ∷ slots) (suc k) h = placed-slot confined slots k h

module _ {F : Type 0} where
  regions-place_at :
      (cfg : CfgProgram F) (i j : ℕ) (confined : Bool)
      → get_elem? (place_at cfg j confined (region cfg j)).regions i
        ≡ (if i == j then placed confined (get_elem? cfg.regions i) else get_elem? cfg.regions i)
  unfolding region region_mut
  regions-place_at cfg i j confined = elim (Option-cases (get_elem? cfg.regions j)) [
    | inl e ↦ rw e (elim (Bool-cases (i == j)) [
      | inl same ↦
          let eq : i ≡ j = (==_iff i j).0 same in
          let missing : get_elem? cfg.regions i ≡ none = rw eq e in rw same (rw missing)
      | inr other ↦ rw other
    ])
    | inr (node, e) ↦ rw e (get_elem?-set_placed cfg.regions i j confined e)
  ]

  escapes-place_at :
      (cfg : CfgProgram F) (i j : ℕ) (confined : Bool)
      → escapes (place_at cfg j confined (region cfg j)) i ≡ escapes cfg i
  unfolding escapes region_extent extent_visit block_has block instruction region region_mut
  escapes-place_at cfg i j confined = elim (Option-cases (get_elem? cfg.regions j)) [
    | inl e ↦ rw e
    | inr (node, e) ↦ rw e (rw (own_effect-set cfg.regions i j confined e))
  ]

  regions-place_all :
      (ids : List ℕ) (cfg : CfgProgram F) (i : ℕ)
      → get_elem? (place_all ids cfg).regions i ≡ (
          if mem i ids
          then placed (not (escapes cfg i)) (get_elem? cfg.regions i)
          else get_elem? cfg.regions i)
  unfolding place_all
  regions-place_all [] cfg i = refl
  regions-place_all (j ∷ ids) cfg i =
      regions-place_all ids (place_at cfg j (not (escapes cfg j)) (region cfg j)) i
      ∙ rw (escapes-place_at cfg i j (not (escapes cfg j))) (
          rw (regions-place_at cfg i j (not (escapes cfg j))) (
            placed_twice (i == j) (mem i ids) (not (escapes cfg j)) (not (escapes cfg i))
              (get_elem? cfg.regions i)
              (λ same. ap (λ k. not (escapes cfg k)) (sym ((==_iff i j).0 same)))))

  regions-place :
      (cfg : CfgProgram F) (i : ℕ)
      → HasDenseIds cfg.regions
      → get_elem? (place cfg).regions i ≡ placed (not (escapes cfg i)) (get_elem? cfg.regions i)
  unfolding place
  regions-place cfg i dense =
      regions-place_all (map (λ node. node.id) cfg.regions) cfg i
      ∙ elim (Option-cases (get_elem? cfg.regions i)) [
        | inl e ↦ rw e (if_either (mem i (map (λ node. node.id) cfg.regions)) none)
        | inr (node, e) ↦
            let found = mem-ids cfg.regions i e in
            let here : mem i (map (λ node. node.id) cfg.regions) ≡ true =
              rw (dense i node e) at found in
            rw here
      ]

  -- After the placement of a program whose regions are numbered by their places, a slot of a region
  -- is on the stack exactly when one block opens the region, an exit of it is reached from there, and
  -- each block reached before an exit exists and does not end in a return, a control call, or the
  -- performing of an effect other than the region's own.
  pub place-on_stack_iff :
      (cfg : CfgProgram F) (i k : ℕ) {node : CfgRegion} {slot : RegionSlot}
      → HasDenseIds cfg.regions
      → get_elem? (place cfg).regions i ≡ some node
      → get_elem? node.slots k ≡ some slot
      → (slot.placement ≡ stack) ↔ IsConfined cfg i (own_effect (region cfg i))
  place-on_stack_iff cfg i k {node} {slot} dense at_node at_slot =
      elim (Option-cases (get_elem? cfg.regions i)) [
        | inl e ↦ let e' = regions-place cfg i dense in cc
        | inr (old, e) ↦
            let e' : some (place_region (not (escapes cfg i)) old) ≡ some node =
              sym (rw e at (regions-place cfg i dense)) ∙ at_node in
            let same : place_region (not (escapes cfg i)) old ≡ node = cc in
            let placement =
              placed-slot (not (escapes cfg i)) old.slots k (rw (← same) at at_slot) in
            decide (escapes cfg i) refl placement
      ]
    where
      decide :
          (b : Bool)
          → escapes cfg i ≡ b
          → slot.placement ≡ (if not (escapes cfg i) then stack else arena)
          → (slot.placement ≡ stack) ↔ IsConfined cfg i (own_effect (region cfg i))
      decide false e h = (λ _. (escapes_iff cfg i).0 e, λ _. rw e at h)
      decide true e h = (
        λ on_stack. let h' : slot.placement ≡ arena = rw e at h in cc,
        λ c. let e' = (escapes_iff cfg i).1 c in cc,
      )
