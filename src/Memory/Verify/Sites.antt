-- ===== src/Memory/Verify/Sites.antt =====
-- crates/cielo-memory/src/refcount/verify.rs: the checks along a block's straight-line path.
use cielo.Prelude.{ℕ, false, ◌&&◌, List, [], ◌∷◌, if◌then◌else◌, ◌≡◌, ◌↔◌, refl, sym, ◌∙◌}
use cielo.Prelude.Explore.{mem}
use cielo.Prelude.NatSet.Fresh.{IsFresh, IsFresh-iff, IsFresh-append, insert_all-append}
use cielo.Prelude.NatSet.{insert, insert_all, IsNodup}
use cielo.Ir.Cfg.Instruction.{CfgArcOp}
use cielo.Ir.Cfg.Program.{CfgProgram, CfgBlock, value}
use cielo.Memory.Verify.{
  Verifying, is_release, is_none, report_if, collect_releases, invalid_value, dup_release,
  double_release, verify_ops, verify_ops_from, count_op, verify_sites, count_block, count_end,
  verify_blocks, block_sites,
}
use cielo.Memory.Verify.Clean.{
  release_of, releases, insert-release, release-IsFresh, site_releases, IsClean, report_if_iff,
}

module _ {G : Type 0} (block : ℕ) where
  collect_releases-seen :
      (ops : List CfgArcOp) (seen : List ℕ) (s : Verifying G)
      → (collect_releases block ops seen s).0 ≡ insert_all (releases ops) seen
  unfolding collect_releases insert_all
  collect_releases-seen [] seen s = refl
  collect_releases-seen (op ∷ ops) seen s =
      collect_releases-seen ops (if is_release op.kind then insert op.value seen else seen) _
      ∙ rw (insert-release op seen) (sym (insert_all-append (release_of op) (releases ops) seen))

  collect_releases-IsClean :
      (ops : List CfgArcOp) (seen : List ℕ) (s : Verifying G)
      → IsClean (collect_releases block ops seen s).1 ↔ (IsFresh seen (releases ops) × IsClean s)
  unfolding collect_releases
  collect_releases-IsClean [] seen s = (λ h. (tt, h), λ h. h.1)
  collect_releases-IsClean (op ∷ ops) seen s =
      let entry = double_release op.value block in
      let s' = report_if (is_release op.kind && mem op.value seen) entry s in
      let ih =
        collect_releases-IsClean ops (if is_release op.kind then insert op.value seen else seen)
          s' in
      let one = report_if_iff (is_release op.kind && mem op.value seen) entry s in
      let here = release-IsFresh op seen in
      let joined = IsFresh-append seen (release_of op) (releases ops) in
      (
        λ h.
            let (fresh, clean) = ih.0 h in
            let (new, old) = one.0 clean in
            (joined.1 (here.0 new, rw (insert-release op seen) at fresh), old),
        λ (all_fresh, old).
            let (new, fresh) = joined.0 all_fresh in
            ih.1 (rw (insert-release op seen) fresh, one.1 (here.1 new, old)),
      )

-- Releases that are fresh for a set are distinct.
IsFresh-empty : (seen xs : List ℕ) → IsFresh seen xs → IsFresh [] xs
IsFresh-empty seen xs f = (IsFresh-iff [] xs).1 (((IsFresh-iff seen xs).0 f).0, λ y m. refl)

module _ {F : Type 0} (cfg : CfgProgram F) where
  -- Each operation names a value of the program.
  abbrev pub AllValid : List CfgArcOp → Type 0
  AllValid [] = Unit
  AllValid (op ∷ ops) = (is_none (value cfg op.value) ≡ false) × AllValid ops

  abbrev pub SitesValid : List (List CfgArcOp) → Type 0
  SitesValid [] = Unit
  SitesValid (ops ∷ sites) = AllValid ops × SitesValid sites

  -- Along each block, operations name values and no value is released twice.
  abbrev pub BlocksRelease : List CfgBlock → Type 0
  BlocksRelease [] = Unit
  BlocksRelease (block ∷ blocks) =
      SitesValid (block_sites cfg block)
      × IsNodup (site_releases (block_sites cfg block))
      × BlocksRelease blocks

  module _ {G : Type 0} where
    verify_ops_from-IsClean :
        (ops : List CfgArcOp) (seen : List ℕ) (s : Verifying G)
        → IsClean (verify_ops_from cfg ops seen s)
          ↔ (AllValid ops × IsFresh seen (releases ops) × IsClean s)
    unfolding verify_ops_from
    verify_ops_from-IsClean [] seen s = (λ h. (tt, tt, h), λ h. h.2)
    verify_ops_from-IsClean (op ∷ ops) seen s =
        let s' =
          report_if (is_none (value cfg op.value)) (invalid_value op.value) (count_op cfg s) in
        let valid =
          report_if_iff (is_none (value cfg op.value)) (invalid_value op.value) (count_op cfg s) in
        let once =
          report_if_iff (is_release op.kind && mem op.value seen) (dup_release op.value) s' in
        let ih =
          verify_ops_from-IsClean ops (if is_release op.kind then insert op.value seen else seen)
            (report_if (is_release op.kind && mem op.value seen) (dup_release op.value) s') in
        let here = release-IsFresh op seen in
        let joined = IsFresh-append seen (release_of op) (releases ops) in
        (
          λ h.
              let (all_valid, fresh, clean) = ih.0 h in
              let (new, clean') = once.0 clean in
              let (found, old) = valid.0 clean' in
              (
                (found, all_valid),
                joined.1 (here.0 new, rw (insert-release op seen) at fresh),
                old,
              ),
          λ ((found, all_valid), all_fresh, old).
              let (new, fresh) = joined.0 all_fresh in
              ih.1 (
                all_valid,
                rw (insert-release op seen) fresh,
                once.1 (here.1 new, valid.1 (found, old)),
              ),
        )

    verify_sites-IsClean :
        (block : ℕ) (sites : List (List CfgArcOp)) (seen : List ℕ) (s : Verifying G)
        → IsClean (verify_sites cfg block sites seen s)
          ↔ (SitesValid sites × IsFresh seen (site_releases sites) × IsClean s)
    unfolding verify_sites verify_ops
    verify_sites-IsClean block [] seen s = (λ h. (tt, tt, h), λ h. h.2)
    verify_sites-IsClean block (ops ∷ sites) seen s =
        let one = verify_ops_from-IsClean ops [] s in
        let s1 = verify_ops_from cfg ops [] s in
        let two = collect_releases-IsClean block ops seen s1 in
        let after = collect_releases block ops seen s1 in
        let ih = verify_sites-IsClean block sites after.0 after.1 in
        let joined = IsFresh-append seen (releases ops) (site_releases sites) in
        (
          λ h.
              let (valid, fresh, clean) = ih.0 h in
              let (fresh', clean') = two.0 clean in
              let (valid', fresh_here, clean'') = one.0 clean' in
              (
                (valid', valid),
                joined.1 (fresh', rw (collect_releases-seen block ops seen s1) at fresh),
                clean'',
              ),
          λ ((valid', valid), fresh_all, clean).
              let (fresh', fresh) = joined.0 fresh_all in
              ih.1 (
                valid,
                rw (collect_releases-seen block ops seen s1) fresh,
                two.1 (fresh', one.1 (valid', IsFresh-empty seen (releases ops) fresh', clean)),
              ),
        )

    pub verify_blocks-IsClean :
        (blocks : List CfgBlock) (s : Verifying G)
        → IsClean (verify_blocks cfg blocks s) ↔ (BlocksRelease blocks × IsClean s)
    unfolding verify_blocks
    verify_blocks-IsClean [] s = (λ h. (tt, h), λ h. h.1)
    verify_blocks-IsClean (block ∷ blocks) s =
        let sites = block_sites cfg block in
        let one = verify_sites-IsClean block.id sites [] (count_block cfg s) in
        let ih = verify_blocks-IsClean blocks (
          count_end cfg block.terminator
            (verify_sites cfg block.id sites [] (count_block cfg s))) in
        let distinct = IsFresh-iff [] (site_releases sites) in
        (
          λ h.
              let (rest, clean) = ih.0 h in
              let (valid, fresh, old) = one.0 clean in ((valid, (distinct.0 fresh).0, rest), old),
          λ ((valid, nodup, rest), old).
              ih.1 (rest, one.1 (valid, distinct.1 (nodup, λ y m. refl), old)),
        )
