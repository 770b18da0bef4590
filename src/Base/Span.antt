-- ===== src/Base/Span.antt =====
-- crates/cielo-base/src/span.rs: half-open byte ranges of a source file.
use cielo.Prelude.{ℕ, ◌+◌, ◌-◌, ◌≤◌, ◌<◌, ◌≡◌, ◌↔◌, Bool, true, ◌&&◌, arith, leb, ltb}
use cielo.Base.Ids.{invalid}

pub record Span : Type 0 where
  pub source : ℕ
  pub start : ℕ
  pub end : ℕ

unfoldable pub synthetic : Span
synthetic = record { source = invalid; start = 0; end = 0 }

-- `saturating_sub` is subtraction on ℕ.
unfoldable pub len : Span → ℕ
len s = s.end - s.start

unfoldable pub is_empty : Span → Bool
is_empty s = leb s.end s.start

unfoldable pub contains : Span → ℕ → Bool
contains s offset = leb s.start offset && ltb offset s.end

-- The offsets in a span are the first `len` ones from its start, and a span is empty exactly when
-- its length is 0.
pub contains_iff :
    (s : Span) (offset : ℕ)
    → ((contains s offset ≡ true) ↔ ((s.start ≤ offset) × (offset < s.start + len s)))
      × ((is_empty s ≡ true) ↔ (len s ≡ 0))
unfolding contains len is_empty
contains_iff s offset = ground arith
