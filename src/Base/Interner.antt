-- ===== src/Base/Interner.antt =====
-- crates/cielo-base/src/symbols.rs: texts interned as symbol ids.
pub mod Laws
use cielo.Prelude.{ℕ, Option, none, some, List, [], ◌∷◌, ◌++◌, length, get_elem?, ◌>>=◌}
use cielo.Prelude.Classes.{Text, text_eq}
use cielo.Prelude.HashMap.{HashMap, get, insert}
use cielo.Base.Ids

pub record Interner : Type 0 where
  pub symbols : List Text
  pub lookup : HashMap Text ℕ

abbrev pub empty_interner : Interner
empty_interner = record { symbols = []; lookup = [] }

-- `none` is the assertion of `SymbolId::new`.
unfoldable pub intern : Interner → Text → Option (Interner × ℕ)
intern it text = elim (get it.lookup text) [
  | some id ↦ some (it, id)
  | none ↦ Ids.new (length it.symbols) >>= λ id.
      some (record { symbols = it.symbols ++ text ∷ []; lookup = insert it.lookup text id }, id)
]

unfoldable pub resolve : Interner → ℕ → Option Text
resolve it id = get_elem? it.symbols id
