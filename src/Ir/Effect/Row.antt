-- ===== src/Ir/Effect/Row.antt =====
-- crates/cielo-ir/src/effect.rs: `SortedEffectRow`, a set of effect labels as an increasing list.
pub mod Laws
pub mod Algebra
use cielo.Prelude.{
  ℕ, zero, suc, ◌+◌, Bool, true, false, List, [], ◌∷◌, length, ltb, ◌==◌, if◌then◌else◌,
}
use cielo.Base.Ids.{is_valid}

-- `slice::binary_search` on an increasing slice: the place of the element, or the place at which
-- it can be inserted.
pub data SearchResult : Type 0 where
  ok err : ℕ → SearchResult

unfoldable pub binary_search_from : ℕ → List ℕ → ℕ → SearchResult
binary_search_from pos [] x = err pos
binary_search_from pos (y ∷ ys) x =
    let rest = binary_search_from (pos + 1) ys x in
    if y == x then ok pos else if ltb x y then err pos else rest

unfoldable pub binary_search : List ℕ → ℕ → SearchResult
unfolding binary_search_from
binary_search xs x = binary_search_from 0 xs x

abbrev pub is_ok : SearchResult → Bool
is_ok (ok pos) = true
is_ok (err pos) = false

abbrev pub is_err : SearchResult → Bool
is_err (ok pos) = false
is_err (err pos) = true

-- `Vec::insert` at a place within the list
abbrev pub insert_at : ℕ → ℕ → List ℕ → List ℕ
insert_at zero x xs = x ∷ xs
insert_at (suc pos) x [] = x ∷ []
insert_at (suc pos) x (y ∷ ys) = y ∷ insert_at pos x ys

-- `filter`, `sort_unstable` and `dedup`, as `new` calls them
abbrev pub filter : (ℕ → Bool) → List ℕ → List ℕ
filter p [] = []
filter p (x ∷ xs) = if p x then x ∷ filter p xs else filter p xs

unfoldable pub sort_insert : ℕ → List ℕ → List ℕ
sort_insert x [] = x ∷ []
sort_insert x (y ∷ ys) = if ltb y x then y ∷ sort_insert x ys else x ∷ y ∷ ys

unfoldable pub sort_unstable : List ℕ → List ℕ
unfolding sort_insert
sort_unstable [] = []
sort_unstable (x ∷ xs) = sort_insert x (sort_unstable xs)

-- drops each element that equals the one kept before it
unfoldable pub dedup_after : ℕ → List ℕ → List ℕ
dedup_after last [] = []
dedup_after last (x ∷ xs) = if x == last then dedup_after last xs else x ∷ dedup_after x xs

unfoldable pub dedup : List ℕ → List ℕ
unfolding dedup_after
dedup [] = []
dedup (x ∷ xs) = x ∷ dedup_after x xs

-- A row is its list of labels.
abbrev pub SortedEffectRow : Type 0
SortedEffectRow = List ℕ

abbrev pub empty : SortedEffectRow
empty = []

abbrev pub singleton : ℕ → SortedEffectRow
singleton effect = effect ∷ []

unfoldable pub new : List ℕ → SortedEffectRow
unfolding sort_unstable dedup is_valid
new effects = dedup (sort_unstable (filter is_valid effects))

unfoldable pub contains : SortedEffectRow → ℕ → Bool
unfolding binary_search
contains row effect = is_ok (binary_search row effect)

-- one round of the loop of `union`
unfoldable pub union_step : List ℕ → ℕ → List ℕ
unfolding binary_search
union_step merged effect = elim (binary_search merged effect) [
  | ok pos ↦ merged
  | err pos ↦ insert_at pos effect merged
]

unfoldable pub union : SortedEffectRow → SortedEffectRow → SortedEffectRow
unfolding union_step
union row [] = row
union row (effect ∷ rest) = union (union_step row effect) rest

unfoldable pub subtract : SortedEffectRow → SortedEffectRow → SortedEffectRow
unfolding binary_search
subtract row other = filter (λ effect. is_err (binary_search other effect)) row
