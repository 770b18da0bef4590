-- ===== src/Ir/Effect/Row/Laws.antt =====
-- crates/cielo-ir/src/effect.rs: the order of a row, and the set of its labels.
use cielo.Prelude.{
  ℕ, suc, ◌+◌, ◌≤◌, ◌<◌, ◌≡◌, refl, ◌↔◌, ◌⊎◌, inl, inr, Bool, true, List, [], ◌∷◌, arith, Elem, ltb,
  ◌==◌, ==_iff, Bool-cases,
}
use cielo.Prelude.Sorted.{Below, IsSorted, lt_of_Below, Below-trans, Below-of_elems}
use cielo.Base.Ids.{is_valid}
use cielo.Ir.Effect.Row.{
  SearchResult, ok, err, binary_search, binary_search_from, is_ok, is_err, insert_at, filter,
  sort_insert, sort_unstable, dedup, dedup_after, SortedEffectRow, new, contains, union_step, union,
  subtract,
}

-- `n` is at most every element.
abbrev AtMost : ℕ → List ℕ → Type 0
AtMost n [] = Unit
AtMost n (x ∷ xs) = (n ≤ x) × AtMost n xs

abbrev IsOrdered : List ℕ → Type 0
IsOrdered [] = Unit
IsOrdered (x ∷ xs) = AtMost x xs × IsOrdered xs

AtMost-trans : (m n : ℕ) (xs : List ℕ) → m ≤ n → AtMost n xs → AtMost m xs
AtMost-trans m n [] h b = tt
AtMost-trans m n (x ∷ xs) h b = (omega (arith, b.0), AtMost-trans m n xs h b.1)

Elem-sort_insert : (a x : ℕ) (xs : List ℕ) → Elem a (sort_insert x xs) ↔ ((a ≡ x) ⊎ Elem a xs)
unfolding sort_insert
Elem-sort_insert a x [] = ground arith
Elem-sort_insert a x (y ∷ ys) = ground (arith, Elem-sort_insert a x ys)

Elem-sort_unstable : (a : ℕ) (xs : List ℕ) → Elem a (sort_unstable xs) ↔ Elem a xs
unfolding sort_unstable
Elem-sort_unstable a [] = ground arith
Elem-sort_unstable a (x ∷ xs) =
    ground (arith, Elem-sort_insert a x (sort_unstable xs), Elem-sort_unstable a xs)

AtMost-sort_insert : (n x : ℕ) (xs : List ℕ) → n ≤ x → AtMost n xs → AtMost n (sort_insert x xs)
unfolding sort_insert
AtMost-sort_insert n x [] h b = (h, tt)
AtMost-sort_insert n x (y ∷ ys) h b = ground (arith, AtMost-sort_insert n x ys)

sort_insert-IsOrdered : (x : ℕ) (xs : List ℕ) → IsOrdered xs → IsOrdered (sort_insert x xs)
unfolding sort_insert
sort_insert-IsOrdered x [] h = (tt, tt)
sort_insert-IsOrdered x (y ∷ ys) h = elim (Bool-cases (ltb y x)) [
  | inl below ↦
      rw (below, sort_insert)
        (AtMost-sort_insert y x ys (ground arith) h.0, sort_insert-IsOrdered x ys h.1)
  | inr above ↦ rw (above, sort_insert) ((ground arith, AtMost-trans x y ys (ground arith) h.0), h)
]

sort_unstable-IsOrdered : (xs : List ℕ) → IsOrdered (sort_unstable xs)
unfolding sort_unstable
sort_unstable-IsOrdered [] = tt
sort_unstable-IsOrdered (x ∷ xs) =
    sort_insert-IsOrdered x (sort_unstable xs) (sort_unstable-IsOrdered xs)

dedup_after-IsSorted :
    (last : ℕ) (xs : List ℕ)
    → AtMost last xs
    → IsOrdered xs
    → Below last (dedup_after last xs) × IsSorted (dedup_after last xs)
unfolding dedup_after
dedup_after-IsSorted last [] b h = (tt, tt)
dedup_after-IsSorted last (x ∷ xs) b h = elim (Bool-cases (x == last)) [
  | inl same ↦ rw (same, dedup_after) (dedup_after-IsSorted last xs b.1 h.1)
  | inr other ↦
      let (below, sorted) = dedup_after-IsSorted x xs h.0 h.1 in
      let step : last < x = ground arith in
      rw (other, dedup_after)
        ((step, Below-trans last x (dedup_after x xs) (omega arith) below), (below, sorted))
]

Elem-dedup_after :
    (a last : ℕ) (xs : List ℕ)
    → ((a ≡ last) ⊎ Elem a (dedup_after last xs)) ↔ ((a ≡ last) ⊎ Elem a xs)
unfolding dedup_after
Elem-dedup_after a last [] = ground arith
Elem-dedup_after a last (x ∷ xs) =
    ground (arith, Elem-dedup_after a last xs, Elem-dedup_after a x xs, ==_iff x last)

dedup-IsSorted : (xs : List ℕ) → IsOrdered xs → IsSorted (dedup xs)
unfolding dedup
dedup-IsSorted [] h = tt
dedup-IsSorted (x ∷ xs) h = dedup_after-IsSorted x xs h.0 h.1

Elem-dedup : (a : ℕ) (xs : List ℕ) → Elem a (dedup xs) ↔ Elem a xs
unfolding dedup
Elem-dedup a [] = ground arith
Elem-dedup a (x ∷ xs) = Elem-dedup_after a x xs

pub Elem-filter :
    (a : ℕ) (p : ℕ → Bool) (xs : List ℕ) → Elem a (filter p xs) ↔ (Elem a xs × (p a ≡ true))
Elem-filter a p [] = ground arith
Elem-filter a p (x ∷ xs) = elim (Bool-cases (p x)) [
  | inl keep ↦ rw keep (ground (arith, Elem-filter a p xs))
  | inr skip ↦ rw skip (ground (arith, Elem-filter a p xs))
]

-- A new row is increasing, and holds exactly the valid labels among those given.
pub new_lem :
    (effects : List ℕ)
    → IsSorted (new effects)
      × ((a : ℕ) → Elem a (new effects) ↔ (Elem a effects × (is_valid a ≡ true)))
unfolding new
new_lem effects =
    let kept = filter is_valid effects in
    (
      dedup-IsSorted (sort_unstable kept) (sort_unstable-IsOrdered kept),
      λ a. ground (
        arith,
        Elem-dedup a (sort_unstable kept),
        Elem-sort_unstable a kept,
        Elem-filter a is_valid effects,
      ),
    )

-- What a search of an increasing list finds: the element, or the place where it belongs.
data Searched (pos x : ℕ) (xs : List ℕ) : SearchResult → Type 0 where
  found : (p : ℕ) → Elem x xs → Searched pos x xs (ok p)
  missing :
      (k p : ℕ)
      → p ≡ pos + k
      → ¬ Elem x xs
      → insert_at k x xs ≡ sort_insert x xs
      → Searched pos x xs (err p)

binary_search_from-Searched :
    (pos x : ℕ) (xs : List ℕ) → IsSorted xs → Searched pos x xs (binary_search_from pos xs x)
unfolding binary_search_from sort_insert
binary_search_from-Searched pos x [] h = missing 0 pos (omega arith) (λ m. m) refl
binary_search_from-Searched pos x (y ∷ ys) h = elim (Bool-cases (y == x)) [
  | inl same ↦ rw (same, binary_search_from) (found pos (ground arith))
  | inr other ↦ elim (Bool-cases (ltb x y)) [
    | inl above ↦
        rw (other, above, binary_search_from)
          (missing 0 pos (omega arith) (λ m. ground (arith, lt_of_Below y x ys h.0)) (ground arith))
    | inr below ↦
        rw (other, below, binary_search_from)
          (go (ground arith) (binary_search_from-Searched (pos + 1) x ys h.1))
  ]
]
  where
    go : {r : SearchResult} → y < x → Searched (pos + 1) x ys r → Searched pos x (y ∷ ys) r
    go after (found p m) = found p (inr m)
    go after (missing k p e absent place) =
        missing (suc k) p (omega arith)
          (λ m. elim m [ inl here ↦ omega arith | inr there ↦ absent there ]) (ground arith)

search-Searched : (x : ℕ) (xs : List ℕ) → IsSorted xs → Searched 0 x xs (binary_search xs x)
unfolding binary_search
search-Searched x xs h = binary_search_from-Searched 0 x xs h

is_ok_iff :
    {x : ℕ} {xs : List ℕ} {r : SearchResult} → Searched 0 x xs r → (is_ok r ≡ true) ↔ Elem x xs
is_ok_iff (found p m) = (λ _. m, λ _. refl)
is_ok_iff (missing k p e absent place) = (λ h. cc, λ m. absurd (absent m))

is_err_iff :
    {x : ℕ} {xs : List ℕ} {r : SearchResult} → Searched 0 x xs r → (is_err r ≡ true) ↔ (¬ Elem x xs)
is_err_iff (found p m) = (λ h. cc, λ absent. absurd (absent m))
is_err_iff (missing k p e absent place) = (λ _. absent, λ _. refl)

-- On an increasing row `contains` decides membership.
pub contains_iff :
    (row : SortedEffectRow) (effect : ℕ)
    → IsSorted row
    → (contains row effect ≡ true) ↔ Elem effect row
unfolding contains
contains_iff row effect h = is_ok_iff (search-Searched effect row h)

sort_insert-IsSorted :
    (x : ℕ) (xs : List ℕ) → IsSorted xs → ¬ Elem x xs → IsSorted (sort_insert x xs)
unfolding sort_insert
sort_insert-IsSorted x [] h absent = (tt, tt)
sort_insert-IsSorted x (y ∷ ys) h absent = elim (Bool-cases (ltb y x)) [
  | inl below ↦
      rw (below, sort_insert)
        (
          Below-of_elems y (sort_insert x ys)
              (λ a m. ground (arith, Elem-sort_insert a x ys, lt_of_Below y a ys h.0)),
          sort_insert-IsSorted x ys h.1 (λ m. absent (inr m)),
        )
  | inr above ↦
      let step : x < y = ground arith in
      rw (above, sort_insert) ((step, Below-trans x y ys (omega arith) h.0), h)
]

-- One round of the loop of `union` adds the label, unless it is there.
union_step_lem :
    (merged : List ℕ) (effect : ℕ)
    → IsSorted merged
    → IsSorted (union_step merged effect)
      × ((a : ℕ) → Elem a (union_step merged effect) ↔ (Elem a merged ⊎ (a ≡ effect)))
unfolding union_step
union_step_lem merged effect h = go (search-Searched effect merged h)
  where
    go :
        {r : SearchResult}
        → Searched 0 effect merged r
        → let step : List ℕ = elim r [ ok pos ↦ merged | err pos ↦ insert_at pos effect merged ] in
          IsSorted step × ((a : ℕ) → Elem a step ↔ (Elem a merged ⊎ (a ≡ effect)))
    go (found p m) = (h, λ a. (inl, λ side. elim side [ inl old ↦ old | inr e ↦ rw e m ]))
    go (missing k p e absent place) =
        let at_k : p ≡ k = omega arith in
        rw (at_k, place)
          (
            sort_insert-IsSorted effect merged h absent,
            λ a. ground (arith, Elem-sort_insert a effect merged),
          )

-- The union of two rows, the first increasing, is increasing and holds the labels of either.
pub union_lem :
    (row other : SortedEffectRow)
    → IsSorted row
    → IsSorted (union row other)
      × ((a : ℕ) → Elem a (union row other) ↔ (Elem a row ⊎ Elem a other))
unfolding union
union_lem row [] h = (h, λ a. (inl, λ side. elim side [ inl m ↦ m | inr m ↦ absurd m ]))
union_lem row (effect ∷ rest) h =
    let (sorted, members) = union_step_lem row effect h in
    let (sorted', members') = union_lem (union_step row effect) rest sorted in
    (sorted', λ a. ground (arith, members a, members' a))

filter-IsSorted : (p : ℕ → Bool) (xs : List ℕ) → IsSorted xs → IsSorted (filter p xs)
filter-IsSorted p [] h = tt
filter-IsSorted p (x ∷ xs) h = elim (Bool-cases (p x)) [
  | inl keep ↦ rw keep (
    Below-of_elems x (filter p xs) (λ a m. lt_of_Below x a xs h.0 ((Elem-filter a p xs).0 m).0),
    filter-IsSorted p xs h.1,
  )
  | inr skip ↦ rw skip (filter-IsSorted p xs h.1)
]

-- The difference of two increasing rows is increasing and holds the labels of the first alone.
pub subtract_lem :
    (row other : SortedEffectRow)
    → IsSorted row
    → IsSorted other
    → IsSorted (subtract row other)
      × ((a : ℕ) → Elem a (subtract row other) ↔ (Elem a row × ¬ Elem a other))
unfolding subtract
subtract_lem row other h h' =
    let keep = λ (effect : ℕ). is_err (binary_search other effect) in
    (
      filter-IsSorted keep row h,
      λ a. ground (arith, Elem-filter a keep row, is_err_iff (search-Searched a other h')),
    )
