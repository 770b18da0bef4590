-- ===== src/Ir/FunctionGraph/Dense.antt =====
-- crates/cielo-ir/src/function_graph.rs: the dense ids, and what each stands for.
use cielo.Prelude.{
  ℕ, zero, suc, ◌+◌, ◌-◌, ◌^◌, ◌≤◌, ◌<◌, true, false, Option, none, some, List, [], ◌∷◌, length,
  get_elem?, set, replicate, ◌==◌, ==_iff, if◌then◌else◌, ◌≡◌, ◌⊎◌, refl, sym, ◌∙◌, ap, subst,
  arith, Bool-cases, inl, inr, length-set, length-replicate, get_elem?-none, get_elem?_of_lt,
  lt→ltb,
}
use cielo.Prelude.Explore.{mem}
use cielo.Prelude.NatSet.{IsNodup}
use cielo.Prelude.NatSet.Pigeon.{AllBelow}
use cielo.Base.Ids
use cielo.Ir.FunctionGraph.{
  remap_from, dense_remap, remap_func_id, filter_map, remap_callee, unwrap_or,
}

-- The place of a function in a list, counted from `k`.
abbrev pub position : ℕ → List ℕ → ℕ → Option ℕ
position k [] source = none
position k (x ∷ xs) source = if x == source then some k else position (suc k) xs source

abbrev or_else : Option ℕ → Option ℕ → Option ℕ
or_else none other = other
or_else (some id) other = some id

position-none : (k : ℕ) (xs : List ℕ) (s : ℕ) → mem s xs ≡ false → position k xs s ≡ none
position-none k [] s h = refl
position-none k (x ∷ xs) s h = ground (arith, ==_iff x s, ==_iff s x, position-none (suc k) xs s)

remap_func_id-set :
    (remap : List (Option ℕ)) (x s id : ℕ)
    → x < length remap
    → remap_func_id (set remap x (some id)) s ≡ (if x == s then some id else remap_func_id remap s)
unfolding remap_func_id
remap_func_id-set [] x s id h = absurd (omega arith)
remap_func_id-set (o ∷ remap) zero zero id h = refl
remap_func_id-set (o ∷ remap) zero (suc s) id h = ground arith
remap_func_id-set (o ∷ remap) (suc x) zero id h = ground arith
remap_func_id-set (o ∷ remap) (suc x) (suc s) id h = ground (arith, remap_func_id-set remap x s id)

record Remapped (remap : List (Option ℕ)) (k : ℕ) (xs : List ℕ) (remap' : List (Option ℕ))
    : Type 0 where
  size : length remap' ≡ length remap
  found : (s : ℕ) → remap_func_id remap' s ≡ or_else (position k xs s) (remap_func_id remap s)

remap_from-Remapped :
    (xs : List ℕ) (k : ℕ) (remap : List (Option ℕ))
    → IsNodup xs
    → AllBelow (length remap) xs
    → k + length xs ≤ 2 ^ 32
    → (remap' : List (Option ℕ)) × (remap_from remap k xs ≡ some remap')
      × Remapped remap k xs remap'
unfolding remap_from
remap_from-Remapped [] k remap nodup below small =
    (remap, refl, record { size = refl; found = λ s. refl })
remap_from-Remapped (x ∷ xs) k remap (once, nodup) (lt, below) small =
    let size = length-set remap x (some k) in
    let below' : AllBelow (length (set remap x (some k))) xs =
      subst (λ (n : ℕ). AllBelow n xs) (sym size) below in
    let (remap', returned, r) =
      remap_from-Remapped xs (suc k) (set remap x (some k)) nodup below' (omega arith) in
    (
      remap',
      rw (lt→ltb x (length remap) lt) (rw (Ids.new-eq_of_lt k (omega arith)) returned),
      record {
        size = r.size ∙ size;
        found =
            λ s. r.found s ∙ rw (remap_func_id-set remap x s k lt) (split s (Bool-cases (x == s)));
      },
    )
  where
    split :
        (s : ℕ)
        → ((x == s) ≡ true) ⊎ ((x == s) ≡ false)
        → or_else (position (suc k) xs s) (if x == s then some k else remap_func_id remap s)
          ≡ or_else (if x == s then some k else position (suc k) xs s) (remap_func_id remap s)
    split s (inl e) =
        let same : x ≡ s = (==_iff x s).0 e in
        let missing : mem s xs ≡ false = subst (λ (s : ℕ). mem s xs ≡ false) same once in
        rw e (rw (position-none (suc k) xs s missing))
    split s (inr e) = rw e

no_ids : (n s : ℕ) → remap_func_id (replicate n none) s ≡ none
unfolding remap_func_id
no_ids zero s = refl
no_ids (suc n) zero = refl
no_ids (suc n) (suc s) = no_ids n s

or_else-none : (o : Option ℕ) → or_else o none ≡ o
or_else-none none = refl
or_else-none (some id) = refl

-- The remapping of distinct functions in range returns, and gives each its place among those kept
-- and the others nothing.
pub dense_remap-position :
    (total : ℕ) (reachable : List ℕ)
    → IsNodup reachable
    → AllBelow total reachable
    → length reachable ≤ 2 ^ 32
    → (remap : List (Option ℕ)) × (dense_remap total reachable ≡ some remap)
      × (length remap ≡ total)
      × ((s : ℕ) → remap_func_id remap s ≡ position 0 reachable s)
unfolding dense_remap
dense_remap-position total reachable nodup below small =
    let empty : Option ℕ = none in
    let size = length-replicate total empty in
    let below' : AllBelow (length (replicate total empty)) reachable =
      subst (λ (n : ℕ). AllBelow n reachable) (sym size) below in
    let (remap, returned, r) =
      remap_from-Remapped reachable 0 (replicate total empty) nodup below' (omega arith) in
    (
      remap,
      returned,
      r.size ∙ size,
      λ s. r.found s ∙ rw (no_ids total s) (or_else-none (position 0 reachable s)),
    )

pub filter_map-cons :
    {A B : Type 0} (f : A → Option B) (x : A) (xs : List A) {y : B}
    → f x ≡ some y
    → filter_map f (x ∷ xs) ≡ y ∷ filter_map f xs
filter_map-cons f x xs h = rw (h, filter_map)

module _ {A : Type 0} (functions : List A) where
  -- The functions kept stand at the places that the ids are remapped to.
  pub kept_get :
      (xs : List ℕ) (k s i : ℕ)
      → AllBelow (length functions) xs
      → position k xs s ≡ some i
      → (k ≤ i) × (get_elem? (filter_map (get_elem? functions) xs) (i - k) ≡ get_elem? functions s)
  kept_get [] k s i below h = cc
  kept_get (x ∷ xs) k s i (lt, below) h =
      let (f, found) = get_elem?_of_lt functions x lt in
      rw (filter_map-cons (get_elem? functions) x xs found) (elim (Bool-cases (x == s)) [
        | inl e ↦
            let same : x ≡ s = (==_iff x s).0 e in
            let here : some k ≡ some i = rw e at h in
            let at_k : k ≡ i = cc in
            let zero_left : i - k ≡ 0 = omega arith in
            (omega arith, rw zero_left (sym found ∙ ap (get_elem? functions) same))
        | inr e ↦
            let (le, rest) = kept_get xs (suc k) s i below (rw e at h) in
            let left : i - k ≡ suc (i - suc k) = omega arith in (omega arith, rw left rest)
      ])

  pub kept_length :
      (xs : List ℕ)
      → AllBelow (length functions) xs
      → length (filter_map (get_elem? functions) xs) ≡ length xs
  kept_length [] below = refl
  kept_length (x ∷ xs) (lt, below) =
      let (f, found) = get_elem?_of_lt functions x lt in
      rw (filter_map-cons (get_elem? functions) x xs found) (ap suc (kept_length xs below))

  pub position-some :
      (k : ℕ) (xs : List ℕ) (s : ℕ) → mem s xs ≡ true → (i : ℕ) × (position k xs s ≡ some i)
  position-some k [] s h = cc
  position-some k (x ∷ xs) s h = elim (Bool-cases (x == s)) [
    | inl e ↦ (k, rw e)
    | inr e ↦
        let (i, found) = position-some (suc k) xs s (ground (arith, ==_iff x s, ==_iff s x)) in
        (i, rw e found)
  ]

  -- After the functions are reduced to those reachable, the id that a call site gets resolves to the
  -- function that it named if that is reachable, and to none otherwise.
  pub remap_callees-resolve :
      (reachable : List ℕ)
      → IsNodup reachable
      → AllBelow (length functions) reachable
      → length reachable ≤ length functions
      → length functions < 2 ^ 32
      → (remap : List (Option ℕ)) × (dense_remap (length functions) reachable ≡ some remap)
        × ((callee : ℕ)
            → get_elem?
                (filter_map (get_elem? functions) reachable)
                (remap_callee remap (length functions) callee)
              ≡ (if mem callee reachable then get_elem? functions callee else none))
  unfolding remap_callee
  remap_callees-resolve reachable nodup below fewer small =
      let (remap, returned, size, place) =
        dense_remap-position (length functions) reachable nodup below (omega arith) in
      (
        remap,
        returned,
        λ callee. rw (place callee) (split callee (Bool-cases (mem callee reachable))),
      )
    where
      split :
          (callee : ℕ)
          → ((mem callee reachable) ≡ true) ⊎ ((mem callee reachable) ≡ false)
          → get_elem?
              (filter_map (get_elem? functions) reachable)
              (unwrap_or (position 0 reachable callee) (length functions))
            ≡ (if mem callee reachable then get_elem? functions callee else none)
      split callee (inl e) =
          let (i, found) = position-some 0 reachable callee e in
          let (_, resolved) = kept_get reachable 0 callee i below found in
          let whole : i - 0 ≡ i = omega arith in rw (e, found) (rw whole at resolved)
      split callee (inr e) =
          rw (e, position-none 0 reachable callee e)
            (get_elem?-none (filter_map (get_elem? functions) reachable) (length functions)
              (omega (arith, kept_length reachable below)))
