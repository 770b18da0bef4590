-- ===== src/Staging/ConstantTable/Laws.antt =====
-- crates/cielo-staging/src/passes/constant_table.rs: the budget and the entries of the table.
use cielo.Prelude.{
  ℕ, ◌+◌, ◌≤◌, ◌≡◌, refl, ap, inl, inr, ◌⊎◌, true, false, List, [], ◌∷◌, ◌++◌, arith, ltb, ◌==◌,
  Elem, Bool-cases,
}
use cielo.Prelude.Classes.{Text}
use cielo.Staging.ConstantTable.{
  ScalarLiteralKey, CtorLiteralKey, ConstantEntry, ConstPoolBudget, ConstantCounts, Pool,
  try_reserve, reserve_and_push, scalar_entry, string_entry, ctor_entry, pool_scalars, pool_strings,
  pool_ctors, finalize_constant_table, should_pool_ctor_literal, estimate_ctor_pool_bytes,
  empty_pool, saturating_add, max_const_pool_bytes, max_const_entry_bytes,
}

pub total_bytes : List ConstantEntry → ℕ
total_bytes [] = 0
total_bytes (entry ∷ rest) = entry.estimated_size_bytes + total_bytes rest

total_bytes-append :
    (xs : List ConstantEntry) (x : ConstantEntry)
    → total_bytes (xs ++ x ∷ []) ≡ total_bytes xs + x.estimated_size_bytes
unfolding total_bytes
total_bytes-append [] x = omega arith
total_bytes-append (y ∷ xs) x = omega (arith, total_bytes-append xs x)

-- What the counts give a reason to embed.
pub IsWarranted : ConstantCounts → ConstantEntry → Type 0
IsWarranted counts entry =
    ((key : ScalarLiteralKey) × (count : ℕ) × Elem (key, count) counts.scalars
      × (2 ≤ count)
      × (entry ≡ scalar_entry key))
    ⊎ ((value : Text) × Elem value counts.strings × (entry ≡ string_entry value))
    ⊎ ((key : CtorLiteralKey) × (count : ℕ) × Elem (key, count) counts.ctors
        × (should_pool_ctor_literal count (estimate_ctor_pool_bytes key) ≡ true)
        × (entry ≡ ctor_entry key))

-- The budget counts the bytes of the entries, each of which is small and warranted.
record IsPool (counts : ConstantCounts) (pool : Pool) : Type 0 where
  used : pool.0.used_bytes ≡ total_bytes pool.1
  limit : pool.0.max_bytes ≡ max_const_pool_bytes
  fits : pool.0.used_bytes ≤ pool.0.max_bytes
  small : (e : ConstantEntry) → Elem e pool.1 → e.estimated_size_bytes ≤ max_const_entry_bytes
  warranted : (e : ConstantEntry) → Elem e pool.1 → IsWarranted counts e

Elem-append :
    (e x : ConstantEntry) (xs : List ConstantEntry) → Elem e (xs ++ x ∷ []) → Elem e xs ⊎ (e ≡ x)
Elem-append e x [] (inl h) = inr h
Elem-append e x [] (inr h) = elim h [ ]
Elem-append e x (y ∷ xs) (inl h) = inl (inl h)
Elem-append e x (y ∷ xs) (inr h) = elim (Elem-append e x xs h) [
  | inl m ↦ inl (inr m)
  | inr same ↦ inr same
]

try_reserve_cases :
    (b : ConstPoolBudget) (n : ℕ)
    → b.max_bytes ≡ max_const_pool_bytes
    → b.used_bytes ≤ b.max_bytes
    → (try_reserve b n ≡ (b, false))
      ⊎ ((try_reserve b n ≡ (record b { used_bytes = b.used_bytes + n }, true))
          × (n ≤ max_const_entry_bytes)
          × (b.used_bytes + n ≤ b.max_bytes))
unfolding try_reserve
try_reserve_cases b n limit fits = elim (Bool-cases (n == 0)) [
  | inl empty ↦
      let nothing : b.used_bytes ≡ b.used_bytes + n = ground arith in
      rw empty (
        inr (
          ap (λ (u : ℕ). (record b { used_bytes = u }, true)) nothing,
          ground arith,
          omega (arith, fits, nothing),
        ))
  | inr some_bytes ↦ elim (Bool-cases (ltb max_const_entry_bytes n)) [
    | inl large ↦ rw (some_bytes, large) (inl refl)
    | inr fine ↦
        let low : n ≤ max_const_entry_bytes = ground arith in
        let exact : saturating_add b.used_bytes n ≡ b.used_bytes + n = omega arith in
        elim (Bool-cases (ltb b.max_bytes (b.used_bytes + n))) [
          | inl over ↦ rw (some_bytes, fine, exact, over) (inl refl)
          | inr room ↦ rw (some_bytes, fine, exact, room) (inr (refl, low, ground arith))
        ]
  ]
]

reserve_and_push-IsPool :
    (counts : ConstantCounts) (pool : Pool) (entry : ConstantEntry)
    → IsWarranted counts entry
    → IsPool counts pool
    → IsPool counts (reserve_and_push pool entry)
unfolding reserve_and_push
reserve_and_push-IsPool counts (b, entries) entry reason p =
    elim (try_reserve_cases b entry.estimated_size_bytes p.limit p.fits) [
      | inl refused ↦ rw (refused) p
      | inr (taken, low, room) ↦ rw (taken) (record {
        used = omega (arith, p.used, total_bytes-append entries entry);
        limit = p.limit;
        fits = room;
        small = λ e m. elim (Elem-append e entry entries m) [
          | inl old ↦ p.small e old
          | inr same ↦ rw same low
        ];
        warranted = λ e m. elim (Elem-append e entry entries m) [
          | inl old ↦ p.warranted e old
          | inr same ↦ rw same reason
        ];
      })
    ]

pool_scalars-IsPool :
    (counts : ConstantCounts) (pool : Pool) (rest : List (ScalarLiteralKey × ℕ))
    → ((key : ScalarLiteralKey) (count : ℕ)
        → Elem (key, count) rest
        → Elem (key, count) counts.scalars)
    → IsPool counts pool
    → IsPool counts (pool_scalars pool rest)
unfolding pool_scalars IsWarranted
pool_scalars-IsPool counts pool [] listed p = p
pool_scalars-IsPool counts pool ((key, count) ∷ rest) listed p = elim (Bool-cases (ltb count 2)) [
  | inl rare ↦ rw rare (pool_scalars-IsPool counts pool rest (λ k n m. listed k n (inr m)) p)
  | inr twice ↦ rw twice (
      pool_scalars-IsPool counts (reserve_and_push pool (scalar_entry key)) rest
        (λ k n m. listed k n (inr m))
        (reserve_and_push-IsPool counts pool (scalar_entry key)
          (inl (key, count, listed key count (inl refl), ground arith, refl)) p))
]

pool_strings-IsPool :
    (counts : ConstantCounts) (pool : Pool) (rest : List Text)
    → ((value : Text) → Elem value rest → Elem value counts.strings)
    → IsPool counts pool
    → IsPool counts (pool_strings pool rest)
unfolding pool_strings IsWarranted
pool_strings-IsPool counts pool [] listed p = p
pool_strings-IsPool counts pool (value ∷ rest) listed p =
    pool_strings-IsPool counts (reserve_and_push pool (string_entry value)) rest
      (λ v m. listed v (inr m))
      (reserve_and_push-IsPool counts pool (string_entry value)
        (inr (inl (value, listed value (inl refl), refl))) p)

pool_ctors-IsPool :
    (counts : ConstantCounts) (pool : Pool) (rest : List (CtorLiteralKey × ℕ))
    → ((key : CtorLiteralKey) (count : ℕ) → Elem (key, count) rest → Elem (key, count) counts.ctors)
    → IsPool counts pool
    → IsPool counts (pool_ctors pool rest)
unfolding pool_ctors IsWarranted
pool_ctors-IsPool counts pool [] listed p = p
pool_ctors-IsPool counts pool ((key, count) ∷ rest) listed p =
    elim (Bool-cases (should_pool_ctor_literal count (estimate_ctor_pool_bytes key))) [
      | inr unworthy ↦
          rw unworthy (pool_ctors-IsPool counts pool rest (λ k n m. listed k n (inr m)) p)
      | inl worthy ↦ rw worthy (
          pool_ctors-IsPool counts (reserve_and_push pool (ctor_entry key)) rest
            (λ k n m. listed k n (inr m))
            (reserve_and_push-IsPool counts pool (ctor_entry key)
              (inr (inr (key, count, listed key count (inl refl), worthy, refl))) p))
    ]

empty-IsPool : (counts : ConstantCounts) → IsPool counts empty_pool
unfolding total_bytes
empty-IsPool counts = record {
  used = refl;
  limit = refl;
  fits = omega arith;
  small = λ e m. elim m [ ];
  warranted = λ e m. elim m [ ];
}

-- The total of the table is the sum of its entries' estimated sizes and at most 16 KiB, each entry is
-- of at most 1 KiB, and each was counted: a scalar twice or more, a string, or a constructor that is
-- worth pooling.
pub finalize_constant_table_lem :
    (counts : ConstantCounts)
    → ((finalize_constant_table counts).total_size_bytes
        ≡ total_bytes (finalize_constant_table counts).entries)
      × ((finalize_constant_table counts).total_size_bytes ≤ 16384)
      × ((e : ConstantEntry)
          → Elem e (finalize_constant_table counts).entries
          → (e.estimated_size_bytes ≤ 1024) × IsWarranted counts e)
unfolding finalize_constant_table
finalize_constant_table_lem counts =
    let scalars =
      pool_scalars-IsPool counts empty_pool counts.scalars (λ k n m. m) (empty-IsPool counts) in
    let strings =
      pool_strings-IsPool counts (pool_scalars empty_pool counts.scalars) counts.strings (λ v m. m)
        scalars in
    let p =
      pool_ctors-IsPool counts
        (pool_strings (pool_scalars empty_pool counts.scalars) counts.strings) counts.ctors
        (λ k n m. m) strings in
    (p.used, omega (arith, p.fits, p.limit), λ e m. (p.small e m, p.warranted e m))
