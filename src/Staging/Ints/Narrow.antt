-- ===== src/Staging/Ints/Narrow.antt =====
-- crates/cielo-staging/src/passes/ct_common.rs: `normalize_int` on a word of `b` bits.
use native.Mathlib.Nat.{
  pow-suc, one-le-pow, mul_assoc, add-mul-mod_self_right, mod-eq_of_lt, mod-lt, mod-add-div',
}
use native.Mathlib.Decide.{dec_lt}
use cielo.Prelude.{
  ℕ, zero, suc, ◌+◌, ◌-◌, ◌*◌, ◌/◌, ◌%◌, ◌^◌, ◌≤◌, ◌<◌, ◌≡◌, refl, ap, sym, ◌∙◌, arith,
  if◌then◌else◌, ltb, leb, lt→ltb, Bool-cases, true, false, inl, inr,
}
use cielo.Prelude.Int.{ℤ, pos, negsuc, pos_part, neg_part}
use cielo.Staging.Ints.{two63, two64, to_word, of_word, shr, normalize_int, clamped}

-- The low half of a modulus `h + h` stands for itself, the high half for the negative numbers.
abbrev pub signed : ℕ → ℕ → ℤ
signed h u = if ltb u h then pos u else negsuc (h + h - 1 - u)

pow-add : (a b : ℕ) → 2 ^ (a + b) ≡ 2 ^ a * 2 ^ b
pow-add a zero = grind arith
pow-add a (suc b) =
    let e : a + suc b ≡ suc (a + b) = omega arith in
    rw (e, pow-suc) (rw (pow-suc, pow-add a b) (mul_assoc (2 ^ a) (2 ^ b) 2))

mul-mod-mul : (w k m : ℕ) → 0 < m → 0 < k → (w * m) % (k * m) ≡ (w % k) * m
mul-mod-mul w k m hm hk =
    let q = w / k in
    let u = w % k in
    let split : w * m ≡ u * m + q * (k * m) =
      omega (arith, ap (λ (t : ℕ). t * m) (mod-add-div' w k)) in
    let small : u * m < k * m = grind (arith, mod-lt w hk) in
    rw split (add-mul-mod_self_right (u * m) q (k * m) ∙ mod-eq_of_lt small)

mul-div : (a m : ℕ) → 0 < m → (a * m) / m ≡ a
mul-div a m h = grind arith

mul-div_last : (a m : ℕ) → 0 < m → (a * m + (m - 1)) / m ≡ a
mul-div_last a m h = grind arith

ltb-mul : (u h m : ℕ) → 0 < m → ltb u h ≡ true → ltb (u * m) (h * m) ≡ true
ltb-mul u h m hm below =
    let p : u < h = ground arith in let q : u * m < h * m = grind arith in lt→ltb (u * m) (h * m) q

ltb-mul_false : (u h m : ℕ) → ltb u h ≡ false → ltb (u * m) (h * m) ≡ false
ltb-mul_false u h m above =
    let p : h ≤ u = ground arith in let q : h * m ≤ u * m = grind arith in ground arith

rest-mul :
    (h m u : ℕ)
    → 0 < m
    → (h + h) * m ≡ two64
    → u < h + h
    → two64 - 1 - u * m ≡ (h + h - 1 - u) * m + (m - 1)
rest-mul h m u hm whole small =
    let a = h + h - 1 - u in
    let parts : a + u + 1 ≡ h + h = omega arith in
    let scaled : a * m + u * m + m ≡ two64 = omega (arith, ap (λ (t : ℕ). t * m) parts) in
    omega arith

-- Shifting a word up by a factor `m` and down again reads its low part with its sign, where the
-- modulus `h + h` of the low part and the factor make a word.
shr-of_word :
    (h m s w : ℕ)
    → 0 < m
    → 2 ^ s ≡ m
    → h * m ≡ two63
    → shr (of_word ((w * m) % two64)) s ≡ signed h (w % (h + h))
unfolding shr
shr-of_word h m s w hm e prod =
    let whole : (h + h) * m ≡ two64 = grind arith in
    let pos_h : 0 < h + h = grind arith in
    let u = w % (h + h) in
    let low : (w * m) % two64 ≡ u * m = rw (← whole) (mul-mod-mul w (h + h) m hm pos_h) in
    elim (Bool-cases (ltb u h)) [
      | inl below ↦
          let fits : ltb (u * m) two63 ≡ true = rw (← prod) (ltb-mul u h m hm below) in
          rw (low, fits, below, shr, e) (ap pos (mul-div u m hm))
      | inr above ↦
          let over : ltb (u * m) two63 ≡ false = rw (← prod) (ltb-mul_false u h m above) in
          let last : two64 - 1 - u * m ≡ (h + h - 1 - u) * m + (m - 1) =
            rest-mul h m u hm whole (mod-lt w pos_h) in
          rw (low, over, above, shr, last, e) (ap negsuc (mul-div_last (h + h - 1 - u) m hm))
    ]

-- half of the target's modulus
abbrev pub half : ℕ → ℕ
half bits = 2 ^ (clamped bits - 1)

module _ (bits : ℕ) (narrow : clamped bits < 64) where
  half-mul : half bits * 2 ^ (64 - clamped bits) ≡ two63
  half-mul =
      let sum : clamped bits - 1 + (64 - clamped bits) ≡ 63 = omega arith in
      sym (pow-add (clamped bits - 1) (64 - clamped bits)) ∙ ap (λ (k : ℕ). 2 ^ k) sum

  normalize_int-signed :
      (v : ℤ) → normalize_int v bits ≡ signed (half bits) (to_word v % (half bits + half bits))
  unfolding normalize_int
  normalize_int-signed v =
      let wide : leb 64 (clamped bits) ≡ false = ground arith in
      rw (wide, normalize_int)
        (shr-of_word (half bits) (2 ^ (64 - clamped bits)) (64 - clamped bits) (to_word v)
          (one-le-pow (64 - clamped bits) 2 (omega arith)) refl half-mul)

-- One modulus less than the whole word.
modulus_left : (k m : ℕ) → 0 < m → k * m ≡ two64 → (m - 1) * k + k ≡ two64
modulus_left k m hm whole =
    let one : m - 1 + 1 ≡ m = omega arith in omega (arith, ap (λ (t : ℕ). t * k) one)

-- The low part of the pattern of a small integer reads back as the integer.
signed-to_word :
    (h m : ℕ) (v : ℤ)
    → 0 < m
    → (h + h) * m ≡ two64
    → pos_part v < h
    → neg_part v ≤ h
    → signed h (to_word v % (h + h)) ≡ v
signed-to_word h m (pos n) hm whole up low =
    let bound : h + h ≤ two64 = grind arith in
    let word : n % two64 ≡ n = omega arith in
    let part : n % (h + h) ≡ n = mod-eq_of_lt (omega arith) in rw (word, part) (ground arith)
signed-to_word h m (negsuc n) hm whole up low =
    let bound : h + h ≤ two64 = grind arith in
    let word : n % two64 ≡ n = omega arith in
    let split : two64 - 1 - n ≡ h + h - 1 - n + (m - 1) * (h + h) =
      omega (arith, modulus_left (h + h) m hm whole) in
    let part : (two64 - 1 - n) % (h + h) ≡ h + h - 1 - n =
      rw split
        (add-mul-mod_self_right (h + h - 1 - n) (m - 1) (h + h) ∙ mod-eq_of_lt (omega arith)) in
    rw (word, part) (ground arith)

-- The pattern of the integer that `signed` reads has the low part that was read.
to_word-signed :
    (h m u : ℕ) → 0 < m → (h + h) * m ≡ two64 → u < h + h → to_word (signed h u) % (h + h) ≡ u
to_word-signed h m u hm whole small = elim (Bool-cases (ltb u h)) [
  | inl below ↦
      let bound : h + h ≤ two64 = grind arith in
      let word : u % two64 ≡ u = omega arith in rw (below, word) (mod-eq_of_lt small)
  | inr above ↦
      let bound : h + h ≤ two64 = grind arith in
      let word : (h + h - 1 - u) % two64 ≡ h + h - 1 - u = omega arith in
      let split : two64 - 1 - (h + h - 1 - u) ≡ u + (m - 1) * (h + h) =
        omega (arith, modulus_left (h + h) m hm whole) in
      rw (above, word, split) (add-mul-mod_self_right u (m - 1) (h + h) ∙ mod-eq_of_lt small)
]

signed_pos : (h u : ℕ) → 0 < h → pos_part (signed h u) < h
signed_pos h u p = ground arith

signed_neg : (h u : ℕ) → u < h + h → neg_part (signed h u) ≤ h
signed_neg h u small = ground arith

normalize_int_wide : (bits : ℕ) (v : ℤ) → ¬ (clamped bits < 64) → normalize_int v bits ≡ v
unfolding normalize_int
normalize_int_wide bits v wide = ground arith

module _ (bits : ℕ) (narrow : clamped bits < 64) where
  m_pos : 0 < 2 ^ (64 - clamped bits)
  m_pos = one-le-pow (64 - clamped bits) 2 (omega arith)

  half_pos : 0 < half bits
  half_pos = one-le-pow (clamped bits - 1) 2 (omega arith)

  whole_word : (half bits + half bits) * 2 ^ (64 - clamped bits) ≡ two64
  whole_word = omega (arith, half-mul bits narrow)

  low_part : (v : ℤ) → to_word v % (half bits + half bits) < half bits + half bits
  low_part v = mod-lt (to_word v) (omega (arith, half_pos))

  -- On a word of fewer than 64 bits narrowing gives an integer of the word: from -2^(b - 1) to
  -- 2^(b - 1) - 1, where `b` is the word size. The pattern keeps its last `b` bits.
  pub normalize_int_wraps :
      (v : ℤ)
      → (pos_part (normalize_int v bits) < half bits)
        × (neg_part (normalize_int v bits) ≤ half bits)
        × (to_word (normalize_int v bits) % (half bits + half bits)
            ≡ to_word v % (half bits + half bits))
  normalize_int_wraps v =
      let u = to_word v % (half bits + half bits) in
      rw (normalize_int-signed bits narrow v) (
        signed_pos (half bits) u half_pos,
        signed_neg (half bits) u (low_part v),
        to_word-signed (half bits) (2 ^ (64 - clamped bits)) u m_pos whole_word (low_part v),
      )

  -- On a word of fewer than 64 bits an integer from -2^(b - 1) to 2^(b - 1) - 1, where `b` is the
  -- word size, is left as it is.
  pub normalize_int_fixed :
      (v : ℤ) → pos_part v < half bits → neg_part v ≤ half bits → normalize_int v bits ≡ v
  normalize_int_fixed v up low =
      normalize_int-signed bits narrow v
      ∙ signed-to_word (half bits) (2 ^ (64 - clamped bits)) v m_pos whole_word up low

-- Narrowing twice is narrowing once, for each word size, also those of 64 bits and more.
pub normalize_int_idem :
    (bits : ℕ) (v : ℤ) → normalize_int (normalize_int v bits) bits ≡ normalize_int v bits
normalize_int_idem bits v = elim (dec_lt (clamped bits) 64) [
  | yes narrow ↦
      let (up, low, _) = normalize_int_wraps bits narrow v in
      normalize_int_fixed bits narrow (normalize_int v bits) up low
  | no wide ↦ normalize_int_wide bits (normalize_int v bits) wide
]
