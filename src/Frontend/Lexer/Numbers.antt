-- ===== src/Frontend/Lexer/Numbers.antt =====
-- crates/cielo-frontend/src/lexer.rs: the round that lexes a number.
use cielo.Prelude.{
  ℕ, ◌+◌, ◌≤◌, ◌<◌, ◌≡◌, refl, ap, inl, inr, Bool, true, false, ◌&&◌, ◌||◌, Option, some, arith,
  length, get_elem?, lt-length_of_get_elem?, ◌==◌, if◌then◌else◌, Option-cases, Bool-cases,
}
use cielo.Prelude.Classes.{Text}
use cielo.Frontend.Lexer.Token.{Lexer, peek, peek_n, advance, slice, is_digit, matches}
use cielo.Frontend.Lexer.Scan.{eat_while, eat_digits}
use cielo.Frontend.Lexer.Literals.{
  number_value, parse_int, lex_fraction, lex_exponent, lex_number, at_number_tail, is_number_tail,
  exponent_digits_follow,
}
use cielo.Frontend.Lexer.Moves.{
  Moves, Moves-refl, Moves-trans, eat_while-Moves, HasRoom, Succeeds, push_token-Succeeds,
  report-Succeeds, advance_one,
}
use cielo.Frontend.Lexer.Words.{count_while_pos}

-- A byte that passes a test is within the bytes.
matches-within :
    (p : ℕ → Bool) (xs : Text) (i : ℕ) → matches p (get_elem? xs i) ≡ true → i < length xs
matches-within p xs i h = elim (Option-cases (get_elem? xs i)) [
  | inl gone ↦ absurd (cc (gone, h))
  | inr (c, there) ↦ lt-length_of_get_elem? xs i there
]

and-left : (a b : Bool) → a && b ≡ true → a ≡ true
and-left true b h = refl
and-left false b h = absurd (cc h)

module _ {F : Type 0} where
  -- an `if` between two states, each of which is a move where its condition holds
  if-Moves :
      (l x y : Lexer F) (b : Bool)
      → (b ≡ true → Moves l x)
      → (b ≡ false → Moves l y)
      → Moves l (if b then x else y)
  if-Moves l x y true t f = t refl
  if-Moves l x y false t f = f refl

  first-if :
      (b : Bool) (x y : Lexer F) (s t : Bool)
      → (if◌then◌else◌ {A = Lexer F × Bool} b (x, s) (y, t)).0 ≡ (if b then x else y)
  first-if true x y s t = refl
  first-if false x y s t = refl

  lex_fraction-Moves : (l : Lexer F) → l.offset ≤ length l.bytes → Moves l (lex_fraction l).0
  unfolding lex_fraction eat_digits
  lex_fraction-Moves l within =
      let point = matches (λ c. c == b'.') (peek l) in
      let digit = matches is_digit (peek_n l 1) in
      rw (first-if (point && digit) (eat_digits (advance 1 l)) l true false) (
        if-Moves l (eat_digits (advance 1 l)) l (point && digit)
          (λ e.
            let less = matches-within (λ c. c == b'.') l.bytes l.offset (and-left point digit e) in
            Moves-trans (advance_one l less)
              (eat_while-Moves is_digit (advance 1 l) (omega (arith, less))))
          (λ e. Moves-refl l within))

  lex_exponent-Moves : (l : Lexer F) → l.offset ≤ length l.bytes → Moves l (lex_exponent l).0
  unfolding lex_exponent eat_digits
  lex_exponent-Moves l within =
      let mark = matches (λ c. c == b'e' || c == b'E') (peek l) in
      let follow = exponent_digits_follow l in
      let sign = matches (λ c. c == b'+' || c == b'-') (peek_n l 1) in
      let signed = if sign then advance 1 (advance 1 l) else advance 1 l in
      rw (first-if (mark && follow) (eat_digits signed) l true false) (
        if-Moves l (eat_digits signed) l (mark && follow)
          (λ e.
            let less =
              matches-within (λ c. c == b'e' || c == b'E') l.bytes l.offset
                (and-left mark follow e) in
            let one : Moves l (advance 1 l) = advance_one l less in
            let moved : Moves l signed =
              if-Moves l (advance 1 (advance 1 l)) (advance 1 l) sign
                (λ s. Moves-trans one (
                  advance_one (advance 1 l)
                    (matches-within (λ c. c == b'+' || c == b'-') l.bytes (l.offset + 1) s)))
                (λ s. one) in
            Moves-trans moved (
              eat_while-Moves is_digit signed
                (omega (arith, moved.bounded, ap length moved.bytes))))
          (λ e. Moves-refl l within))

  number_value-Succeeds :
      (parse_finite : Text → Option F) (l m : Lexer F) (is_float : Bool) (text : Text)
      → HasRoom l
      → Moves l m
      → l.offset < m.offset
      → Succeeds l (number_value parse_finite l.offset is_float text m)
  unfolding number_value
  number_value-Succeeds parse_finite l m true text room moves less =
      elim (Option-cases (parse_finite text)) [
        | inl e ↦ rw (e, number_value) (report-Succeeds _ _ _ _ l m room moves less)
        | inr (value, e) ↦ rw (e, number_value) (push_token-Succeeds _ l m moves less)
      ]
  number_value-Succeeds parse_finite l m false text room moves less =
      elim (Option-cases (parse_int text)) [
        | inl e ↦ rw (e, number_value) (report-Succeeds _ _ _ _ l m room moves less)
        | inr (value, e) ↦ rw (e, number_value) (push_token-Succeeds _ l m moves less)
      ]

  pub lex_number-Succeeds :
      (parse_finite : Text → Option F) (l : Lexer F) (c : ℕ)
      → HasRoom l
      → peek l ≡ some c
      → is_digit c ≡ true
      → Succeeds l (lex_number parse_finite l)
  unfolding lex_number eat_digits
  lex_number-Succeeds parse_finite l c room here digit =
      let less : l.offset < length l.bytes = lt-length_of_get_elem? l.bytes l.offset here in
      let whole : Moves l (eat_digits l) = eat_while-Moves is_digit l (omega (arith, less)) in
      let first : l.offset < (eat_digits l).offset =
        omega (arith, count_while_pos is_digit l.offset l.bytes c here digit) in
      let fraction = lex_fraction (eat_digits l) in
      let to_fraction : Moves l fraction.0 =
        Moves-trans whole (lex_fraction-Moves (eat_digits l) (omega (arith, whole.bounded))) in
      let exponent = lex_exponent fraction.0 in
      let end = exponent.0 in
      let more : Moves fraction.0 end =
        lex_exponent-Moves fraction.0
          (omega (arith, to_fraction.bounded, ap length to_fraction.bytes)) in
      let frac : Moves (eat_digits l) fraction.0 =
        lex_fraction-Moves (eat_digits l) (omega (arith, whole.bounded)) in
      let to_end : Moves l end = Moves-trans to_fraction more in
      let further : l.offset < end.offset = omega (arith, first, frac.forward, more.forward) in
      elim (Bool-cases (at_number_tail end)) [
        | inl tail ↦ rw (tail) (
            let swallowed : Moves end (eat_while is_number_tail end) =
              eat_while-Moves is_number_tail end
                (omega (arith, to_end.bounded, ap length to_end.bytes)) in
            report-Succeeds l.offset (eat_while is_number_tail end).offset _ _ l _ room
              (Moves-trans to_end swallowed) (omega (arith, further, swallowed.forward)))
        | inr no_tail ↦ rw (no_tail) (
            number_value-Succeeds parse_finite l end (fraction.1 || exponent.1)
              (slice l.bytes l.offset end.offset) room to_end further)
      ]
