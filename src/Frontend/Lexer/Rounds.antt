-- ===== src/Frontend/Lexer/Rounds.antt =====
-- crates/cielo-frontend/src/lexer.rs: one round of the loop of `run`, on each byte.
use cielo.Prelude.{
  ℕ, ◌+◌, ◌<◌, ◌≡◌, refl, inl, inr, Bool, true, false, Option, none, some, ◌++◌, arith, length,
  drop, get_elem?, lt-length_of_get_elem?, ◌==◌, if◌then◌else◌, Option-cases,
}
use cielo.Prelude.Classes.{Text, codes}
use cielo.Base.Diagnostics.Laws.{push_error_returns}
use cielo.Frontend.Lexer.Token.{
  TokenKind, Lexer, peek, peek_n, advance, single, double, span_of, is_digit, is_ident,
  is_ident_start,
}
use cielo.Frontend.Lexer.Scan.{rest_of, count_line, skip_line_comment, count_line-le}
use cielo.Frontend.Lexer.Literals.{lex_string, lex_char, lex_number, lex_identifier_or_keyword}
use cielo.Frontend.Lexer.Run.{
  unexpected, char_text, punctuation, operator, operator_token, is_blank, begins_comment, lex_word,
  step,
}
use cielo.Frontend.Lexer.Moves.{
  length-drop, advance-Moves, HasRoom, Succeeds, push_token-Succeeds, silent-Succeeds, AtByte,
  advance_one,
}
use cielo.Frontend.Lexer.Numbers.{lex_number-Succeeds}
use cielo.Frontend.Lexer.Words.{
  drop-get_elem?, lex_string-Succeeds, lex_char-Succeeds, lex_identifier_or_keyword-Succeeds,
}

count_line_pos : (n : ℕ) (xs : Text) (c : ℕ) → get_elem? xs n ≡ some c → 0 < count_line (drop n xs)
unfolding count_line
count_line_pos n xs c h = rw (drop-get_elem? n xs h) (ground arith)

start-ident : (c : ℕ) → is_ident_start c ≡ true → is_ident c ≡ true
start-ident c h = ground (arith, h)

module _ {F : Type 0} where
  -- an error is reported, and the byte is passed over
  unexpected-Succeeds : (c : ℕ) (l : Lexer F) → HasRoom l → AtByte l → Succeeds l (unexpected c l)
  unfolding unexpected
  unexpected-Succeeds c l room here =
      let (bag, id, pushed, size) =
        push_error_returns l.diagnostics (codes "LEX_UNEXPECTED_CHAR")
          (codes "Unexpected character '" ++ (char_text c ++ codes "'"))
          (span_of l l.offset (l.offset + 1)) room.diagnostics in
      (
        advance 1 (record l { diagnostics = bag }),
        rw pushed,
        record {
          bytes = refl;
          source = refl;
          forward = omega arith;
          bounded = omega (arith, here);
          tokens = inl refl;
          diagnostics = omega (arith, size);
          symbols = omega arith;
        },
      )

  skip_line_comment-Succeeds :
      (c : ℕ) (l : Lexer F) → peek l ≡ some c → Succeeds l (some (skip_line_comment l))
  unfolding skip_line_comment
  skip_line_comment-Succeeds c l here =
      let less : l.offset < length l.bytes = lt-length_of_get_elem? l.bytes l.offset here in
      silent-Succeeds l _
        (advance-Moves (count_line (rest_of l)) l (count_line-le (rest_of l)) (omega (arith, less)))
        (omega (arith, count_line_pos l.offset l.bytes c here))

  -- A token of two bytes is taken only where there are two.
  operator_next :
      (c : ℕ) (next : Option ℕ) (kind : TokenKind F)
      → operator c next ≡ some (kind, true)
      → (d : ℕ) × (next ≡ some d)
  unfolding operator
  operator_next c (some d) kind h = (d, refl)
  operator_next c none kind h = absurd (ground (arith, h))

  operator_token-Succeeds :
      (c : ℕ) (l : Lexer F) (op : TokenKind F × Bool)
      → AtByte l
      → operator c (peek_n l 1) ≡ some op
      → Succeeds l (some (operator_token op l))
  unfolding single double
  operator_token-Succeeds c l (kind, true) here h =
      let (d, next) = operator_next c (peek_n l 1) kind h in
      let less = lt-length_of_get_elem? l.bytes (l.offset + 1) next in
      push_token-Succeeds kind l _
        (advance-Moves 2 l (omega (arith, length-drop l.offset l.bytes, less)) (omega arith))
        (omega arith)
  operator_token-Succeeds c l (kind, false) here h =
      push_token-Succeeds kind l _ (advance_one l here) (omega arith)

  if-Succeeds :
      (l : Lexer F) (x y : Option (Lexer F)) (b : Bool)
      → (b ≡ true → Succeeds l x)
      → (b ≡ false → Succeeds l y)
      → Succeeds l (if b then x else y)
  if-Succeeds l x y true t f = t refl
  if-Succeeds l x y false t f = f refl

  lex_word-Succeeds :
      (parse_finite : Text → Option F) (c : ℕ) (l : Lexer F)
      → HasRoom l
      → peek l ≡ some c
      → Succeeds l (lex_word parse_finite c l)
  unfolding lex_word
  lex_word-Succeeds parse_finite c l room here =
      let less : AtByte l = lt-length_of_get_elem? l.bytes l.offset here in
      if-Succeeds l (lex_string l) _ (c == b'"') (λ e. lex_string-Succeeds l room less)
        (λ e.
          if-Succeeds l (lex_char l) _ (c == b'\'') (λ e2. lex_char-Succeeds l room less)
            (λ e2.
              if-Succeeds l (lex_number parse_finite l) _ (is_digit c)
                (λ e3. lex_number-Succeeds parse_finite l c room here e3)
                (λ e3.
                  if-Succeeds l (lex_identifier_or_keyword l) (unexpected c l) (is_ident_start c)
                    (λ e4. lex_identifier_or_keyword-Succeeds l c room here (start-ident c e4))
                    (λ e4. unexpected-Succeeds c l room less))))

  -- A round at a byte succeeds and advances, where there is room.
  pub step-Succeeds :
      (parse_finite : Text → Option F) (c : ℕ) (l : Lexer F)
      → HasRoom l
      → peek l ≡ some c
      → Succeeds l (step parse_finite c l)
  unfolding step single
  step-Succeeds parse_finite c l room here =
      let less : AtByte l = lt-length_of_get_elem? l.bytes l.offset here in
      if-Succeeds l (some (advance 1 l)) _ (is_blank c)
        (λ e. silent-Succeeds l _ (advance_one l less) (omega arith))
        (λ e.
          if-Succeeds l (some (skip_line_comment l)) _ (begins_comment c (peek_n l 1))
            (λ e2. skip_line_comment-Succeeds c l here)
            (λ e2. elim (Option-cases (punctuation {F = F} c)) [
              | inr (kind, p) ↦
                  rw (p, step) (push_token-Succeeds kind l _ (advance_one l less) (omega arith))
              | inl p ↦ elim (Option-cases (operator {F = F} c (peek_n l 1))) [
                | inr (op, q) ↦ rw (p, q, step) (operator_token-Succeeds c l op less q)
                | inl q ↦ rw (p, q, step) (lex_word-Succeeds parse_finite c l room here)
              ]
            ]))
