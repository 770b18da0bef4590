-- ===== src/Frontend/Lexer/Words.antt =====
-- crates/cielo-frontend/src/lexer.rs: the rounds that lex a string, a character or a name.
use cielo.Prelude.{
  ℕ, zero, suc, ◌+◌, ◌<◌, ◌≡◌, ap, inl, inr, Bool, true, false, Option, none, some, [], ◌∷◌, arith,
  length, drop, get_elem?, lt-length_of_get_elem?, ◌>>=◌, Option-cases, Bool-cases,
}
use cielo.Prelude.Classes.{Text}
use cielo.Base.Diagnostics.{DiagnosticBag}
use cielo.Base.Interner.{Interner, intern}
use cielo.Base.Interner.Laws.{intern_returns}
use cielo.Frontend.Lexer.Token.{
  identifier, Lexer, peek, advance, push_token, slice, is_ident, from_str,
}
use cielo.Frontend.Lexer.Scan.{
  rest_of, count_while, eat_while, scan_string, scan_char, scan_string-le, scan_char-le,
}
use cielo.Frontend.Lexer.Literals.{
  lex_string, char_body, finish_char, decode_char, lex_char, lex_identifier_or_keyword,
}
use cielo.Frontend.Lexer.Moves.{
  length-drop, Moves, advance-Moves, eat_while-Moves, HasRoom, Succeeds, push_token-OneToken,
  push_token-Succeeds, report-Succeeds, AtByte,
}

pub drop-get_elem? :
    (n : ℕ) (xs : Text) {c : ℕ} → get_elem? xs n ≡ some c → drop n xs ≡ c ∷ drop (suc n) xs
drop-get_elem? n [] h = cc
drop-get_elem? zero (x ∷ xs) h = ground arith
drop-get_elem? (suc n) (x ∷ xs) h = drop-get_elem? n xs h

pub count_while_pos :
    (p : ℕ → Bool) (n : ℕ) (xs : Text) (c : ℕ)
    → get_elem? xs n ≡ some c
    → p c ≡ true
    → 0 < count_while p (drop n xs)
unfolding count_while
count_while_pos p n xs c h first = rw (drop-get_elem? n xs h, first) (omega arith)

module _ {F : Type 0} where
  pub lex_string-Succeeds : (l : Lexer F) → HasRoom l → AtByte l → Succeeds l (lex_string l)
  unfolding lex_string
  lex_string-Succeeds l room here =
      let scanned = scan_string false (rest_of (advance 1 l)) in
      let moves : Moves l (advance (1 + scanned.0) l) =
        advance-Moves (1 + scanned.0) l
          (omega (
            arith,
            length-drop l.offset l.bytes,
            length-drop (l.offset + 1) l.bytes,
            scan_string-le false (rest_of (advance 1 l)),
          ))
          (omega arith) in
      elim (Bool-cases (scanned.1)) [
        | inl closed ↦ rw closed (push_token-Succeeds _ l _ moves (omega arith))
        | inr open_end ↦ rw open_end (report-Succeeds _ _ _ _ l _ room moves (omega arith))
      ]

  finish_char-Succeeds :
      (l m : Lexer F) (body : Text) (decoded : Option (ℕ × Text))
      → HasRoom l
      → Moves l m
      → l.offset < m.offset
      → Succeeds l (finish_char l.offset body decoded m)
  unfolding finish_char
  finish_char-Succeeds l m body none room moves less = report-Succeeds _ _ _ _ l m room moves less
  finish_char-Succeeds l m body (some (value, [])) room moves less =
      push_token-Succeeds _ l m moves less
  finish_char-Succeeds l m body (some (value, c ∷ rest)) room moves less =
      report-Succeeds _ _ _ _ l m room moves less

  char_body-Succeeds :
      (l m : Lexer F) (body : Text)
      → HasRoom l
      → Moves l m
      → l.offset < m.offset
      → Succeeds l (char_body l.offset body m)
  unfolding char_body
  char_body-Succeeds l m [] room moves less = report-Succeeds _ _ _ _ l m room moves less
  char_body-Succeeds l m (c ∷ cs) room moves less =
      finish_char-Succeeds l m (c ∷ cs) (decode_char c (c ∷ cs)) room moves less

  pub lex_char-Succeeds : (l : Lexer F) → HasRoom l → AtByte l → Succeeds l (lex_char l)
  unfolding lex_char
  lex_char-Succeeds l room here =
      let scanned = scan_char (rest_of (advance 1 l)) in
      let moves : Moves l (advance (1 + scanned.0) l) =
        advance-Moves (1 + scanned.0) l
          (omega (
            arith,
            length-drop l.offset l.bytes,
            length-drop (l.offset + 1) l.bytes,
            scan_char-le (rest_of (advance 1 l)),
          ))
          (omega arith) in
      elim (Option-cases (scanned.1)) [
        | inl unclosed ↦
            rw (unclosed, lex_char) (report-Succeeds _ _ _ _ l _ room moves (omega arith))
        | inr (len, closed) ↦
            rw (closed, lex_char)
              (char_body-Succeeds l _ (slice l.bytes (l.offset + 1) (l.offset + 1 + len)) room moves
                (omega arith))
      ]

  eat_while-forward :
      (p : ℕ → Bool) (l : Lexer F) (c : ℕ)
      → peek l ≡ some c
      → p c ≡ true
      → l.offset < (eat_while p l).offset
  unfolding eat_while
  eat_while-forward p l c here first =
      omega (arith, count_while_pos p l.offset l.bytes c here first)

  -- an identifier is interned
  name-Succeeds :
      (l m : Lexer F) (text : Text)
      → HasRoom l
      → Moves l m
      → l.offset < m.offset
      → Succeeds l (
          intern m.interner text >>= λ (interner, id).
          some (push_token l.offset (identifier id) (record m { interner = interner })))
  name-Succeeds l m text room moves less =
      let same : m.interner ≡ l.interner = moves.interner in
      let (it, id, found, size) =
        intern_returns m.interner text
          (omega (arith, room.symbols, ap (λ (i : Interner). length i.symbols) same)) in
      (
        push_token l.offset (identifier id) (record m { interner = it }),
        rw found,
        record {
          bytes = moves.bytes;
          source = moves.source;
          forward = less;
          bounded = moves.bounded;
          tokens =
              push_token-OneToken (identifier id) l (record m { interner = it }) moves.tokens
                moves.source;
          diagnostics =
              omega (arith, ap (λ (b : DiagnosticBag). length b.entries) moves.diagnostics);
          symbols = omega (arith, size, ap (λ (i : Interner). length i.symbols) same);
        },
      )

  pub lex_identifier_or_keyword-Succeeds :
      (l : Lexer F) (c : ℕ)
      → HasRoom l
      → peek l ≡ some c
      → is_ident c ≡ true
      → Succeeds l (lex_identifier_or_keyword l)
  unfolding lex_identifier_or_keyword
  lex_identifier_or_keyword-Succeeds l c room here ident =
      let less : l.offset < length l.bytes = lt-length_of_get_elem? l.bytes l.offset here in
      let end = eat_while is_ident l in
      let moves : Moves l end = eat_while-Moves is_ident l (omega (arith, less)) in
      let further : l.offset < end.offset = eat_while-forward is_ident l c here ident in
      let text = slice l.bytes l.offset end.offset in
      elim (Option-cases (from_str text)) [
        | inl e ↦ rw (e, lex_identifier_or_keyword) (name-Succeeds l end text room moves further)
        | inr (word, e) ↦
            rw (e, lex_identifier_or_keyword) (push_token-Succeeds _ l end moves further)
      ]
