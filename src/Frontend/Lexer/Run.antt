-- ===== src/Frontend/Lexer/Run.antt =====
-- crates/cielo-frontend/src/lexer.rs: `run`, one round of its loop for each byte that begins a token,
-- and `lex`.
use cielo.Prelude.{
  ℕ, zero, suc, ◌+◌, ◌/◌, ◌%◌, Bool, true, false, ◌&&◌, ◌||◌, Option, none, some, [], ◌∷◌, ◌++◌,
  length, ltb, ◌==◌, if◌then◌else◌, ◌>>=◌,
}
use cielo.Prelude.Classes.{Text, codes}
use cielo.Base.Interner.{Interner}
use cielo.Frontend.Lexer.Token.{
  TokenKind, l_paren, r_paren, l_brace, r_brace, l_bracket, r_bracket, comma, colon, semi, dot,
  arrow, fat_arrow, eq, eq_eq, bang, bang_eq, plus, minus, star, slash, percent, lt, le, gt, ge,
  and_and, pipe, or_or, at, eof, Lexer, new_lexer, peek, peek_n, advance, push_token, report,
  single, double, is_digit, is_ident_start, matches,
}
use cielo.Frontend.Lexer.Scan.{skip_line_comment}
use cielo.Frontend.Lexer.Literals.{lex_string, lex_char, lex_number, lex_identifier_or_keyword}

-- `byte as char`, in UTF-8
abbrev pub char_text : ℕ → Text
char_text c = if ltb c 0x80 then c ∷ [] else (0xc0 + c / 64) ∷ (0x80 + c % 64) ∷ []

unfoldable pub unexpected : {F : Type 0} → ℕ → Lexer F → Option (Lexer F)
unexpected c l =
    report l.offset (l.offset + 1) (codes "LEX_UNEXPECTED_CHAR")
      (codes "Unexpected character '" ++ (char_text c ++ codes "'")) l
    >>= λ l'. some (advance 1 l')

-- the bytes that are a token by themselves
unfoldable pub punctuation : {F : Type 0} → ℕ → Option (TokenKind F)
punctuation c =
    if c == b'('
    then some l_paren
    else if c == b')'
    then some r_paren
    else if c == b'{'
    then some l_brace
    else if c == b'}'
    then some r_brace
    else if c == b'['
    then some l_bracket
    else if c == b']'
    then some r_bracket
    else if c == b','
    then some comma
    else if c == b':'
    then some colon
    else if c == b';'
    then some semi
    else if c == b'.'
    then some dot
    else if c == b'@'
    then some at
    else if c == b'+'
    then some plus
    else if c == b'*'
    then some star
    else if c == b'%'
    then some percent
    else none

-- the bytes whose token depends on the next one, past the comments: the kind and its length
unfoldable pub operator : {F : Type 0} → ℕ → Option ℕ → Option (TokenKind F × Bool)
operator c next =
    if c == b'='
    then (if matches (λ d. d == b'=') next
        then some (eq_eq, true)
        else if matches (λ d. d == b'>') next
        then some (fat_arrow, true)
        else some (eq, false))
    else if c == b'!'
    then (if matches (λ d. d == b'=') next then some (bang_eq, true) else some (bang, false))
    else if c == b'<'
    then (if matches (λ d. d == b'=') next then some (le, true) else some (lt, false))
    else if c == b'>'
    then (if matches (λ d. d == b'=') next then some (ge, true) else some (gt, false))
    else if c == b'&' && matches (λ d. d == b'&') next
    then some (and_and, true)
    else if c == b'|' && matches (λ d. d == b'|') next
    then some (or_or, true)
    else if c == b'|'
    then some (pipe, false)
    else if c == b'-' && matches (λ d. d == b'>') next
    then some (arrow, true)
    else if c == b'-'
    then some (minus, false)
    else if c == b'/'
    then some (slash, false)
    else none

abbrev pub is_blank : ℕ → Bool
is_blank c = c == b' ' || c == b'\t' || c == b'\r' || c == b'\n'

abbrev pub begins_comment : ℕ → Option ℕ → Bool
begins_comment c next =
    (c == b'/' && matches (λ d. d == b'/') next) || (c == b'-' && matches (λ d. d == b'-') next)

-- the last arms, for a byte that is no punctuation
unfoldable pub lex_word : {F : Type 0} → (Text → Option F) → ℕ → Lexer F → Option (Lexer F)
unfolding lex_string lex_char lex_number lex_identifier_or_keyword unexpected
lex_word parse_finite c l =
    if c == b'"'
    then lex_string l
    else if c == b'\''
    then lex_char l
    else if is_digit c
    then lex_number parse_finite l
    else if is_ident_start c
    then lex_identifier_or_keyword l
    else unexpected c l

abbrev pub operator_token : {F : Type 0} → TokenKind F × Bool → Lexer F → Lexer F
operator_token (kind, true) l = double kind l
operator_token (kind, false) l = single kind l

-- one round of the loop. The arms that are grouped here test different bytes, so their order among
-- one another does not matter.
unfoldable pub step : {F : Type 0} → (Text → Option F) → ℕ → Lexer F → Option (Lexer F)
unfolding skip_line_comment punctuation operator single double lex_word
step {F} parse_finite c l =
    if is_blank c
    then some (advance 1 l)
    else if begins_comment c (peek_n l 1)
    then some (skip_line_comment l)
    else elim (punctuation {F = F} c) [
      | some kind ↦ some (single kind l)
      | none ↦ elim (operator {F = F} c (peek_n l 1)) [
        | some op ↦ some (operator_token op l)
        | none ↦ lex_word parse_finite c l
      ]
    ]

-- `panicked` is a failed assertion.
pub data Lexed (F : Type 0) : Type 0 where
  finished : Lexer F → Lexed F
  panicked out_of_fuel : Lexed F

unfoldable pub run : {F : Type 0} → (Text → Option F) → ℕ → Lexer F → Lexed F
run parse_finite zero l = out_of_fuel
run parse_finite (suc fuel) l = elim (peek l) [
  | none ↦ finished (push_token l.offset eof l)
  | some c ↦ elim (step parse_finite c l) [ none ↦ panicked | some l' ↦ run parse_finite fuel l' ]
]

-- The interner is returned in the lexer's last state.
unfoldable pub lex : {F : Type 0} → (Text → Option F) → Text → ℕ → Interner → Lexed F
unfolding run
lex parse_finite source source_id interner =
    run parse_finite (length source + 1) (new_lexer source source_id interner)
