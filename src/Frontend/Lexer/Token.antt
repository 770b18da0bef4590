-- ===== src/Frontend/Lexer/Token.antt =====
-- crates/cielo-frontend/src/lexer.rs: tokens, keywords and the lexer's state.
use cielo.Prelude.{
  ℕ, ◌+◌, ◌-◌, ◌%◌, ◌^◌, Bool, ◌&&◌, ◌||◌, Option, none, some, List, [], ◌∷◌, ◌++◌, get_elem?, take,
  drop, leb, ◌==◌, if◌then◌else◌, ◌>>=◌,
}
use cielo.Prelude.Classes.{Text, text_beq, codes}
use cielo.Prelude.Int.{ℤ}
use cielo.Base.Span.{Span}
use cielo.Base.Diagnostics.{DiagnosticBag, empty_bag, push_error}
use cielo.Base.Interner.{Interner}

pub data Keyword : Type 0 where
  fn struct enum effect handle handler do_kw let_kw if_kw match_kw else_kw true_kw false_kw :
      Keyword
  with_kw comptime runtime : Keyword

-- `from_str`: the keyword that a text spells, by the first entry that fits
abbrev find_text {ℓ} : {A : Type ℓ} → Text → List (Text × A) → Option A
find_text text [] = none
find_text text ((key, value) ∷ rest) = if text_beq text key then some value else find_text text rest

abbrev pub keywords : List (Text × Keyword)
keywords =
    (codes "fn", fn)
    ∷ (codes "struct", struct)
    ∷ (codes "enum", enum)
    ∷ (codes "effect", effect)
    ∷ (codes "handle", handle)
    ∷ (codes "handler", handler)
    ∷ (codes "do", do_kw)
    ∷ (codes "let", let_kw)
    ∷ (codes "if", if_kw)
    ∷ (codes "match", match_kw)
    ∷ (codes "else", else_kw)
    ∷ (codes "true", true_kw)
    ∷ (codes "false", false_kw)
    ∷ (codes "with", with_kw)
    ∷ (codes "comptime", comptime)
    ∷ (codes "runtime", runtime)
    ∷ []

unfoldable pub from_str : Text → Option Keyword
from_str text = find_text text keywords

-- `F` is the type of floats.
pub data TokenKind (F : Type 0) : Type 0 where
  identifier : ℕ → TokenKind F
  integer : ℤ → TokenKind F
  float : F → TokenKind F
  char : ℕ → TokenKind F
  string : Text → TokenKind F
  keyword : Keyword → TokenKind F
  l_paren r_paren l_brace r_brace l_bracket r_bracket : TokenKind F
  comma colon semi dot arrow fat_arrow eq eq_eq bang bang_eq : TokenKind F
  plus minus star slash percent lt le gt ge and_and pipe or_or at eof : TokenKind F

pub record Token (F : Type 0) : Type 0 where
  pub kind : TokenKind F
  pub span : Span

-- `bytes` and `source_id` do not change while lexing.
pub record Lexer (F : Type 0) : Type 0 where
  pub bytes : Text
  pub source_id : ℕ
  pub offset : ℕ
  pub tokens : List (Token F)
  pub diagnostics : DiagnosticBag
  pub interner : Interner

pub record LexOutput (F : Type 0) : Type 0 where
  pub tokens : List (Token F)
  pub diagnostics : DiagnosticBag

-- `start as u32`
abbrev pub as_u32 : ℕ → ℕ
as_u32 n = n % 2 ^ 32

module _ {F : Type 0} where
  abbrev pub new_lexer : Text → ℕ → Interner → Lexer F
  new_lexer source source_id interner = record {
    bytes = source;
    source_id = source_id;
    offset = 0;
    tokens = [];
    diagnostics = empty_bag;
    interner = interner;
  }

  abbrev pub peek : Lexer F → Option ℕ
  peek l = get_elem? l.bytes l.offset

  abbrev pub peek_n : Lexer F → ℕ → Option ℕ
  peek_n l n = get_elem? l.bytes (l.offset + n)

  abbrev pub span_of : Lexer F → ℕ → ℕ → Span
  span_of l start end = record { source = l.source_id; start = as_u32 start; end = as_u32 end }

  -- `self.offset += n`
  abbrev pub advance : ℕ → Lexer F → Lexer F
  advance n l = record l { offset = l.offset + n }

  -- a token from `start` up to the offset
  abbrev pub push_token : ℕ → TokenKind F → Lexer F → Lexer F
  push_token start kind l = record l {
    tokens = l.tokens ++ (record { kind = kind; span = span_of l start l.offset }) ∷ [];
  }

  -- an error from `start` up to `end`
  abbrev pub report : ℕ → ℕ → Text → Text → Lexer F → Option (Lexer F)
  report start end code message l =
      push_error l.diagnostics code message (span_of l start end) >>= λ (bag, id).
      some (record l { diagnostics = bag })

  unfoldable pub single : TokenKind F → Lexer F → Lexer F
  single kind l = push_token l.offset kind (advance 1 l)

  unfoldable pub double : TokenKind F → Lexer F → Lexer F
  double kind l = push_token l.offset kind (advance 2 l)

-- `&bytes[start..end]`
abbrev pub slice : Text → ℕ → ℕ → Text
slice bytes start end = take (end - start) (drop start bytes)

abbrev pub within : ℕ → ℕ → ℕ → Bool
within lo hi c = leb lo c && leb c hi

abbrev pub is_digit : ℕ → Bool
is_digit c = within b'0' b'9' c

abbrev pub is_ident_start : ℕ → Bool
is_ident_start c = within b'a' b'z' c || within b'A' b'Z' c || c == b'_'

abbrev pub is_ident : ℕ → Bool
is_ident c = within b'a' b'z' c || within b'A' b'Z' c || is_digit c || c == b'_'

-- a byte that is there and passes a test
abbrev pub matches : (ℕ → Bool) → Option ℕ → Bool
matches p none = Bool.false
matches p (some c) = p c
