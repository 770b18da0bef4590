-- ===== src/Frontend/Lexer/Moves.antt =====
-- crates/cielo-frontend/src/lexer.rs: what one round does to the state, and the three ways in which it
-- ends: with a token, with an error, with neither.
use cielo.Prelude.{
  ℕ, zero, suc, ◌+◌, ◌-◌, ◌^◌, ◌≤◌, ◌<◌, ◌≡◌, refl, ap, ◌∙◌, ◌⊎◌, inl, inr, Bool, Option, some,
  List, [], ◌∷◌, ◌++◌, arith, length, drop,
}
use cielo.Prelude.Classes.{Text}
use cielo.Base.Diagnostics.{DiagnosticBag}
use cielo.Base.Diagnostics.Laws.{push_error_returns}
use cielo.Base.Interner.{Interner}
use cielo.Frontend.Lexer.Token.{TokenKind, Token, Lexer, advance, push_token, report, span_of}
use cielo.Frontend.Lexer.Scan.{rest_of, count_while, eat_while, count_while-le}

pub length-drop : {A : Type 0} (n : ℕ) (xs : List A) → length (drop n xs) ≡ length xs - n
length-drop zero xs = omega arith
length-drop (suc n) [] = omega arith
length-drop (suc n) (x ∷ xs) = omega (arith, length-drop n xs)

module _ {F : Type 0} where
  -- `l'` is `l` moved on, by no more than the bytes that are left.
  pub record Moves (l l' : Lexer F) : Type 0 where
    pub bytes : l'.bytes ≡ l.bytes
    pub source : l'.source_id ≡ l.source_id
    pub forward : l.offset ≤ l'.offset
    pub bounded : l'.offset ≤ length l.bytes
    pub tokens : l'.tokens ≡ l.tokens
    pub diagnostics : l'.diagnostics ≡ l.diagnostics
    pub interner : l'.interner ≡ l.interner

  pub advance-Moves :
      (n : ℕ) (l : Lexer F)
      → n ≤ length (rest_of l)
      → l.offset ≤ length l.bytes
      → Moves l (advance n l)
  advance-Moves n l h within = record {
    bytes = refl;
    source = refl;
    forward = omega arith;
    bounded = omega (arith, length-drop l.offset l.bytes);
    tokens = refl;
    diagnostics = refl;
    interner = refl;
  }

  pub eat_while-Moves :
      (p : ℕ → Bool) (l : Lexer F) → l.offset ≤ length l.bytes → Moves l (eat_while p l)
  unfolding eat_while
  eat_while-Moves p l within =
      advance-Moves (count_while p (rest_of l)) l (count_while-le p (rest_of l)) within

  pub Moves-refl : (l : Lexer F) → l.offset ≤ length l.bytes → Moves l l
  Moves-refl l within = record {
    bytes = refl;
    source = refl;
    forward = omega arith;
    bounded = within;
    tokens = refl;
    diagnostics = refl;
    interner = refl;
  }

  pub Moves-trans : {a b c : Lexer F} → Moves a b → Moves b c → Moves a c
  Moves-trans p q = record {
    bytes = q.bytes ∙ p.bytes;
    source = q.source ∙ p.source;
    forward = omega (arith, p.forward, q.forward);
    bounded = omega (arith, q.bounded, ap length p.bytes);
    tokens = q.tokens ∙ p.tokens;
    diagnostics = q.diagnostics ∙ p.diagnostics;
    interner = q.interner ∙ p.interner;
  }

  -- The tokens after a round: those before, and perhaps one for the bytes taken.
  abbrev pub OneToken : Lexer F → Lexer F → Type 0
  OneToken l l' =
      (l'.tokens ≡ l.tokens)
      ⊎ ((t : Token F) × (l'.tokens ≡ l.tokens ++ t ∷ []) × (t.span ≡ span_of l l.offset l'.offset))

  -- What a round does.
  pub record Advances (l l' : Lexer F) : Type 0 where
    pub bytes : l'.bytes ≡ l.bytes
    pub source : l'.source_id ≡ l.source_id
    pub forward : l.offset < l'.offset
    pub bounded : l'.offset ≤ length l.bytes
    pub tokens : OneToken l l'
    pub diagnostics : length l'.diagnostics.entries ≤ length l.diagnostics.entries + 1
    pub symbols : length l'.interner.symbols ≤ length l.interner.symbols + 1

  -- room for one more diagnostic and one more symbol
  pub record HasRoom (l : Lexer F) : Type 0 where
    pub diagnostics : length l.diagnostics.entries < 2 ^ 32
    pub symbols : length l.interner.symbols < 2 ^ 32

  -- A round that succeeds, and advances.
  abbrev pub Succeeds : Lexer F → Option (Lexer F) → Type 0
  Succeeds l r = (l' : Lexer F) × (r ≡ some l') × Advances l l'

  pub same_span :
      (l m : Lexer F) (start end : ℕ)
      → m.source_id ≡ l.source_id
      → span_of m start end ≡ span_of l start end
  same_span l m start end e = rw e

  pub push_token-OneToken :
      (kind : TokenKind F) (l m : Lexer F)
      → m.tokens ≡ l.tokens
      → m.source_id ≡ l.source_id
      → OneToken l (push_token l.offset kind m)
  push_token-OneToken kind l m same source =
      let t : Token F = record { kind = kind; span = span_of m l.offset m.offset } in
      inr
        (t, ap (λ (ts : List (Token F)). ts ++ t ∷ []) same, same_span l m l.offset m.offset source)

  pub push_token-Succeeds :
      (kind : TokenKind F) (l m : Lexer F)
      → Moves l m
      → l.offset < m.offset
      → Succeeds l (some (push_token l.offset kind m))
  push_token-Succeeds kind l m moves less = (
    push_token l.offset kind m,
    refl,
    record {
      bytes = moves.bytes;
      source = moves.source;
      forward = less;
      bounded = moves.bounded;
      tokens = push_token-OneToken kind l m moves.tokens moves.source;
      diagnostics = omega (arith, ap (λ (b : DiagnosticBag). length b.entries) moves.diagnostics);
      symbols = omega (arith, ap (λ (i : Interner). length i.symbols) moves.interner);
    },
  )

  -- Reporting an error succeeds where there is room.
  pub report-Succeeds :
      (start end : ℕ) (code message : Text) (l m : Lexer F)
      → HasRoom l
      → Moves l m
      → l.offset < m.offset
      → Succeeds l (report start end code message m)
  report-Succeeds start end code message l m room moves less =
      let same : m.diagnostics ≡ l.diagnostics = moves.diagnostics in
      let fits : length m.diagnostics.entries < 2 ^ 32 =
        omega (arith, room.diagnostics, ap (λ (b : DiagnosticBag). length b.entries) same) in
      let (bag, id, pushed, size) =
        push_error_returns m.diagnostics code message (span_of m start end) fits in
      (
        record m { diagnostics = bag },
        rw pushed,
        record {
          bytes = moves.bytes;
          source = moves.source;
          forward = less;
          bounded = moves.bounded;
          tokens = inl moves.tokens;
          diagnostics = omega (arith, ap (λ (b : DiagnosticBag). length b.entries) same);
          symbols = omega (arith, ap (λ (i : Interner). length i.symbols) moves.interner);
        },
      )

  -- a round that moves on and adds nothing
  pub silent-Succeeds : (l m : Lexer F) → Moves l m → l.offset < m.offset → Succeeds l (some m)
  silent-Succeeds l m moves less = (
    m,
    refl,
    record {
      bytes = moves.bytes;
      source = moves.source;
      forward = less;
      bounded = moves.bounded;
      tokens = inl moves.tokens;
      diagnostics = omega (arith, ap (λ (b : DiagnosticBag). length b.entries) moves.diagnostics);
      symbols = omega (arith, ap (λ (i : Interner). length i.symbols) moves.interner);
    },
  )

  -- a byte that is left at the offset
  abbrev pub AtByte : Lexer F → Type 0
  AtByte l = l.offset < length l.bytes

  pub advance_one : (l : Lexer F) → AtByte l → Moves l (advance 1 l)
  advance_one l here = advance-Moves 1 l (omega (arith, length-drop l.offset l.bytes)) (omega arith)
