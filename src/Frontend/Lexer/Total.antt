-- ===== src/Frontend/Lexer/Total.antt =====
-- crates/cielo-frontend/src/lexer.rs: the whole run.
use cielo.Prelude.{
  ℕ, zero, suc, ◌+◌, ◌-◌, ◌%◌, ◌^◌, ◌≤◌, ◌<◌, ◌≡◌, refl, ap, ◌∙◌, inl, inr, Option, none, List, [],
  ◌∷◌, ◌++◌, arith, length, lt-length_of_get_elem?, get_elem?_of_lt, Option-cases, Bool-cases, ltb,
}
use cielo.Prelude.Classes.{Text}
use cielo.Base.Span.{Span}
use cielo.Base.Interner.{Interner}
use cielo.Frontend.Lexer.Token.{eof, Token, Lexer, new_lexer, peek, push_token}
use cielo.Frontend.Lexer.Moves.{Advances, HasRoom}
use cielo.Frontend.Lexer.Rounds.{step-Succeeds}
use cielo.Frontend.Lexer.Run.{Lexed, finished, run, lex}

as_u32-id : (n : ℕ) → n < 2 ^ 32 → n % 2 ^ 32 ≡ n
as_u32-id n h = omega (arith, h)

module _ {F : Type 0} where
  -- The tokens stand in the source one behind another, from `lo` to `hi`, and none is empty.
  pub Ordered : ℕ → ℕ → List (Token F) → ℕ → Type 0
  Ordered source lo [] hi = lo ≤ hi
  Ordered source lo (t ∷ ts) hi =
      (t.span.source ≡ source)
      × (lo ≤ t.span.start)
      × (t.span.start < t.span.end)
      × Ordered source t.span.end ts hi

  Ordered-append :
      (source lo : ℕ) (ts : List (Token F)) (mid : ℕ) (t : Token F) (hi : ℕ)
      → Ordered source lo ts mid
      → t.span.source ≡ source
      → mid ≤ t.span.start
      → t.span.start < t.span.end
      → t.span.end ≤ hi
      → Ordered source lo (ts ++ t ∷ []) hi
  unfolding Ordered
  Ordered-append source lo [] mid t hi o s a b c = (s, omega (arith, o, a), b, c)
  Ordered-append source lo (u ∷ ts) mid t hi (us, ua, ub, o) s a b c =
      (us, ua, ub, Ordered-append source u.span.end ts mid t hi o s a b c)

  Ordered-le :
      (source lo : ℕ) (ts : List (Token F)) (mid hi : ℕ)
      → Ordered source lo ts mid
      → mid ≤ hi
      → Ordered source lo ts hi
  unfolding Ordered
  Ordered-le source lo [] mid hi o le = omega (arith, o, le)
  Ordered-le source lo (u ∷ ts) mid hi (us, ua, ub, o) le =
      (us, ua, ub, Ordered-le source u.span.end ts mid hi o le)

  -- What holds between the rounds, with room for an error and a symbol for each byte that is left.
  record Ready (source : Text) (id : ℕ) (l : Lexer F) : Type 0 where
    bytes : l.bytes ≡ source
    source_id : l.source_id ≡ id
    bounded : l.offset ≤ length source
    tokens : Ordered id 0 l.tokens l.offset
    diagnostics : length l.diagnostics.entries + (length source - l.offset) ≤ 2 ^ 32
    symbols : length l.interner.symbols + (length source - l.offset) ≤ 2 ^ 32

  abbrev at_end : (source id : ℕ) → Token F
  at_end n id = record { kind = eof; span = record { source = id; start = n; end = n } }

  -- The outcome: every token, in order, and the end of the source behind them.
  abbrev pub Complete : Text → ℕ → Lexed F → Type 0
  Complete source id r =
      (l : Lexer F) × (ts : List (Token F)) × (r ≡ finished l)
      × (l.tokens ≡ ts ++ at_end (length source) id ∷ [])
      × Ordered id 0 ts (length source)

  Ready-Advances :
      (source : Text) (id : ℕ) (l l' : Lexer F)
      → length source < 2 ^ 32
      → Ready source id l
      → Advances l l'
      → Ready source id l'
  Ready-Advances source id l l' small r a =
      let len = ap length r.bytes in
      let end : l'.offset ≤ length source = omega (arith, a.bounded, len) in
      let start_small = as_u32-id l.offset (omega (arith, small, r.bounded)) in
      let end_small = as_u32-id l'.offset (omega (arith, small, end)) in
      record {
        bytes = a.bytes ∙ r.bytes;
        source_id = a.source ∙ r.source_id;
        bounded = end;
        tokens = elim (a.tokens) [
          | inl same ↦
              rw same
                (Ordered-le id 0 l.tokens l.offset l'.offset r.tokens (omega (arith, a.forward)))
          | inr (t, more, span) ↦ rw more (
              Ordered-append id 0 l.tokens l.offset t l'.offset r.tokens
                (ap (λ (s : Span). s.source) span ∙ r.source_id)
                (omega (arith, ap (λ (s : Span). s.start) span, start_small))
                (omega (
                  arith,
                  ap (λ (s : Span). s.start) span,
                  ap (λ (s : Span). s.end) span,
                  start_small,
                  end_small,
                  a.forward,
                ))
                (omega (arith, ap (λ (s : Span). s.end) span, end_small)))
        ];
        diagnostics = omega (arith, a.diagnostics, a.forward, r.diagnostics, end);
        symbols = omega (arith, a.symbols, a.forward, r.symbols, end);
      }

  offset_at_end :
      (l : Lexer F) (source : Text)
      → peek l ≡ none
      → l.bytes ≡ source
      → l.offset ≤ length source
      → l.offset ≡ length source
  offset_at_end l source gone same within = elim (Bool-cases (ltb l.offset (length source))) [
    | inl test ↦
        let less : l.offset < length source = ground (arith, test) in
        let (c, there) = get_elem?_of_lt l.bytes l.offset (omega (arith, less, ap length same)) in
        absurd (cc (gone, there))
    | inr test ↦ ground (arith, test, within)
  ]

  run_lem :
      (parse_finite : Text → Option F) (source : Text) (id fuel : ℕ) (l : Lexer F)
      → length source < 2 ^ 32
      → Ready source id l
      → length source - l.offset < fuel
      → Complete source id (run parse_finite fuel l)
  unfolding run
  run_lem parse_finite source id zero l small r enough = absurd (omega (arith, enough))
  run_lem parse_finite source id (suc fuel) l small r enough = elim (Option-cases (peek l)) [
    | inl gone ↦
        let all : l.offset ≡ length source = offset_at_end l source gone r.bytes r.bounded in
        (
          push_token l.offset eof l,
          l.tokens,
          rw (gone, run) refl,
          rw (r.source_id, all, as_u32-id (length source) small) refl,
          Ordered-le id 0 l.tokens l.offset (length source) r.tokens (omega (arith, all)),
        )
    | inr (c, here) ↦
        let less = lt-length_of_get_elem? l.bytes l.offset here in
        let room : HasRoom l = record {
          diagnostics = omega (arith, r.diagnostics, less, ap length r.bytes);
          symbols = omega (arith, r.symbols, less, ap length r.bytes);
        } in
        let (l', stepped, a) = step-Succeeds parse_finite c l room here in
        rw (here, stepped, run)
          (run_lem parse_finite source id fuel l' small (Ready-Advances source id l l' small r a)
            (omega (arith, enough, a.forward, less, ap length r.bytes)))
  ]

  -- Lexing a source of fewer than 2^32 bytes ends without a panic and within the fuel, when the
  -- interner has room for a symbol per byte. The tokens stand in the order of the source, none is
  -- empty and no two overlap, and the token of the end of the source stands behind them.
  pub lex_total :
      (parse_finite : Text → Option F) (source : Text) (id : ℕ) (interner : Interner)
      → length source < 2 ^ 32
      → length interner.symbols + length source ≤ 2 ^ 32
      → Complete source id (lex parse_finite source id interner)
  unfolding lex Ordered
  lex_total parse_finite source id interner small room =
      run_lem parse_finite source id (length source + 1) (new_lexer source id interner) small
        (record {
          bytes = refl;
          source_id = refl;
          bounded = omega arith;
          tokens = omega arith;
          diagnostics = omega (arith, small);
          symbols = omega (arith, room);
        })
        (omega arith)
