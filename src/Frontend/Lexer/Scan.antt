-- ===== src/Frontend/Lexer/Scan.antt =====
-- crates/cielo-frontend/src/lexer.rs: the loops that move the offset, as recursions on the bytes that
-- are left; each gives the number of bytes that it takes.
use cielo.Prelude.{
  ℕ, suc, ◌+◌, ◌≤◌, ◌≡◌, refl, Bool, true, false, not, ◌&&◌, Option, none, some, [], ◌∷◌, arith,
  length, drop, ◌==◌, if◌then◌else◌,
}
use cielo.Prelude.Classes.{Text}
use cielo.Frontend.Lexer.Token.{Lexer, advance, is_digit}

-- the bytes that are left
abbrev pub rest_of : {F : Type 0} → Lexer F → Text
rest_of l = drop l.offset l.bytes

-- `while matches!(self.peek(), ..) { self.offset += 1; }`
unfoldable pub count_while : (ℕ → Bool) → Text → ℕ
count_while p [] = 0
count_while p (c ∷ cs) = if p c then suc (count_while p cs) else 0

unfoldable pub eat_while : {F : Type 0} → (ℕ → Bool) → Lexer F → Lexer F
eat_while p l = advance (count_while p (rest_of l)) l

unfoldable pub eat_digits : {F : Type 0} → Lexer F → Lexer F
unfolding eat_while
eat_digits l = eat_while is_digit l

-- the loop of `skip_line_comment`, which takes the newline too
unfoldable pub count_line : Text → ℕ
count_line [] = 0
count_line (c ∷ cs) = if c == b'\n' then 1 else suc (count_line cs)

unfoldable pub skip_line_comment : {F : Type 0} → Lexer F → Lexer F
unfolding count_line
skip_line_comment l = advance (count_line (rest_of l)) l

-- the loop of `lex_string`: the bytes taken, and whether the closing quote was among them
unfoldable pub scan_string : Bool → Text → ℕ × Bool
scan_string escaped [] = (0, false)
scan_string escaped (c ∷ cs) =
    let rest = scan_string (not escaped && c == b'\\') cs in
    if not escaped && c == b'"' then (1, true) else (suc rest.0, rest.1)

abbrev pub shift : ℕ → ℕ × Option ℕ → ℕ × Option ℕ
shift k (taken, none) = (k + taken, none)
shift k (taken, some end) = (k + taken, some (k + end))

-- the loop of `lex_char`: the bytes taken, and the place of the closing quote. A backslash takes the
-- next byte with it, but not beyond the end.
unfoldable pub scan_char : Text → ℕ × Option ℕ
scan_char [] = (0, none)
scan_char (c ∷ []) = if c == b'\'' then (1, some 0) else (1, none)
scan_char (c ∷ d ∷ cs) =
    let after_escape = shift 2 (scan_char cs) in
    let next = shift 1 (scan_char (d ∷ cs)) in
    if c == b'\\' then after_escape else if c == b'\'' then (1, some 0) else next

-- No loop takes more bytes than are left.
pub count_while-le : (p : ℕ → Bool) (cs : Text) → count_while p cs ≤ length cs
unfolding count_while
count_while-le p [] = omega arith
count_while-le p (c ∷ cs) = ground (arith, count_while-le p cs)

pub count_line-le : (cs : Text) → count_line cs ≤ length cs
unfolding count_line
count_line-le [] = omega arith
count_line-le (c ∷ cs) = ground (arith, count_line-le cs)

pub scan_string-le : (escaped : Bool) (cs : Text) → (scan_string escaped cs).0 ≤ length cs
unfolding scan_string
scan_string-le escaped [] = omega arith
scan_string-le escaped (c ∷ cs) = ground (arith, scan_string-le (not escaped && c == b'\\') cs)

shift_taken : (k : ℕ) (r : ℕ × Option ℕ) → (shift k r).0 ≡ k + r.0
shift_taken k (taken, none) = refl
shift_taken k (taken, some end) = refl

pub scan_char-le : (cs : Text) → (scan_char cs).0 ≤ length cs
unfolding scan_char
scan_char-le [] = omega arith
scan_char-le (c ∷ []) = ground arith
scan_char-le (c ∷ d ∷ cs) = ground (
  arith,
  scan_char-le cs,
  scan_char-le (d ∷ cs),
  shift_taken 2 (scan_char cs),
  shift_taken 1 (scan_char (d ∷ cs)),
)
