-- ===== src/Frontend/Lexer/Literals.antt =====
-- crates/cielo-frontend/src/lexer.rs: strings, characters, numbers, identifiers. A slice of the
-- source between two ASCII bytes is valid UTF-8, so `from_utf8_lossy` returns it.
use cielo.Prelude.{
  ℕ, ◌+◌, ◌-◌, ◌*◌, ◌%◌, ◌^◌, Bool, true, false, ◌&&◌, ◌||◌, Option, none, some, [], ◌∷◌, ◌++◌,
  get_elem?, drop, ltb, ◌==◌, if◌then◌else◌, ◌>>=◌,
}
use cielo.Prelude.Classes.{Text, codes}
use cielo.Prelude.Int.{pos}
use cielo.Base.Interner.{intern}
use cielo.Frontend.Lexer.Token.{
  identifier, integer, float, char, string, keyword, Lexer, from_str, peek, peek_n, advance,
  push_token, report, slice, is_digit, is_ident, matches,
}
use cielo.Frontend.Lexer.Scan.{rest_of, eat_while, eat_digits, scan_string, scan_char}

unfoldable pub lex_string : {F : Type 0} → Lexer F → Option (Lexer F)
unfolding scan_string
lex_string l =
    let start = l.offset in
    let scanned = scan_string false (rest_of (advance 1 l)) in
    let end = advance (1 + scanned.0) l in
    if scanned.1
    then some (push_token start (string (slice l.bytes (start + 1) (end.offset - 1))) end)
    else report start end.offset (codes "LEX_UNTERMINATED_STRING")
        (codes "Unterminated string literal") end

-- the escapes of a character literal
unfoldable pub unescape : Option ℕ → Option ℕ
unescape none = none
unescape (some c) =
    if c == b'n'
    then some b'\n'
    else if c == b't'
    then some b'\t'
    else if c == b'r'
    then some b'\r'
    else if c == b'\\'
    then some b'\\'
    else if c == b'\''
    then some b'\''
    else if c == b'0'
    then some 0
    else none

-- the number of bytes of the UTF-8 character that begins with a byte
unfoldable pub utf8_len : ℕ → ℕ
utf8_len c = if ltb c 0x80 then 1 else if ltb c 0xe0 then 2 else if ltb c 0xf0 then 3 else 4

-- the low six bits of a continuation byte
abbrev tail_bits : Text → ℕ → ℕ
tail_bits body i = elim (get_elem? body i) [ none ↦ 0 | some c ↦ c % 64 ]

-- `text.chars().next()` for a body that begins with the byte
unfoldable pub first_char : ℕ → Text → ℕ
unfolding utf8_len
first_char c body =
    if utf8_len c == 1
    then c
    else if utf8_len c == 2
    then c % 32 * 64 + tail_bits body 1
    else if utf8_len c == 3
    then c % 16 * 64 * 64 + tail_bits body 1 * 64 + tail_bits body 2
    else c % 8 * 64 * 64 * 64
      + tail_bits body 1 * 64 * 64
      + tail_bits body 2 * 64
      + tail_bits body 3

-- `Some` value and rest of the body; `None` is an unknown escape.
unfoldable pub decode_char : ℕ → Text → Option (ℕ × Text)
unfolding unescape first_char utf8_len
decode_char c body =
    if c == b'\\'
    then (unescape (get_elem? body 1) >>= λ value. some (value, drop 2 body))
    else some (first_char c body, drop (utf8_len c) body)

bad_escape : Text → Text
bad_escape text =
    codes "Unknown escape '"
    ++ (text ++ codes "' in a character literal: the escapes are \\n, \\t, \\r, \\\\, \\' and \\0")

multi_char : Text → Text
multi_char text =
    codes "Character literal '"
    ++ (text
        ++ (codes "' holds more than one character: use a string literal \""
            ++ (text ++ codes "\" instead")))

-- the end of `lex_char`, on the decoded character
unfoldable pub finish_char :
    {F : Type 0} → ℕ → Text → Option (ℕ × Text) → Lexer F → Option (Lexer F)
unfolding bad_escape multi_char
finish_char start body none l = report start l.offset (codes "LEX_BAD_ESCAPE") (bad_escape body) l
finish_char start body (some (value, [])) l = some (push_token start (char value) l)
finish_char start body (some (value, c ∷ rest)) l =
    report start l.offset (codes "LEX_MULTI_CHAR") (multi_char body) l

-- the part of `lex_char` behind the closing quote
unfoldable pub char_body : {F : Type 0} → ℕ → Text → Lexer F → Option (Lexer F)
unfolding decode_char finish_char
char_body start [] l =
    report start l.offset (codes "LEX_EMPTY_CHAR")
      (codes "Empty character literal: a character literal holds exactly one character") l
char_body start (c ∷ cs) l = finish_char start (c ∷ cs) (decode_char c (c ∷ cs)) l

unfoldable pub lex_char : {F : Type 0} → Lexer F → Option (Lexer F)
unfolding scan_char char_body
lex_char l =
    let start = l.offset in
    let body_start = start + 1 in
    let scanned = scan_char (rest_of (advance 1 l)) in
    let end = advance (1 + scanned.0) l in
    elim (scanned.1) [
      | none ↦
          report start end.offset (codes "LEX_UNTERMINATED_CHAR")
            (codes "Unterminated character literal") end
      | some len ↦ char_body start (slice l.bytes body_start (body_start + len)) end
    ]

-- `text.parse::<i64>()` on digits
unfoldable pub digits_value : ℕ → Text → ℕ
digits_value acc [] = acc
digits_value acc (c ∷ cs) = digits_value (acc * 10 + (c - b'0')) cs

unfoldable pub parse_int : Text → Option ℕ
unfolding digits_value
parse_int text = let value = digits_value 0 text in if ltb value (2 ^ 63) then some value else none

unfoldable pub exponent_digits_follow : {F : Type 0} → Lexer F → Bool
exponent_digits_follow l =
    let after_sign : ℕ = if matches (λ c. c == b'+' || c == b'-') (peek_n l 1) then 2 else 1 in
    matches is_digit (peek_n l after_sign)

abbrev pub is_number_tail : ℕ → Bool
is_number_tail c = c == b'.' || is_ident c

unfoldable pub at_number_tail : {F : Type 0} → Lexer F → Bool
at_number_tail l = matches is_number_tail (peek l)

-- A fraction is taken where a digit follows the point.
unfoldable pub lex_fraction : {F : Type 0} → Lexer F → Lexer F × Bool
unfolding eat_digits
lex_fraction l =
    if matches (λ c. c == b'.') (peek l) && matches is_digit (peek_n l 1)
    then (eat_digits (advance 1 l), true)
    else (l, false)

unfoldable pub lex_exponent : {F : Type 0} → Lexer F → Lexer F × Bool
unfolding eat_digits exponent_digits_follow
lex_exponent l =
    if matches (λ c. c == b'e' || c == b'E') (peek l) && exponent_digits_follow l
    then (let l' = advance 1 l in
        let signed = if matches (λ c. c == b'+' || c == b'-') (peek l') then advance 1 l' else l' in
        (eat_digits signed, true))
    else (l, false)

-- the part of `lex_number` that reads the value
unfoldable pub number_value :
    {F : Type 0} → (Text → Option F) → ℕ → Bool → Text → Lexer F → Option (Lexer F)
unfolding parse_int
number_value parse_finite start true text l = elim (parse_finite text) [
  | some value ↦ some (push_token start (float value) l)
  | none ↦
      report start l.offset (codes "LEX_BAD_FLOAT")
        (codes "Float literal '" ++ (text ++ codes "' is not a finite number")) l
]
number_value parse_finite start false text l = elim (parse_int text) [
  | some value ↦ some (push_token start (integer (pos value)) l)
  | none ↦
      report start l.offset (codes "LEX_BAD_INT")
        (codes "Invalid integer literal '" ++ (text ++ codes "'")) l
]

-- `parse_finite` stands for `text.parse::<f64>()` where its value is finite.
unfoldable pub lex_number : {F : Type 0} → (Text → Option F) → Lexer F → Option (Lexer F)
unfolding eat_digits lex_fraction lex_exponent number_value at_number_tail eat_while
lex_number parse_finite l =
    let start = l.offset in
    let fraction = lex_fraction (eat_digits l) in
    let exponent = lex_exponent fraction.0 in
    let end = exponent.0 in
    if at_number_tail end
    then (let swallowed = eat_while is_number_tail end in
        report start swallowed.offset (codes "LEX_BAD_NUMBER")
          (codes "Invalid numeric literal '" ++ (slice l.bytes start swallowed.offset ++ codes "'"))
          swallowed)
    else number_value parse_finite start (fraction.1 || exponent.1) (slice l.bytes start end.offset)
        end

unfoldable pub lex_identifier_or_keyword : {F : Type 0} → Lexer F → Option (Lexer F)
unfolding eat_while from_str
lex_identifier_or_keyword l =
    let start = l.offset in
    let end = eat_while is_ident l in
    let text = slice l.bytes start end.offset in
    elim (from_str text) [
      | some word ↦ some (push_token start (keyword word) end)
      | none ↦ intern end.interner text >>= λ (interner, id).
          some (push_token start (identifier id) (record end { interner = interner }))
    ]
