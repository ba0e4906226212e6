-- ===== src/Frontend/Lexer/Strings.antt =====
-- String literals: `lex_string` and `lex_long_string` of src/frontend/lexer.cpp. The text kept for messages is left out.
use luajit.Common.{
  ℕ, ◌+◌, ◌-◌, ◌*◌, ◌/◌, ◌%◌, not, ◌&&◌, ◌||◌, List, [], ◌∷◌, ◌++◌, length, take, leb, ltb, ◌==◌,
  if◌then◌else◌, Option, none, some,
}
use luajit.Common.Result.{Result, ok, err, ◌>>=◌}
use luajit.Frontend.Lexer.Token.{
  LexError, unfinished_string, unfinished_string_at_eof, unfinished_long_string, hex_digit_expected,
  missing_left_brace, missing_right_brace, utf8_too_large, decimal_escape_too_large, invalid_escape,
}
use luajit.Frontend.Lexer.State.{
  Lexer, is_digit, is_xdigit, is_blank, taken, peek_char, eos, curr_is_newline, advance, advance_by,
  scan_while, skip_equals, incline, Round, again, stop, loop, fuel_for,
}
use luajit.Frontend.Lexer.Number.{hexval, decimal}

-- What is read so far, and the state.
abbrev pub Reading : Type 0
Reading = List ℕ × Lexer

abbrev pub simple_escape : ℕ → Option ℕ
simple_escape e =
    if e == b'a'
    then some 7
    else if e == b'b'
    then some 8
    else if e == b'f'
    then some 12
    else if e == b'n'
    then some 10
    else if e == b'r'
    then some 13
    else if e == b't'
    then some 9
    else if e == b'v'
    then some 11
    else if e == b'\\'
    then some b'\\'
    else if e == b'\''
    then some b'\''
    else if e == b'"'
    then some b'"'
    else none

-- Two hexadecimal digits.
unfoldable pub hex_escape : List ℕ → Lexer → Result LexError (Round Reading Reading)
unfolding advance
hex_escape out l =
    let behind = advance l in
    if eos l || not (is_xdigit (peek_char l))
    then err hex_digit_expected
    else if eos behind || not (is_xdigit (peek_char behind))
    then err hex_digit_expected
    else ok (
        again
          (out ++ ((hexval (peek_char l) * 16 + hexval (peek_char behind)) ∷ []), advance behind))

unfoldable pub code_point : ℕ → List ℕ → Result LexError ℕ
code_point cp [] = ok cp
code_point cp (h ∷ hs) =
    let rest = code_point (cp * 16 + hexval h) hs in
    if ltb 0x10FFFF (cp * 16 + hexval h) then err utf8_too_large else rest

unfoldable pub utf8_bytes : ℕ → List ℕ
utf8_bytes cp =
    if leb cp 0x7F
    then cp ∷ []
    else if leb cp 0x7FF
    then (0xC0 + cp / 64 % 32) ∷ ((0x80 + cp % 64) ∷ [])
    else if leb cp 0xFFFF
    then (0xE0 + cp / 4096 % 16) ∷ ((0x80 + cp / 64 % 64) ∷ ((0x80 + cp % 64) ∷ []))
    else (0xF0 + cp / 262144 % 8)
      ∷ ((0x80 + cp / 4096 % 64) ∷ ((0x80 + cp / 64 % 64) ∷ ((0x80 + cp % 64) ∷ [])))

-- A code point in braces.
unfoldable pub unicode_escape : List ℕ → Lexer → Result LexError (Round Reading Reading)
unfolding advance advance_by code_point
unicode_escape out l =
    let inside = advance l in
    let (digits, behind) = scan_while is_xdigit inside in
    if not (peek_char l == b'{')
    then err missing_left_brace
    else if eos inside || not (is_xdigit (peek_char inside))
    then err hex_digit_expected
    else (code_point 0 digits >>= (λ cp.
        if not (peek_char behind == b'}')
        then err missing_right_brace
        else ok (again (out ++ utf8_bytes cp, advance behind))))

unfoldable pub z_round : Lexer → Result LexError (Round Lexer Lexer)
unfolding advance incline
z_round l =
    if is_blank (peek_char l)
    then ok (again (advance l))
    else if curr_is_newline l
    then ok (again (incline l))
    else ok (stop l)

-- Up to three digits, of which e is the first.
unfoldable pub decimal_escape : ℕ → List ℕ → Lexer → Result LexError (Round Reading Reading)
unfolding advance_by
decimal_escape e out l =
    let more_digits = take 2 (taken is_digit l.src) in
    let v = decimal (e - b'0') more_digits in
    if ltb 255 v
    then err decimal_escape_too_large
    else ok (again (out ++ (v ∷ []), advance_by (length more_digits) l))

-- The escapes of more than one character.
unfoldable pub other_escape : ℕ → List ℕ → Lexer → Result LexError (Round Reading Reading)
unfolding hex_escape unicode_escape decimal_escape z_round loop
other_escape e out l =
    if e == b'x'
    then hex_escape out l
    else if e == b'u'
    then unicode_escape out l
    else if e == b'z'
    then (loop z_round (fuel_for l) l >>= (λ behind. ok (again (out, behind))))
    else if is_digit e
    then decimal_escape e out l
    else err invalid_escape

-- Behind the backslash and e.
unfoldable pub escape : ℕ → List ℕ → Lexer → Result LexError (Round Reading Reading)
unfolding other_escape
escape e out l = elim (simple_escape e) [
  | some c ↦ ok (again (out ++ (c ∷ []), l))
  | none ↦ other_escape e out l
]

unfoldable pub string_round : ℕ → Reading → Result LexError (Round Reading Reading)
unfolding escape advance incline
string_round quote (out, l) =
    let c = peek_char l in
    let behind = advance l in
    if eos l
    then err unfinished_string_at_eof
    else if curr_is_newline l
    then err unfinished_string
    else if c == quote
    then ok (stop (out, behind))
    else if not (c == b'\\')
    then ok (again (out ++ (c ∷ []), behind))
    else if eos behind
    then err unfinished_string_at_eof
    else if curr_is_newline behind
    then ok (again (out ++ (b'\n' ∷ []), incline behind))
    else escape (peek_char behind) out (advance behind)

-- From the opening quote on.
unfoldable pub lex_string : ℕ → Lexer → Result LexError Reading
unfolding string_round loop
lex_string quote l = loop (string_round quote) (fuel_for l) ([], advance l)

unfoldable pub long_round : ℕ → Reading → Result LexError (Round Reading Reading)
unfolding advance incline advance_by
long_round level (out, l) =
    let behind = advance l in
    let (lvl, last) = skip_equals behind in
    if eos l
    then err unfinished_long_string
    else if curr_is_newline l
    then ok (again (out ++ (b'\n' ∷ []), incline l))
    else if not (peek_char l == b']')
    then ok (again (out ++ (peek_char l ∷ []), behind))
    else if lvl == level && peek_char last == b']'
    then ok (stop (out, advance last))
    else ok (again (out ++ (b']' ∷ []), behind))

-- Behind the opening bracket.
unfoldable pub lex_long_string : ℕ → Lexer → Result LexError Reading
unfolding long_round loop
lex_long_string level l =
    let start = if curr_is_newline l then incline l else l in
    loop (long_round level) (fuel_for start) ([], start)
