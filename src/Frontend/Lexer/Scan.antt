-- ===== src/Frontend/Lexer/Scan.antt =====
-- One token after another: `ident_or_kw`, `lex_one`, `next` and `peek` of src/frontend/lexer.cpp.
use luajit.Common.{
  ℕ, Bool, not, ◌&&◌, ◌||◌, List, [], ◌∷◌, same_bytes, ◌==◌, if◌then◌else◌, Option, none, some,
}
use luajit.Common.Int.{pos}
use luajit.Common.Result.{Result, ok, err, ◌>>=◌}
use luajit.Frontend.Lexer.Token.{
  TokenKind, end, identifier, number, integer, string, char, Token, TokenValue, no_value,
  integer_value, LexError, invalid_long_string_delimiter, Numerals, kw_and, kw_break, kw_do,
  kw_else, kw_elseif, kw_end, kw_false, kw_for, kw_function, kw_goto, kw_if, kw_in, kw_local,
  kw_nil, kw_not, kw_or, kw_repeat, kw_return, kw_then, kw_true, kw_until, kw_while, plus, minus,
  star, slash, percent, caret, hash, amp, tilde, pipe, lt_lt, gt_gt, slash_slash, eq_eq, tilde_eq,
  lt_eq, gt_eq, lt, gt, eq, l_paren, r_paren, l_brace, r_brace, l_bracket, r_bracket, colon_colon,
  semi, colon, comma, dot, dot_dot, dot_dot_dot,
}
use luajit.Frontend.Lexer.State.{
  Lexer, is_digit, is_alpha, peek_at, peek_char, eos, advance, scan_while, skip_equals,
}
use luajit.Frontend.Lexer.Skip.{skip_whitespace_and_comments}
use luajit.Frontend.Lexer.Number.{number_text, number_of}
use luajit.Frontend.Lexer.Strings.{lex_string, lex_long_string}

abbrev pub kws : List (List ℕ × TokenKind)
kws =
    ((b'a' ∷ b'n' ∷ b'd' ∷ []), kw_and)
    ∷ ((b'b' ∷ b'r' ∷ b'e' ∷ b'a' ∷ b'k' ∷ []), kw_break)
    ∷ ((b'd' ∷ b'o' ∷ []), kw_do)
    ∷ ((b'e' ∷ b'l' ∷ b's' ∷ b'e' ∷ []), kw_else)
    ∷ ((b'e' ∷ b'l' ∷ b's' ∷ b'e' ∷ b'i' ∷ b'f' ∷ []), kw_elseif)
    ∷ ((b'e' ∷ b'n' ∷ b'd' ∷ []), kw_end)
    ∷ ((b'f' ∷ b'a' ∷ b'l' ∷ b's' ∷ b'e' ∷ []), kw_false)
    ∷ ((b'f' ∷ b'o' ∷ b'r' ∷ []), kw_for)
    ∷ ((b'f' ∷ b'u' ∷ b'n' ∷ b'c' ∷ b't' ∷ b'i' ∷ b'o' ∷ b'n' ∷ []), kw_function)
    ∷ ((b'g' ∷ b'o' ∷ b't' ∷ b'o' ∷ []), kw_goto)
    ∷ ((b'i' ∷ b'f' ∷ []), kw_if)
    ∷ ((b'i' ∷ b'n' ∷ []), kw_in)
    ∷ ((b'l' ∷ b'o' ∷ b'c' ∷ b'a' ∷ b'l' ∷ []), kw_local)
    ∷ ((b'n' ∷ b'i' ∷ b'l' ∷ []), kw_nil)
    ∷ ((b'n' ∷ b'o' ∷ b't' ∷ []), kw_not)
    ∷ ((b'o' ∷ b'r' ∷ []), kw_or)
    ∷ ((b'r' ∷ b'e' ∷ b'p' ∷ b'e' ∷ b'a' ∷ b't' ∷ []), kw_repeat)
    ∷ ((b'r' ∷ b'e' ∷ b't' ∷ b'u' ∷ b'r' ∷ b'n' ∷ []), kw_return)
    ∷ ((b't' ∷ b'h' ∷ b'e' ∷ b'n' ∷ []), kw_then)
    ∷ ((b't' ∷ b'r' ∷ b'u' ∷ b'e' ∷ []), kw_true)
    ∷ ((b'u' ∷ b'n' ∷ b't' ∷ b'i' ∷ b'l' ∷ []), kw_until)
    ∷ ((b'w' ∷ b'h' ∷ b'i' ∷ b'l' ∷ b'e' ∷ []), kw_while)
    ∷ []

abbrev pub keyword : List ℕ → List (List ℕ × TokenKind) → TokenKind
keyword s [] = identifier
keyword s ((k, kind) ∷ ks) = if same_bytes k s then kind else keyword s ks

abbrev pub is_ident : ℕ → Bool
is_ident c = is_alpha c || (is_digit c || c == b'_')

-- `match`
abbrev pub matched : ℕ → Lexer → TokenKind → TokenKind → TokenKind × Lexer
matched c l two one = if peek_char l == c then (two, advance l) else (one, l)

-- The symbols of one character that begin no other.
abbrev pub single : ℕ → Option TokenKind
single c =
    if c == b'+'
    then some plus
    else if c == b'-'
    then some minus
    else if c == b'*'
    then some star
    else if c == b'%'
    then some percent
    else if c == b'^'
    then some caret
    else if c == b'#'
    then some hash
    else if c == b'&'
    then some amp
    else if c == b'|'
    then some pipe
    else if c == b'('
    then some l_paren
    else if c == b')'
    then some r_paren
    else if c == b'{'
    then some l_brace
    else if c == b'}'
    then some r_brace
    else if c == b']'
    then some r_bracket
    else if c == b';'
    then some semi
    else if c == b','
    then some comma
    else none

-- The other symbols, of one character or more; any other byte is a token of its own.
unfoldable pub paired : ℕ → Lexer → TokenKind × Lexer
unfolding advance
paired c l =
    if c == b'/'
    then matched b'/' l slash_slash slash
    else if c == b'~'
    then matched b'=' l tilde_eq tilde
    else if c == b'='
    then matched b'=' l eq_eq eq
    else if c == b'<'
    then (if peek_char l == b'<' then (lt_lt, advance l) else matched b'=' l lt_eq lt)
    else if c == b'>'
    then (if peek_char l == b'>' then (gt_gt, advance l) else matched b'=' l gt_eq gt)
    else if c == b':'
    then matched b':' l colon_colon colon
    else if c == b'.'
    then (if peek_char l == b'.' then matched b'.' (advance l) dot_dot_dot dot_dot else (dot, l))
    else (char, l)

-- The symbol that begins with c, given the state behind c.
unfoldable pub symbol : ℕ → Lexer → TokenKind × Lexer
unfolding paired
symbol c l = elim (single c) [ some kind ↦ (kind, l) | none ↦ paired c l ]

module _ {F : Type 0} where
  abbrev pub token : Lexer → TokenKind → List ℕ → TokenValue F → Token F
  token start kind text value = record {
    kind = kind;
    text = text;
    value = value;
    line = start.line;
    col = start.col;
  }

  abbrev pub ident_or_kw : Lexer → Token F × Lexer
  ident_or_kw l =
      let (s, behind) = scan_while is_ident l in (token l (keyword s kws) s no_value, behind)

  -- A string token from what was read.
  abbrev pub string_token : Lexer → List ℕ × Lexer → Result LexError (Token F × Lexer)
  string_token start (text, behind) = ok (token start string text no_value, behind)

  -- From '[' on: a long string, or the bracket.
  unfoldable pub lex_bracket : Lexer → Result LexError (Token F × Lexer)
  unfolding advance lex_long_string
  lex_bracket l =
      let (level, behind) = skip_equals (advance l) in
      if peek_char behind == b'['
      then (lex_long_string level (advance behind) >>= string_token (advance behind))
      else if not (level == 0)
      then err invalid_long_string_delimiter
      else ok (token l l_bracket [] no_value, behind)

  abbrev pub symbol_value : TokenKind → ℕ → TokenValue F
  symbol_value char c = integer_value (pos c)
  symbol_value _ c = no_value

  unfoldable pub lex_symbol : Lexer → Token F × Lexer
  unfolding symbol
  lex_symbol l =
      let (kind, behind) = symbol (peek_char l) (advance l) in
      (token l kind [] (symbol_value kind (peek_char l)), behind)

module _ {F : Type 0} ⦃numerals : Numerals F⦄ where
  abbrev pub number_kind : TokenValue F → TokenKind
  number_kind (integer_value n) = integer
  number_kind _ = number

  unfoldable pub lex_number : Lexer → Result LexError (Token F × Lexer)
  unfolding number_text number_of
  lex_number l =
      let (s, behind) = number_text l in
      number_of s >>= (λ v. ok (token l (number_kind v) s v, behind))

  -- A token that begins here, behind white space and comments.
  unfoldable pub lex_here : Lexer → Result LexError (Token F × Lexer)
  unfolding lex_number lex_string lex_bracket lex_symbol
  lex_here l =
      let c = peek_char l in
      if eos l
      then ok (token l end [] no_value, l)
      else if is_digit c || (c == b'.' && is_digit (peek_at 1 l))
      then lex_number l
      else if c == b'\'' || c == b'"'
      then (lex_string c l >>= string_token l)
      else if c == b'['
      then lex_bracket l
      else if is_alpha c || c == b'_'
      then ok (ident_or_kw l)
      else ok (lex_symbol l)

  unfoldable pub lex_one : Lexer → Result LexError (Token F × Lexer)
  unfolding lex_here skip_whitespace_and_comments
  lex_one l = skip_whitespace_and_comments l >>= lex_here

-- With `peek_`, if there is one.
pub record Scanner (F : Type 0) : Type 0 where
  pub lexer : Lexer
  pub peeked : Option (Token F)

-- From the end of the first line on.
abbrev pub after_line : List ℕ → List ℕ
after_line [] = []
after_line (c ∷ s) = if c == b'\n' then c ∷ s else after_line s

-- Behind the line end, on the second line.
abbrev pub behind_line : List ℕ → Lexer
behind_line [] = record { src = []; line = 1; col = 1 }
behind_line (c ∷ s) = record { src = s; line = 2; col = 1 }

-- The constructor: a first line that begins with '#' is skipped.
unfoldable pub open_source : List ℕ → Lexer
open_source [] = record { src = []; line = 1; col = 1 }
open_source (c ∷ s) =
    if c == b'#'
    then behind_line (after_line (c ∷ s))
    else record { src = c ∷ s; line = 1; col = 1 }

module _ {F : Type 0} ⦃numerals : Numerals F⦄ where
  unfoldable pub next : Scanner F → Result LexError (Token F × Scanner F)
  unfolding lex_one
  next s = elim s.peeked [
    | some t ↦ ok (t, record s { peeked = none })
    | none ↦ lex_one s.lexer >>= (λ (t, behind). ok (t, record { lexer = behind; peeked = none }))
  ]

  unfoldable pub peek : Scanner F → Result LexError (Token F × Scanner F)
  unfolding lex_one
  peek s = elim s.peeked [
    | some t ↦ ok (t, s)
    | none ↦ lex_one s.lexer >>= (λ (t, behind). ok (t, record { lexer = behind; peeked = some t }))
  ]
