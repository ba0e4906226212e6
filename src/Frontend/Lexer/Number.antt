-- ===== src/Frontend/Lexer/Number.antt =====
-- Numerals: `lex_number` of src/frontend/lexer.cpp.
use luajit.Common.{
  ℕ, ◌+◌, ◌-◌, ◌*◌, ◌%◌, ◌^◌, Bool, true, false, not, ◌&&◌, ◌||◌, List, [], ◌∷◌, ◌++◌, drop, ltb,
  ◌==◌, if◌then◌else◌, Option, none, some,
}
use luajit.Common.Int.{pos, of_word}
use luajit.Common.Result.{Result, ok, err}
use luajit.Frontend.Lexer.Token.{
  LexError, malformed_number, Numerals, TokenValue, integer_value, number_value,
}
use luajit.Frontend.Lexer.State.{
  Lexer, between, is_digit, is_xdigit, peek_at, peek_char, advance, advance_by, scan_while,
}

abbrev pub hexval : ℕ → ℕ
hexval c =
    if is_digit c then c - b'0' else if between b'a' b'f' c then c - b'a' + 10 else c - b'A' + 10

abbrev pub contains : ℕ → List ℕ → Bool
contains c [] = false
contains c (x ∷ xs) = if x == c then true else contains c xs

abbrev pub all_of : (ℕ → Bool) → List ℕ → Bool
all_of p [] = true
all_of p (c ∷ s) = p c && all_of p s

-- '0' and 'x' or 'X', and something behind them
abbrev pub is_hex_num : List ℕ → Bool
is_hex_num (zero_digit ∷ (x ∷ (c ∷ s))) = zero_digit == b'0' && (x == b'x' || x == b'X')
is_hex_num _ = false

abbrev pub pure_int : List ℕ → Bool
pure_int s =
    not (contains b'.' s)
    && ((is_hex_num s || (not (contains b'e' s) && not (contains b'E' s)))
        && (not (contains b'p' s) && not (contains b'P' s)))

-- `u = (u << 4) + d` in 64 bits
abbrev pub hex_word : ℕ → List ℕ → ℕ
hex_word u [] = u
hex_word u (c ∷ s) = hex_word ((u * 16 + hexval c) % 2 ^ 64) s

abbrev pub decimal : ℕ → List ℕ → ℕ
decimal u [] = u
decimal u (c ∷ s) = decimal (u * 10 + (c - b'0')) s

-- `std::stoull` of a text that is digits as a whole and fits in 64 bits.
abbrev pub stoull : List ℕ → Option ℕ
stoull [] = none
stoull (c ∷ s) =
    if all_of is_digit (c ∷ s) && ltb (decimal 0 (c ∷ s)) (2 ^ 64)
    then some (decimal 0 (c ∷ s))
    else none

-- An exponent with its sign, if its letter is next.
abbrev pub exponent : Bool → Lexer → List ℕ × Lexer
exponent here l =
    if here
    then (let letter = peek_char l in
        let behind = advance l in
        let sign = peek_char behind in
        if sign == b'+' || sign == b'-'
        then (let (digits, last) = scan_while is_digit (advance behind) in
            (letter ∷ (sign ∷ digits), last))
        else (let (digits, last) = scan_while is_digit behind in (letter ∷ digits, last)))
    else ([], l)

abbrev pub starts_hex : Lexer → Bool
starts_hex l = peek_char l == b'0' && (peek_at 1 l == b'x' || peek_at 1 l == b'X')

-- The text of a numeral, and the state behind it.
unfoldable pub number_text : Lexer → List ℕ × Lexer
unfolding advance_by
number_text l =
    let is_hex = starts_hex l in
    let prefix = if is_hex then peek_char l ∷ (peek_at 1 l ∷ []) else [] in
    let first = if is_hex then advance_by 2 l else l in
    let (digits, second) =
      scan_while (λ c. (if is_hex then is_xdigit c else is_digit c) || c == b'.') first in
    let (decimal_exponent, third) =
      exponent (not is_hex && (peek_char second == b'e' || peek_char second == b'E')) second in
    let (hex_exponent, last) =
      exponent (is_hex && (peek_char third == b'p' || peek_char third == b'P')) third in
    (prefix ++ (digits ++ (decimal_exponent ++ hex_exponent)), last)

module _ {F : Type 0} ⦃numerals : Numerals F⦄ where
  abbrev pub by_strtod : List ℕ → Result LexError (TokenValue F)
  by_strtod s = elim (numerals.strtod s) [
    | some d ↦ ok (number_value d)
    | none ↦ err malformed_number
  ]

  unfoldable pub number_of : List ℕ → Result LexError (TokenValue F)
  number_of s =
      if pure_int s
      then (if is_hex_num s
          then (if all_of is_xdigit (drop 2 s)
              then ok (integer_value (of_word (hex_word 0 (drop 2 s))))
              else by_strtod s)
          else elim (stoull s) [
            | some u ↦
                if ltb u (2 ^ 63)
                then ok (integer_value (pos u))
                else ok (number_value (numerals.of_word u))
            | none ↦ by_strtod s
          ])
      else by_strtod s
