-- ===== src/Frontend/Lexer/Spans.antt =====
-- Numerals and symbols of src/frontend/lexer.cpp: what they leave of the source.
use luajit.Common.{
  ℕ, ◌≤◌, ◌<◌, ◌≡◌, refl, arith, Bool, true, false, not, ◌&&◌, ◌||◌, List, ◌==◌, if◌then◌else◌,
  Option, none, some,
}
use luajit.Frontend.Lexer.Token.{TokenKind, dot_dot, dot_dot_dot}
use luajit.Frontend.Lexer.State.{
  Lexer, is_digit, is_xdigit, peek_at, peek_char, advance, advance_by, scan_while,
}
use luajit.Frontend.Lexer.Number.{exponent, starts_hex, number_text}
use luajit.Frontend.Lexer.Scan.{matched, single, paired, symbol}
use luajit.Frontend.Lexer.Measure.{
  size, cases, advance_le, advance_lt, scan_while_lt, scan_while_le,
}

exponent_le : (here : Bool) (l : Lexer) → size (exponent here l).1 ≤ size l
exponent_le false l = omega arith
exponent_le true l =
    let sign = peek_char (advance l) in
    cases (λ (r : List ℕ × Lexer). size r.1 ≤ size l) (sign == b'+' || sign == b'-')
      (λ _.
        omega (
          arith,
          scan_while_le is_digit (advance (advance l)),
          advance_le (advance l),
          advance_le l,
        ))
      (λ _. omega (arith, scan_while_le is_digit (advance l), advance_le l))

abbrev pub begins_number : Lexer → Bool
begins_number l = is_digit (peek_char l) || (peek_char l == b'.' && is_digit (peek_at 1 l))

abbrev in_number : Bool → ℕ → Bool
in_number is_hex c = (if is_hex then is_xdigit c else is_digit c) || c == b'.'

digits_lt :
    (is_hex : Bool) (l : Lexer)
    → starts_hex l ≡ is_hex
    → begins_number l ≡ true
    → size (scan_while (in_number is_hex) (if is_hex then advance_by 2 l else l)).1 < size l
unfolding advance_by
digits_lt true l hex h = omega (
  arith,
  scan_while_le (in_number true) (advance_by 2 l),
  advance_le (advance l),
  advance_lt (λ c. c == b'0' && (peek_at 1 l == b'x' || peek_at 1 l == b'X')) l refl hex,
)
digits_lt false l hex h =
    scan_while_lt (in_number false) l refl
      (first_digit (is_digit (peek_char l)) (peek_char l == b'.') (is_digit (peek_at 1 l)) h)
  where
    first_digit : (a b c : Bool) → (a || (b && c)) ≡ true → (a || b) ≡ true
    first_digit true b c h = refl
    first_digit false true c h = refl
    first_digit false false c h = h

pub number_text_lt : (l : Lexer) → begins_number l ≡ true → size (number_text l).1 < size l
unfolding number_text
number_text_lt l h =
    let is_hex = starts_hex l in
    let second : Lexer = (scan_while (in_number is_hex) (if is_hex then advance_by 2 l else l)).1 in
    let with_decimal = not is_hex && (peek_char second == b'e' || peek_char second == b'E') in
    let third : Lexer = (exponent with_decimal second).1 in
    let with_hex = is_hex && (peek_char third == b'p' || peek_char third == b'P') in
    omega (
      arith,
      digits_lt is_hex l refl h,
      exponent_le with_decimal second,
      exponent_le with_hex third,
    )

matched_le : (c : ℕ) (l : Lexer) (two one : TokenKind) → size (matched c l two one).1 ≤ size l
matched_le c l two one =
    cases (λ (r : TokenKind × Lexer). size r.1 ≤ size l) (peek_char l == c) (λ _. advance_le l)
      (λ _. omega arith)

abbrev pub Small : Lexer → TokenKind × Lexer → Type 0
Small l r = size r.1 ≤ size l

paired-Small : (c : ℕ) (l : Lexer) → Small l (paired c l)
unfolding paired
paired-Small c l =
    cases (Small l) (c == b'/') (λ _. matched_le b'/' l _ _)
      (λ _.
        cases (Small l) (c == b'~') (λ _. matched_le b'=' l _ _)
          (λ _.
            cases (Small l) (c == b'=') (λ _. matched_le b'=' l _ _)
              (λ _.
                cases (Small l) (c == b'<')
                  (λ _.
                    cases (Small l) (peek_char l == b'<') (λ _. advance_le l)
                      (λ _. matched_le b'=' l _ _))
                  (λ _.
                    cases (Small l) (c == b'>')
                      (λ _.
                        cases (Small l) (peek_char l == b'>') (λ _. advance_le l)
                          (λ _. matched_le b'=' l _ _))
                      (λ _.
                        cases (Small l) (c == b':') (λ _. matched_le b':' l _ _)
                          (λ _.
                            cases (Small l) (c == b'.')
                              (λ _.
                                cases (Small l) (peek_char l == b'.')
                                  (λ _. omega (
                                    arith,
                                    matched_le b'.' (advance l) dot_dot_dot dot_dot,
                                    advance_le l,
                                  ))
                                  (λ _. omega arith))
                              (λ _. omega arith)))))))

pub symbol-Small : (c : ℕ) (l : Lexer) → Small l (symbol c l)
unfolding symbol
symbol-Small c l = go (single c)
  where
    go : (o : Option TokenKind) → Small l (elim o [ some kind ↦ (kind, l) | none ↦ paired c l ])
    go (some kind) = omega arith
    go none = paired-Small c l
