-- ===== src/Frontend/Lexer/Quoted.antt =====
-- Strings written with escapes, and what the lexer reads back.
use luajit.Common.{
  ℕ, zero, suc, ◌+◌, ◌-◌, ◌/◌, ◌%◌, ◌≤◌, ◌<◌, ◌≡◌, ◌⊎◌, inl, inr, refl, sym, ap, ◌∙◌, arith, Bool,
  true, false, ◌||◌, Bool-cases, List, [], ◌∷◌, ◌++◌, length, length-append, ltb, ◌==◌,
  if◌then◌else◌, Option, none, some,
}
use mathlib.Core.List.{append_assoc, append-nil}
use luajit.Common.Result.{Result, ok}
use luajit.Frontend.Lexer.Token.{LexError}
use luajit.Frontend.Lexer.State.{Lexer, is_newline, is_digit, advance, Round, again, stop, loop}
use luajit.Frontend.Lexer.Number.{decimal}
use luajit.Frontend.Lexer.Measure.{cases}
use luajit.Frontend.Lexer.Strings.{
  Reading, simple_escape, decimal_escape, other_escape, escape, string_round, lex_string,
}

-- A byte as it is, or as a decimal escape where it cannot stand in a string.
abbrev pub quoted_byte : ℕ → ℕ → List ℕ
quoted_byte quote c =
    if c == quote || (c == b'\\' || is_newline c)
    then b'\\' ∷ ((48 + c / 100) ∷ ((48 + c / 10 % 10) ∷ ((48 + c % 10) ∷ [])))
    else c ∷ []

abbrev pub quoted : ℕ → List ℕ → List ℕ
quoted quote [] = []
quoted quote (c ∷ s) = quoted_byte quote c ++ quoted quote s

abbrev pub IsBytes : List ℕ → Type 0
IsBytes [] = Unit
IsBytes (c ∷ s) = (c < 256) × IsBytes s

abbrev pub at : List ℕ → ℕ → ℕ → Lexer
at s line col = record { src = s; line = line; col = col }

or-false : (a b : Bool) → (a || b) ≡ false → (a ≡ false) × (b ≡ false)
or-false true b h = absurd (differ h)
  where
    differ : true ≡ false → ⊥
    differ h = cc
or-false false b h = (refl, h)

digit_plain : (a : ℕ) → a < 10 → (is_digit (48 + a) ≡ true) × (is_newline (48 + a) ≡ false)
digit_plain a h = (ground arith, ground arith)

digits_value :
    (c : ℕ) → c < 256 → decimal (48 + c / 100 - 48) ((48 + c / 10 % 10) ∷ ((48 + c % 10) ∷ [])) ≡ c
digits_value c h = omega arith

-- The literal read is s; the source behind it is left, on the same line.
abbrev pub Back : List ℕ → List ℕ → ℕ → Result LexError Reading → Type 0
Back s rest line r = (l : Lexer) × (r ≡ ok (s, l)) × (l.src ≡ rest) × (l.line ≡ line)

module _ (quote : ℕ) (one : (quote ≡ b'"') ⊎ (quote ≡ b'\'')) where
  plain_round :
      (out t : List ℕ) (c line col : ℕ)
      → (c == quote || (c == b'\\' || is_newline c)) ≡ false
      → string_round quote (out, at (c ∷ t) line col)
        ≡ ok (again (out ++ (c ∷ []), at t line (suc col)))
  unfolding string_round advance
  plain_round out t c line col h =
      let (other, rest) = or-false (c == quote) _ h in
      let (no_slash, no_newline) = or-false (c == b'\\') _ rest in rw (no_newline, other, no_slash)

  digit_none : (a : ℕ) → a < 10 → simple_escape (48 + a) ≡ none
  digit_none a h = ground arith

  decimal_round :
      (out t : List ℕ) (c line col : ℕ)
      → c < 256
      → decimal_escape (48 + c / 100) out (at ((48 + c / 10 % 10) ∷ ((48 + c % 10) ∷ t)) line col)
        ≡ ok (again (out ++ (c ∷ []), at t line (suc (suc col))))
  unfolding decimal_escape advance
  decimal_round out t c line col h =
      let (d, n) = digit_plain (c / 10 % 10) (omega arith) in
      let (e, m) = digit_plain (c % 10) (omega arith) in
      let small : ltb 255 c ≡ false = ground arith in rw (d, e, n, m, digits_value c h, small)

  last_round :
      (out rest : List ℕ) (line col : ℕ)
      → string_round quote (out, at (quote ∷ rest) line col)
        ≡ ok (stop (out, at rest line (suc col)))
  unfolding string_round advance
  last_round out rest line col =
      let same : (quote == quote) ≡ true = ground arith in
      let ends : is_newline quote ≡ false = elim one [ inl e ↦ rw e | inr e ↦ rw e ] in
      rw (ends, same)

  escape-digit :
      (a : ℕ) (out : List ℕ) (l : Lexer)
      → a < 10
      → escape (48 + a) out l ≡ decimal_escape (48 + a) out l
  unfolding escape other_escape
  escape-digit a out l h =
      let not_x : ((48 + a) == b'x') ≡ false = ground arith in
      let not_u : ((48 + a) == b'u') ≡ false = ground arith in
      let not_z : ((48 + a) == b'z') ≡ false = ground arith in
      let (d, _) = digit_plain a h in
      ap
        (λ (o : Option ℕ). elim o as (λ _. Result LexError (Round Reading Reading)) [
          | some c ↦ ok (again (out ++ (c ∷ []), l))
          | none ↦ other_escape (48 + a) out l
        ])
        (digit_none a h)
      ∙ rw (not_x, not_u, not_z, d)

  escaped_round :
      (out t : List ℕ) (c line col : ℕ)
      → c < 256
      → string_round quote
          (out, at (b'\\' ∷ ((48 + c / 100) ∷ ((48 + c / 10 % 10) ∷ ((48 + c % 10) ∷ t)))) line col)
        ≡ ok (again (out ++ (c ∷ []), at t line (suc (suc (suc (suc col))))))
  unfolding string_round advance
  escaped_round out t c line col h =
      let first : (b'\\' == quote) ≡ false = elim one [ inl e ↦ rw e | inr e ↦ rw e ] in
      let (_, n) = digit_plain (c / 100) (omega arith) in
      rw (first, n)
        (escape-digit (c / 100) out
            (at ((48 + c / 10 % 10) ∷ ((48 + c % 10) ∷ t)) line (suc (suc col))) (omega arith)
          ∙ decimal_round out t c line (suc (suc col)) h)

  -- The loop from any point inside the literal.
  loop-Back :
      (s rest out : List ℕ) (line col fuel : ℕ)
      → IsBytes s
      → length s < fuel
      → Back
          (out ++ s)
          rest
          line
          (loop (string_round quote) fuel (out, at (quoted quote s ++ (quote ∷ rest)) line col))
  unfolding loop
  loop-Back s rest out line col zero h l = absurd (omega (arith, l))
  loop-Back [] rest out line col (suc fuel) h l =
      rw (last_round out rest line col)
        (_, ap (λ (x : List ℕ). ok (x, at rest line (suc col))) (sym (append-nil out)), refl, refl)
  loop-Back (c ∷ s) rest out line col (suc fuel) (byte, h) l =
      elim (Bool-cases (c == quote || (c == b'\\' || is_newline c))) [
        | inl special ↦
            let (last, e, f, g) =
              loop-Back s rest (out ++ (c ∷ [])) line (suc (suc (suc (suc col)))) fuel h
                (omega (arith, l)) in
            rw (special, escaped_round out (quoted quote s ++ (quote ∷ rest)) c line col byte)
              (last, e ∙ ap (λ (x : List ℕ). ok (x, last)) (append_assoc out (c ∷ []) s), f, g)
        | inr plain ↦
            let (last, e, f, g) =
              loop-Back s rest (out ++ (c ∷ [])) line (suc col) fuel h (omega (arith, l)) in
            rw (plain, plain_round out (quoted quote s ++ (quote ∷ rest)) c line col plain)
              (last, e ∙ ap (λ (x : List ℕ). ok (x, last)) (append_assoc out (c ∷ []) s), f, g)
      ]

  length-quoted : (s : List ℕ) → length s ≤ length (quoted quote s)
  length-quoted [] = omega arith
  length-quoted (c ∷ s) =
      cases (λ (x : List ℕ). suc (length s) ≤ length (x ++ quoted quote s))
        (c == quote || (c == b'\\' || is_newline c)) (λ _. omega (arith, length-quoted s))
        (λ _. omega (arith, length-quoted s))

  -- A literal that writes each byte as it is, or as a decimal escape where the byte is a quote, a
  -- backslash or the end of a line, is read back whole, on one line, up to its closing quote.
  pub lex_string-quoted :
      (s rest : List ℕ) (line col : ℕ)
      → IsBytes s
      → Back s rest line
          (lex_string quote (at (quote ∷ (quoted quote s ++ (quote ∷ rest))) line col))
  unfolding lex_string advance
  lex_string-quoted s rest line col h =
      let ends : is_newline quote ≡ false = elim one [ inl e ↦ rw e | inr e ↦ rw e ] in
      rw ends (
        loop-Back s rest [] line (suc col)
          (suc (length (quote ∷ (quoted quote s ++ (quote ∷ rest))))) h
          (omega (arith, length-append (quoted quote s) (quote ∷ rest), length-quoted s)))
