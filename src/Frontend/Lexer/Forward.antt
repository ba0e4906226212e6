-- ===== src/Frontend/Lexer/Forward.antt =====
-- What a call for a token does to the source that is left.
use luajit.Common.{
  ℕ, ◌≤◌, ◌<◌, ◌^◌, ◌≡◌, ◌≢◌, ◌⊎◌, inl, inr, refl, arith, Bool, true, false, not, ◌||◌, List, [],
  ◌∷◌, drop, ◌==◌, if◌then◌else◌, Option, none, some, ltb,
}
use luajit.Common.Int.{pos}
use luajit.Common.Result.{Result, ok, err, ◌>>=◌}
use luajit.Frontend.Lexer.Token.{
  end, Token, integer_value, number_value, LexError, out_of_fuel, malformed_number, Numerals,
}
use luajit.Frontend.Lexer.State.{
  Lexer, is_digit, is_xdigit, is_alpha, peek_char, eos, is_end, advance, skip_equals,
}
use luajit.Frontend.Lexer.Skip.{skip_whitespace_and_comments}
use luajit.Frontend.Lexer.Number.{
  pure_int, is_hex_num, all_of, stoull, number_text, by_strtod, number_of,
}
use luajit.Frontend.Lexer.Strings.{lex_string, lex_long_string}
use luajit.Frontend.Lexer.Scan.{
  is_ident, string_token, lex_bracket, lex_symbol, lex_number, lex_here, lex_one,
}
use luajit.Frontend.Lexer.Measure.{
  size, cases, Moves, then-Moves, advance_le, advance_inside, scan_while_lt, skip_equals_le,
}
use luajit.Frontend.Lexer.Spans.{begins_number, number_text_lt, symbol-Small}
use luajit.Frontend.Lexer.Progress.{read_size, lex_string-Moves, lex_long_string-Moves, skip-Moves}

-- The last token at the end of the source; another one leaves less than n; or an error of its own.
abbrev pub Forward : {F : Type 0} → ℕ → Result LexError (Token F × Lexer) → Type 0
Forward n (ok (t, l)) = ((t.kind ≡ end) × (l.src ≡ [])) ⊎ (size l < n)
Forward n (err e) = e ≢ out_of_fuel

module _ (F : Type 0) where
  then-Forward :
      {A : Type 0} (μ : A → ℕ) (m n : ℕ) (r : Result LexError A)
      (f : A → Result LexError (Token F × Lexer))
      → Moves μ m r
      → ((a : A) → μ a ≤ m → Forward n (f a))
      → Forward n (r >>= f)
  then-Forward μ m n r f h g = then-Moves μ (Forward n) m r f (λ e h. h) h g

  lex_bracket-Forward : (l : Lexer) → eos l ≡ false → Forward {F = F} (size l) (lex_bracket l)
  unfolding lex_bracket
  lex_bracket-Forward l more =
      let (level, behind) = skip_equals (advance l) in
      let left : size behind ≤ size (advance l) = skip_equals_le (advance l) in
      cases (Forward (size l)) (peek_char behind == b'[')
        (λ _.
          then-Forward read_size (size (advance behind)) (size l)
            (lex_long_string level (advance behind)) _
            (lex_long_string-Moves level (advance behind))
            (λ r le. inr (omega (arith, le, advance_le behind, left, advance_inside l more))))
        (λ _.
          cases (Forward (size l)) (not (level == 0)) (λ _ e. cc)
            (λ _. inr (omega (arith, left, advance_inside l more))))

  lex_symbol_lt : (l : Lexer) → eos l ≡ false → size (lex_symbol {F = F} l).1 < size l
  unfolding lex_symbol
  lex_symbol_lt l more =
      omega (arith, symbol-Small (peek_char l) (advance l), advance_inside l more)

module _ (F : Type 0) ⦃numerals : Numerals F⦄ where
  by_strtod-Moves : (s : List ℕ) → Moves (λ _. 0) 0 (by_strtod {F = F} s)
  by_strtod-Moves s = go (numerals.strtod s)
    where
      go :
          (o : Option F)
          → Moves (λ _. 0) 0 (elim o [ some d ↦ ok (number_value d) | none ↦ err malformed_number ])
      go (some d) = omega arith
      go none = λ e. cc

  number_of-Moves : (s : List ℕ) → Moves (λ _. 0) 0 (number_of {F = F} s)
  unfolding number_of
  number_of-Moves s =
      cases (Moves (λ _. 0) 0) (pure_int s)
        (λ _.
          cases (Moves (λ _. 0) 0) (is_hex_num s)
            (λ _.
              cases (Moves (λ _. 0) 0) (all_of is_xdigit (drop 2 s)) (λ _. omega arith)
                (λ _. by_strtod-Moves s))
            (λ _. go (stoull s)))
        (λ _. by_strtod-Moves s)
    where
      go :
          (o : Option ℕ)
          → Moves
              (λ _. 0)
              0
              (elim o [
                | some u ↦
                    if ltb u (2 ^ 63)
                    then ok (integer_value (pos u))
                    else ok (number_value (numerals.of_word u))
                | none ↦ by_strtod {F = F} s
              ])
      go (some u) = cases (Moves (λ _. 0) 0) (ltb u (2 ^ 63)) (λ _. omega arith) (λ _. omega arith)
      go none = by_strtod-Moves s

  lex_number-Forward :
      (l : Lexer) → begins_number l ≡ true → Forward {F = F} (size l) (lex_number l)
  unfolding lex_number
  lex_number-Forward l h =
      then-Forward F (λ _. 0) 0 (size l) (number_of (number_text l).0) _
        (number_of-Moves (number_text l).0) (λ v _. inr (number_text_lt l h))

  lex_here-Forward : (l : Lexer) → Forward {F = F} (size l) (lex_here l)
  unfolding lex_here
  lex_here-Forward l =
      let c = peek_char l in
      cases (Forward (size l)) (eos l) (λ done. inl (refl, is_end-nil l.src done))
        (λ more.
          cases (Forward (size l)) (begins_number l) (λ number. lex_number-Forward l number)
            (λ _.
              cases (Forward (size l)) (c == b'\'' || c == b'"')
                (λ _.
                  then-Forward F read_size (size (advance l)) (size l) (lex_string c l)
                    (string_token l) (lex_string-Moves c l)
                    (λ r le. inr (omega (arith, le, advance_inside l more))))
                (λ _.
                  cases (Forward (size l)) (c == b'[') (λ _. lex_bracket-Forward F l more)
                    (λ _.
                      cases (Forward (size l)) (is_alpha c || c == b'_')
                        (λ first. inr (
                          scan_while_lt is_ident l refl
                            (ident_first (is_alpha c) (is_digit c) (c == b'_') first)))
                        (λ _. inr (lex_symbol_lt F l more))))))
    where
      ident_first : (a b c : Bool) → (a || c) ≡ true → (a || (b || c)) ≡ true
      ident_first true b c h = refl
      ident_first false true c h = refl
      ident_first false false c h = h

      is_end-nil : (s : List ℕ) → is_end s ≡ true → s ≡ []
      is_end-nil [] h = refl
      is_end-nil (c ∷ s) h = cc

  -- A call of the lexer for a token ends: it is an error in the source, or the last token with no
  -- source left behind it, or another token, and then less of the source is left than before.
  pub lex_one-Forward : (l : Lexer) → Forward {F = F} (size l) (lex_one l)
  unfolding lex_one
  lex_one-Forward l =
      then-Forward F size (size l) (size l) (skip_whitespace_and_comments l) lex_here (skip-Moves l)
        (λ here le. widened here le (lex_here here) (lex_here-Forward here))
    where
      widened :
          (here : Lexer)
          → size here ≤ size l
          → (r : Result LexError (Token F × Lexer)) → Forward (size here) r
          → Forward (size l) r
      widened here le (ok (t, rest)) (inl h) = inl h
      widened here le (ok (t, rest)) (inr h) = inr (omega (arith, h, le))
      widened here le (err e) h = h
