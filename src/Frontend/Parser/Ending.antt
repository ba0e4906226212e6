-- ===== src/Frontend/Parser/Ending.antt =====
-- Parsing ends: the scanner's tokens run out, and so the parser does not run out of fuel.
use luajit.Common.{
  ℕ, suc, ◌+◌, ◌≤◌, ◌<◌, ◌≡◌, refl, ap, arith, inl, inr, List, [], ◌∷◌, length, ◌==◌, Option, none,
  some,
}
use luajit.Common.Result.{Result, ok, err, ◌>>=◌}
use luajit.Frontend.Lexer.Token.{Token, TokenKind, LexError, Numerals, end}
use luajit.Frontend.Lexer.State.{Lexer}
use luajit.Frontend.Lexer.Scan.{Scanner, lex_one, next, peek, after_line, behind_line, open_source}
use luajit.Frontend.Lexer.Measure.{cases}
use luajit.Frontend.Lexer.Forward.{Forward, lex_one-Forward}
use luajit.Frontend.Ast.{Block}
use luajit.Frontend.Parser.State.{Tokens, scanned, Parser, ParseError}
use luajit.Frontend.Parser.Chunk.{start, parse_chunk, result_of, parse}
use luajit.Frontend.Parser.Measure.{
  weight, pending, NextTakes, PeekSees, TokenLaws, Own, stays, Ends, then-Keeps,
}
use luajit.Frontend.Parser.Steps.{expect-Keeps}
use luajit.Frontend.Parser.Parts.{done}
use luajit.Frontend.Parser.Blocks.{parsers-Keeps}

weight_le : (k : TokenKind) → weight k ≤ 1
weight_le k = ground arith

module _ {F : Type 0} ⦃numerals : Numerals F⦄ where
  -- Characters that are left, and the token that was looked at.
  abbrev pub left : Scanner F → ℕ
  left s = length s.lexer.src + pending s.peeked

  left_behind :
      (n : ℕ) (t : Token F) (l : Lexer) → Forward n (ok (t, l)) → length l.src + weight t.kind ≤ n
  left_behind n t l (inl (last, empty)) =
      let none_left : length l.src ≡ 0 = ap length empty in
      let light : weight t.kind ≡ 0 = ap weight last in omega (arith, none_left, light)
  left_behind n t l (inr less) = omega (arith, less, weight_le t.kind)

  pub next_takes : (s : Scanner F) → NextTakes left (left s) (next s)
  unfolding next
  next_takes s = go s.peeked
    where
      scan :
          (r : Result LexError (Token F × Lexer))
          → Forward (length s.lexer.src) r
          → NextTakes left
              (length s.lexer.src + 0)
              (r >>= (λ (t, behind). ok (t, record { lexer = behind; peeked = none })))
      scan (ok (t, l)) h = omega (arith, left_behind (length s.lexer.src) t l h)
      scan (err e) h = h

      go :
          (o : Option (Token F))
          → NextTakes left (left (record s { peeked = o })) (next (record s { peeked = o }))
      go (some t) = omega arith
      go none = scan (lex_one s.lexer) (lex_one-Forward F s.lexer)

  pub peek_sees : (s : Scanner F) → PeekSees next left (left s) (peek s)
  unfolding peek next
  peek_sees s = go s.peeked
    where
      scan :
          (r : Result LexError (Token F × Lexer))
          → Forward (length s.lexer.src) r
          → PeekSees next left
              (length s.lexer.src + 0)
              (r >>= (λ (t, behind). ok (t, record { lexer = behind; peeked = some t })))
      scan (ok (t, l)) h = (
        omega (arith, left_behind (length s.lexer.src) t l h),
        (record { lexer = l; peeked = none }, (refl, omega arith)),
      )
      scan (err e) h = h

      go :
          (o : Option (Token F))
          → PeekSees next left (left (record s { peeked = o })) (peek (record s { peeked = o }))
      go (some t) = (omega arith, (record s { peeked = none }, (refl, omega arith)))
      go none = scan (lex_one s.lexer) (lex_one-Forward F s.lexer)

  instance abbrev pub scanner_laws : TokenLaws F (Scanner F) scanned
  scanner_laws = record { left = left; next_takes = next_takes; peek_sees = peek_sees }

behind_line_le : (s : List ℕ) → length (behind_line s).src ≤ length s
behind_line_le [] = omega arith
behind_line_le (c ∷ s) = omega arith

after_line_le : (s : List ℕ) → length (after_line s) ≤ length s
after_line_le [] = omega arith
after_line_le (c ∷ s) =
    cases (λ (x : List ℕ). length x ≤ suc (length s)) (c == b'\n') (λ _. omega arith)
      (λ _. omega (arith, after_line_le s))

open_source_le : (src : List ℕ) → length (open_source src).src ≤ length src
unfolding open_source
open_source_le [] = omega arith
open_source_le (c ∷ s) =
    cases (λ (l : Lexer). length l.src ≤ suc (length s)) (c == b'#')
      (λ _. omega (arith, behind_line_le (after_line (c ∷ s)), after_line_le (c ∷ s)))
      (λ _. omega arith)

module _ (F S : Type 0) ⦃tokens : Tokens F S⦄ ⦃laws : TokenLaws F S tokens⦄
    ⦃numerals : Numerals F⦄ where
  -- With more fuel than tokens, reading a chunk from any source of tokens ends with a tree or with an
  -- error of the source, never for want of fuel and never with two tokens put back; behind a tree all the
  -- levels and functions that were entered have been left.
  pub parse_chunk-Ends :
      (fuel : ℕ) (s : S)
      → laws.left s < fuel
      → Ends {F = F} stays (start s) (parse_chunk fuel (start s))
  unfolding parse_chunk
  parse_chunk-Ends fuel s enough =
      (then-Keeps stays (parsers-Keeps fuel).block
          (λ body. then-Keeps stays (expect-Keeps end) (λ _. done body))).ends
        (start s) (omega (arith, enough))

abbrev pub Answers : {A : Type 0} → Result ParseError A → Type 0
Answers (ok a) = Unit
Answers (err e) = Own e

-- Parsing any bytes at all ends, with a tree or with an error of the source.
pub parse-Answers :
    (F : Type 0) ⦃numerals : Numerals F⦄ (src : List ℕ) → Answers (parse {F = F} src)
unfolding parse
parse-Answers F src = go (parse_chunk (suc (length src)) begin) (
    parse_chunk-Ends F (Scanner F) (suc (length src))
      (record { lexer = open_source src; peeked = none }) (omega (arith, open_source_le src)))
  where
    begin : Parser F (Scanner F)
    begin = start (record { lexer = open_source src; peeked = none })

    go :
        (x : Result ParseError (Block F × Parser F (Scanner F)))
        → Ends stays begin x
        → Answers (result_of x)
    go (ok (b, p)) h = tt
    go (err e) own = own
