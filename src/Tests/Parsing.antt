-- ===== src/Tests/Parsing.antt =====
-- Parsing small sources, with a single double.
use luajit.Common.{ℕ, zero, suc, ◌≡◌, refl, arith, false, List, [], ◌∷◌, ◌++◌, none, some}
use luajit.Common.Result.{Result, ok, err}
use luajit.Frontend.Lexer.Token.{
  Numerals, Token, TokenKind, no_value, end, identifier, minus, dot_dot, l_paren, r_paren,
}
use luajit.Frontend.Lexer.Scan.{Scanner, next, peek}
use luajit.Frontend.Ast.{
  Expr, Block, block, more_stmts, no_stmts, return_stmt, assign, more_exprs, no_exprs, bin, un, neg,
  pow, concat, mul, sub, name, call, vararg, paren,
}
use luajit.Frontend.Parser.State.{scanned, ParseError, expected, Parser, too_many_locals}
use luajit.Frontend.Parser.Measure.{Ends, stays}
use luajit.Frontend.Parser.Chunk.{parse, parse_chunk, start, parsers}
use luajit.Frontend.Parser.Ending.{scanner_laws, Answers, parse-Answers, parse_chunk-Ends}
use luajit.Frontend.Parser.Grammar.{
  listed, Reads, atom, a_name, parens, chained, binary, lift, as_kind, or_level, and_level,
  compare_level, bor_level, bxor_level, band_level, shift_level, concat_level, add_level, mul_level,
  unary_level, power_level, simple_level,
}
use luajit.Frontend.Parser.Listed.{on}
use luajit.Frontend.Parser.Precedence.{parse_expr-Reads}

instance abbrev numerals : Numerals Unit
numerals = record { strtod = λ s. some tt; of_word = λ w. tt }

-- local x = {a = f's', #b}
abbrev declaration : List ℕ
declaration =
    b'l' ∷ b'o' ∷ b'c' ∷ b'a' ∷ b'l' ∷ b' ' ∷ b'x' ∷ b' ' ∷ b'=' ∷ b' ' ∷ b'{' ∷ b'a' ∷ b' ' ∷ b'='
    ∷ b' ' ∷ b'f' ∷ b'\'' ∷ b's' ∷ b'\'' ∷ b',' ∷ b' ' ∷ b'#' ∷ b'b' ∷ b'}' ∷ []

parse-Answers_example : Answers (parse {F = Unit} declaration)
parse-Answers_example = parse-Answers Unit declaration

abbrev scanner : Scanner Unit
scanner = record { lexer = record { src = declaration; line = 1; col = 1 }; peeked = none }

parse_chunk-Ends_example : Ends {F = Unit} stays (start scanner) (parse_chunk 25 (start scanner))
parse_chunk-Ends_example = parse_chunk-Ends Unit (Scanner Unit) 25 scanner (omega arith)

abbrev letter : ℕ → Expr Unit
letter c = name (c ∷ [])

abbrev returned : Expr Unit → Result ParseError (Block Unit)
returned e = ok (block (more_stmts (return_stmt (more_exprs e no_exprs)) no_stmts))

-- return a-b-c*-d^e..f
precedence :
    parse (
      b'r' ∷ b'e' ∷ b't' ∷ b'u' ∷ b'r' ∷ b'n' ∷ b' ' ∷ b'a' ∷ b'-' ∷ b'b' ∷ b'-' ∷ b'c' ∷ b'*'
      ∷ b'-' ∷ b'd' ∷ b'^' ∷ b'e' ∷ b'.' ∷ b'.' ∷ b'f' ∷ [])
    ≡ returned (
        bin concat
          (bin sub
            (bin sub (letter b'a') (letter b'b'))
            (bin mul (letter b'c') (un neg (bin pow (letter b'd') (letter b'e')))))
          (letter b'f'))
unfolding parse next peek
precedence = refl

-- return a;;b
nothing_behind_return :
    parse {F = Unit}
      (b'r' ∷ b'e' ∷ b't' ∷ b'u' ∷ b'r' ∷ b'n' ∷ b' ' ∷ b'a' ∷ b';' ∷ b';' ∷ b'b' ∷ [])
    ≡ err (expected end)
unfolding parse next peek
nothing_behind_return = refl

-- return ...(a), where the manual has no call
called_vararg :
    parse (
      b'r' ∷ b'e' ∷ b't' ∷ b'u' ∷ b'r' ∷ b'n' ∷ b' ' ∷ b'.' ∷ b'.' ∷ b'.' ∷ b'(' ∷ b'a' ∷ b')' ∷ [])
    ≡ returned (call vararg (more_exprs (letter b'a') no_exprs) false [])
unfolding parse next peek
called_vararg = refl

-- (a)=b, where the manual has no assignment
assigned_paren :
    parse (b'(' ∷ b'a' ∷ b')' ∷ b'=' ∷ b'b' ∷ [])
    ≡ ok (
        block (
          more_stmts
            (assign (more_exprs (paren (letter b'a')) no_exprs) (more_exprs (letter b'b') no_exprs))
            no_stmts))
unfolding parse next peek
assigned_paren = refl

abbrev times : ℕ → List ℕ → List ℕ
times zero s = []
times (suc n) s = s ++ times n s

-- "do local a end " 201 times: a local in each block, one at a time.
disjoint_locals :
    parse {F = Unit} (
      times 201 (
        b'd' ∷ b'o' ∷ b' ' ∷ b'l' ∷ b'o' ∷ b'c' ∷ b'a' ∷ b'l' ∷ b' ' ∷ b'a' ∷ b' ' ∷ b'e' ∷ b'n'
        ∷ b'd' ∷ b' ' ∷ []))
    ≡ err too_many_locals
unfolding parse next peek
disjoint_locals = refl

abbrev mark : Token Unit
mark = record { kind = end; text = b'a' ∷ []; value = no_value; line = 1; col = 1 }

abbrev kind_mark : TokenKind → Token Unit
kind_mark k = as_kind k mark

-- Up to the level of an operand of '+', '..' and 'or'.
alone :
    {d : ℕ} {e : Expr Unit} {ts us : List (Token Unit)}
    → Reads d simple_level e ts us
    → Reads d mul_level e ts us
alone r = lift mul_level (lift unary_level (lift power_level r))

whole :
    {d : ℕ} {e : Expr Unit} {ts us : List (Token Unit)}
    → Reads d concat_level e ts us
    → Reads d or_level e ts us
whole r = lift or_level (
    lift and_level (
      lift compare_level (lift bor_level (lift bxor_level (lift band_level (lift shift_level r))))))

variable :
    {d : ℕ} (us : List (Token Unit))
    → Reads d simple_level (letter b'a') (kind_mark identifier ∷ us) us
variable us = atom (a_name mark)

-- a - a - a .. (a) and then the end
abbrev mixed : List (Token Unit)
mixed =
    kind_mark identifier
    ∷ kind_mark minus
    ∷ kind_mark identifier
    ∷ kind_mark minus
    ∷ kind_mark identifier
    ∷ kind_mark dot_dot
    ∷ kind_mark l_paren
    ∷ kind_mark identifier
    ∷ kind_mark r_paren
    ∷ []

abbrev mixed_tree : Expr Unit
mixed_tree =
    bin concat (bin sub (bin sub (letter b'a') (letter b'a')) (letter b'a')) (paren (letter b'a'))

mixed_reads : Reads 2 or_level mixed_tree mixed []
mixed_reads = whole (
    chained mark
      (binary sub mark tt
        (binary sub mark tt (lift add_level (alone (variable _))) (alone (variable _)))
        (alone (variable _)))
      (lift concat_level (
        lift add_level (
          alone
            (parens mark mark (whole (lift concat_level (lift add_level (alone (variable _))))))))))

abbrev reader : Parser Unit (List (Token Unit))
reader = start []

parse_expr-Reads_example : (parsers 10).expr (on reader mixed) ≡ ok (mixed_tree, on reader [])
parse_expr-Reads_example =
    parse_expr-Reads 2 mixed_tree mixed [] reader 10 mixed_reads refl (omega arith) (omega arith)
