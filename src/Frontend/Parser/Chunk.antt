-- ===== src/Frontend/Parser/Chunk.antt =====
-- Chunks: `parse_chunk` and `parse` of src/frontend/parser.cpp. The functions of the parser call each
-- other on fuel: each layer of them stands on the one below.
use luajit.Common.{ℕ, zero, suc, List, [], length, none}
use luajit.Common.Result.{Result, ok, err}
use luajit.Frontend.Lexer.Token.{Numerals, end}
use luajit.Frontend.Lexer.Scan.{Scanner, open_source}
use luajit.Frontend.Ast.{Block}
use luajit.Frontend.Parser.State.{
  scanned, ◌>>◌, Tokens, Parser, ParseError, out_of_fuel, Parsing, pure, panic, ◌>>=◌, expect,
}
use luajit.Frontend.Parser.Expr.{Self, parse_expr, parse_concat, parse_unary}
use luajit.Frontend.Parser.Stmt.{parse_block}

module _ {F S : Type 0} where
  -- The parser before it reads.
  abbrev pub start : S → Parser F S
  start lex = record { lex = lex; ungot = none; c_calls = 0; nactvar = 0; nactvar_stack = [] }

  module _ ⦃tokens : Tokens F S⦄ ⦃numerals : Numerals F⦄ where
    unfoldable pub layer : ℕ → Self F S → Self F S
    unfolding parse_expr parse_concat parse_unary parse_block
    layer m self = record {
      expr = parse_expr m self;
      concat = parse_concat m self;
      unary = parse_unary m self;
      block = parse_block m self;
    }

    unfoldable pub parsers : ℕ → Self F S
    unfolding layer
    parsers zero = record {
      expr = panic out_of_fuel;
      concat = panic out_of_fuel;
      unary = panic out_of_fuel;
      block = panic out_of_fuel;
    }
    parsers (suc fuel) = layer (suc fuel) (parsers fuel)

    unfoldable pub parse_chunk : ℕ → Parsing F S (Block F)
    unfolding parsers expect
    parse_chunk fuel = do body ← (parsers fuel).block; expect end; pure body

-- The tree, of a chunk that is read to its end.
abbrev pub result_of :
    {F S : Type 0} → Result ParseError (Block F × Parser F S) → Result ParseError (Block F)
result_of (ok (b, p)) = ok b
result_of (err e) = err e

module _ {F : Type 0} ⦃numerals : Numerals F⦄ where
  unfoldable pub parse : List ℕ → Result ParseError (Block F)
  unfolding parse_chunk open_source
  parse src =
      result_of {S = Scanner F}
        (parse_chunk (suc (length src)) (start (record { lexer = open_source src; peeked = none })))
