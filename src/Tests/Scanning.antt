-- ===== src/Tests/Scanning.antt =====
-- Scanning small sources, with a single double.
use luajit.Common.{inl, ◌++◌, ℕ, ◌≡◌, refl, arith, List, [], ◌∷◌, Option, some, none}
use luajit.Common.Int.{pos, of_word}
use luajit.Common.Result.{Result, ok, err, ◌>>=◌}
use luajit.Frontend.Lexer.Token.{
  Numerals, Token, TokenKind, kw_local, string, number, integer, dot_dot_dot, integer_value,
  no_value, LexError, unfinished_string, unfinished_long_comment, invalid_long_string_delimiter,
}
use luajit.Frontend.Lexer.State.{Lexer}
use luajit.Frontend.Lexer.Strings.{utf8_bytes, lex_string}
use luajit.Frontend.Lexer.Peeking.{next-peek}
use luajit.Frontend.Lexer.Quoted.{Back, quoted, lex_string-quoted}
use luajit.Frontend.Lexer.Escapes.{utf8_bytes-utf8_encode}
use luajit.Library.Utf8.{utf8_encode}
use luajit.Frontend.Lexer.Scan.{Scanner, next, peek, lex_one, open_source}
use luajit.Frontend.Lexer.Measure.{size}
use luajit.Frontend.Lexer.Forward.{Forward, lex_one-Forward}

instance abbrev numerals : Numerals Unit
numerals = record { strtod = λ s. some tt; of_word = λ w. tt }

abbrev at : List ℕ → Lexer
at s = record { src = s; line = 1; col = 1 }

-- A long comment over two lines, and a string with escapes: --[=[ ] \n]=] "a\65\u{48}\x49"
abbrev commented : Lexer
commented = at (
    b'-' ∷ b'-' ∷ b'[' ∷ b'=' ∷ b'[' ∷ b']' ∷ b'\n' ∷ b']' ∷ b'=' ∷ b']' ∷ b'"' ∷ b'a' ∷ b'\\'
    ∷ b'6' ∷ b'5' ∷ b'\\' ∷ b'u' ∷ b'{' ∷ b'4' ∷ b'8' ∷ b'}' ∷ b'\\' ∷ b'x' ∷ b'4' ∷ b'9' ∷ b'"'
    ∷ b';' ∷ [])

lex_one-Forward_example : Forward {F = Unit} (size commented) (lex_one commented)
lex_one-Forward_example = lex_one-Forward Unit commented

utf8_bytes-utf8_encode_example : utf8_bytes 0x20AC ≡ utf8_encode 0x20AC
utf8_bytes-utf8_encode_example = utf8_bytes-utf8_encode 0x20AC (omega arith)

-- a"\n in double quotes, and a semicolon behind them
abbrev awkward : List ℕ
awkward = b'a' ∷ b'"' ∷ b'\n' ∷ []

lex_string-quoted_example :
    Back awkward
      (b';' ∷ [])
      1
      (lex_string b'"' (at (b'"' ∷ (quoted b'"' awkward ++ (b'"' ∷ (b';' ∷ []))))))
lex_string-quoted_example =
    lex_string-quoted b'"' (inl refl) awkward (b';' ∷ []) 1 1
      (omega arith, (omega arith, (omega arith, tt)))

abbrev scanner : Scanner Unit
scanner = record { lexer = commented; peeked = none }

next-peek_example :
    ((peek scanner >>= (λ r. next r.1)) ≡ next scanner)
    × ((peek scanner >>= (λ r. peek r.1)) ≡ peek scanner)
next-peek_example = next-peek Unit scanner

commented_text :
    lex_one {F = Unit} commented
    ≡ ok (
      record {
        kind = string;
        text = b'a' ∷ b'A' ∷ b'H' ∷ b'I' ∷ [];
        value = no_value;
        line = 2;
        col = 4;
      },
      record { src = b';' ∷ []; line = 2; col = 20 },
    )
unfolding lex_one utf8_bytes
commented_text = refl

hex_integer :
    lex_one {F = Unit} (at (b'0' ∷ b'x' ∷ b'1' ∷ b'f' ∷ []))
    ≡ ok (
      record {
        kind = integer;
        text = b'0' ∷ b'x' ∷ b'1' ∷ b'f' ∷ [];
        value = integer_value (pos 31);
        line = 1;
        col = 1;
      },
      record { src = []; line = 1; col = 5 },
    )
unfolding lex_one of_word
hex_integer = refl

abbrev kind_of : Result LexError (Token Unit × Lexer) → Option TokenKind
kind_of (ok (t, l)) = some t.kind
kind_of (err e) = none

keyword_kind :
    kind_of (lex_one (at (b' ' ∷ b'l' ∷ b'o' ∷ b'c' ∷ b'a' ∷ b'l' ∷ b' ' ∷ []))) ≡ some kw_local
unfolding lex_one
keyword_kind = refl

float_kind : kind_of (lex_one (at (b'.' ∷ b'5' ∷ b'e' ∷ b'-' ∷ b'1' ∷ []))) ≡ some number
unfolding lex_one
float_kind = refl

dots_kind : kind_of (lex_one (at (b'.' ∷ b'.' ∷ b'.' ∷ []))) ≡ some dot_dot_dot
unfolding lex_one
dots_kind = refl

string_refused : lex_one {F = Unit} (at (b'"' ∷ b'a' ∷ b'\n' ∷ b'"' ∷ [])) ≡ err unfinished_string
unfolding lex_one
string_refused = refl

comment_refused :
    lex_one {F = Unit} (at (b'-' ∷ b'-' ∷ b'[' ∷ b'[' ∷ b']' ∷ [])) ≡ err unfinished_long_comment
unfolding lex_one
comment_refused = refl

delimiter_refused :
    lex_one {F = Unit} (at (b'[' ∷ b'=' ∷ b'a' ∷ [])) ≡ err invalid_long_string_delimiter
unfolding lex_one
delimiter_refused = refl

shebang_skipped :
    open_source (b'#' ∷ b'!' ∷ b'\n' ∷ b'x' ∷ []) ≡ record { src = b'x' ∷ []; line = 2; col = 1 }
unfolding open_source
shebang_skipped = refl
