-- ===== src/Frontend/Lexer/Token.antt =====
-- Tokens, src/frontend/lexer.hpp. The text for messages (`near`) is left out. A token holds an integer, a
-- double or neither, in place of two fields that hold 0 where they say nothing.
use luajit.Common.{ℕ, List, Option}
use luajit.Common.Int.{ℤ}

pub data TokenKind : Type 0 where
  end identifier number integer string char vararg : TokenKind
  kw_and kw_break kw_do kw_else kw_elseif kw_end kw_false kw_for kw_function kw_goto kw_if kw_in :
      TokenKind
  kw_local kw_nil kw_not kw_or kw_repeat kw_return kw_then kw_true kw_until kw_while : TokenKind
  plus minus star slash percent caret hash amp tilde pipe lt_lt gt_gt slash_slash eq_eq tilde_eq
        lt_eq gt_eq lt :
      TokenKind
  gt eq l_paren r_paren l_brace r_brace l_bracket r_bracket colon_colon semi colon comma dot dot_dot
        dot_dot_dot :
      TokenKind

pub data TokenValue (F : Type 0) : Type 0 where
  no_value : TokenValue F
  integer_value : ℤ → TokenValue F
  number_value : F → TokenValue F

pub record Token (F : Type 0) : Type 0 where
  pub kind : TokenKind
  pub text : List ℕ
  pub value : TokenValue F
  pub line : ℕ
  pub col : ℕ

pub data LexError : Type 0 where
  unfinished_long_comment unfinished_long_string unfinished_string unfinished_string_at_eof
        malformed_number :
      LexError
  hex_digit_expected missing_left_brace missing_right_brace utf8_too_large
        decimal_escape_too_large :
      LexError
  invalid_escape invalid_long_string_delimiter out_of_fuel : LexError

-- `c_strtod` of a text that is a numeral as a whole, and the double next to an unsigned integer.
pub record Numerals (F : Type 0) : Type 0 where
  pub strtod : List ℕ → Option F
  pub of_word : ℕ → F
