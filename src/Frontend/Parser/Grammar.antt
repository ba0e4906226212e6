-- ===== src/Frontend/Parser/Grammar.antt =====
-- The grammar of expressions from operators, names, constants and parentheses, by the precedence of the
-- Lua 5.3 manual (3.4.8), as a relation that does not mention the parser; and lists as sources of tokens.
use luajit.Common.{ℕ, suc, ◌≡◌, Bool, true, not, ◌&&◌, List, [], ◌∷◌}
use luajit.Common.Result.{ok}
use luajit.Frontend.Lexer.Token.{
  Token, TokenKind, no_value, Numerals, end, identifier, number, integer, string, kw_and, kw_false,
  kw_nil, kw_not, kw_or, kw_true, plus, minus, star, slash, percent, caret, hash, amp, tilde, pipe,
  lt_lt, gt_gt, slash_slash, eq_eq, tilde_eq, lt_eq, gt_eq, lt, gt, l_paren, r_paren, l_brace,
  l_bracket, colon, dot, dot_dot, dot_dot_dot,
}
use luajit.Frontend.Ast
use luajit.Frontend.Ast.{Expr, BinOp, UnOp}
use luajit.Frontend.Parser.State.{Tokens, is_kind}
use luajit.Frontend.Parser.Expr.{token_integer, token_number}

-- From the operators that bind least to those that bind most, and what stands between them.
pub data Level : Type 0 where
  or_level and_level compare_level bor_level bxor_level band_level shift_level concat_level
        add_level mul_level unary_level power_level simple_level :
      Level

abbrev pub tighter : Level → Level
tighter or_level = and_level
tighter and_level = compare_level
tighter compare_level = bor_level
tighter bor_level = bxor_level
tighter bxor_level = band_level
tighter band_level = shift_level
tighter shift_level = concat_level
tighter concat_level = add_level
tighter add_level = mul_level
tighter mul_level = unary_level
tighter unary_level = power_level
tighter power_level = simple_level
tighter simple_level = simple_level

abbrev pub level_of : BinOp → Level
level_of Ast.or_op = or_level
level_of Ast.and_op = and_level
level_of Ast.lt = compare_level
level_of Ast.gt = compare_level
level_of Ast.le = compare_level
level_of Ast.ge = compare_level
level_of Ast.ne = compare_level
level_of Ast.eq = compare_level
level_of Ast.bor = bor_level
level_of Ast.bxor = bxor_level
level_of Ast.band = band_level
level_of Ast.shl = shift_level
level_of Ast.shr = shift_level
level_of Ast.concat = concat_level
level_of Ast.add = add_level
level_of Ast.sub = add_level
level_of Ast.mul = mul_level
level_of Ast.div = mul_level
level_of Ast.idiv = mul_level
level_of Ast.modulo = mul_level
level_of Ast.pow = power_level

abbrev pub token_of : BinOp → TokenKind
token_of Ast.or_op = kw_or
token_of Ast.and_op = kw_and
token_of Ast.lt = lt
token_of Ast.gt = gt
token_of Ast.le = lt_eq
token_of Ast.ge = gt_eq
token_of Ast.ne = tilde_eq
token_of Ast.eq = eq_eq
token_of Ast.bor = pipe
token_of Ast.bxor = tilde
token_of Ast.band = amp
token_of Ast.shl = lt_lt
token_of Ast.shr = gt_gt
token_of Ast.concat = dot_dot
token_of Ast.add = plus
token_of Ast.sub = minus
token_of Ast.mul = star
token_of Ast.div = slash
token_of Ast.idiv = slash_slash
token_of Ast.modulo = percent
token_of Ast.pow = caret

abbrev pub sign_of : UnOp → TokenKind
sign_of Ast.not_op = kw_not
sign_of Ast.len = hash
sign_of Ast.neg = minus
sign_of Ast.bnot = tilde

-- The levels of operators that associate to the left; `..` and `^` associate to the right.
abbrev pub IsLeft : Level → Type 0
IsLeft concat_level = ⊥
IsLeft unary_level = ⊥
IsLeft power_level = ⊥
IsLeft simple_level = ⊥
IsLeft _ = Unit

abbrev pub Input : Type 0 → Type 0
Input F = List (Token F)

module _ {F : Type 0} where
  -- A token of that kind.
  abbrev pub as_kind : TokenKind → Token F → Token F
  as_kind k t = record t { kind = k }

  -- A constant or a name, as one token.
  pub data Atom ⦃numerals : Numerals F⦄ : TokenKind → Token F → Expr F → Type 0 where
    a_nil : (t : Token F) → Atom kw_nil t Ast.nil
    a_true : (t : Token F) → Atom kw_true t (Ast.boolean true)
    a_false : (t : Token F) → Atom kw_false t (Ast.boolean Bool.false)
    an_integer : (t : Token F) → Atom integer t (Ast.integer (token_integer t))
    a_number : (t : Token F) → Atom number t (Ast.float (token_number t))
    a_string : (t : Token F) → Atom string t (Ast.string t.text)
    a_vararg : (t : Token F) → Atom dot_dot_dot t Ast.vararg
    a_name : (t : Token F) → Atom identifier t (Ast.name t.text)

  -- Reads d level e ts us: at the front of the tokens ts stands the expression e, of that level or one
  -- that binds tighter, with us behind it. Operands to the right of `..` and `^`, those of unary operators and
  -- what stands in parentheses are d deep at most.
  pub data Reads ⦃numerals : Numerals F⦄ : ℕ → Level → Expr F → Input F → Input F → Type 0 where
    atom :
        {d : ℕ} {k : TokenKind} {t : Token F} {e : Expr F} {us : List (Token F)}
        → Atom k t e
        → Reads d simple_level e (as_kind k t ∷ us) us
    parens :
        {d : ℕ} {e : Expr F} {ts us : List (Token F)} (l r : Token F)
        → Reads d or_level e ts (as_kind r_paren r ∷ us)
        → Reads (suc d) simple_level (Ast.paren e) (as_kind l_paren l ∷ ts) us
    power :
        {d : ℕ} {a b : Expr F} {ts us vs : List (Token F)} (t : Token F)
        → Reads (suc d) simple_level a ts (as_kind caret t ∷ us)
        → Reads d unary_level b us vs
        → Reads (suc d) power_level (Ast.bin Ast.pow a b) ts vs
    unary :
        {d : ℕ} {e : Expr F} {ts us : List (Token F)} (op : UnOp) (t : Token F)
        → Reads d unary_level e ts us
        → Reads (suc d) unary_level (Ast.un op e) (as_kind (sign_of op) t ∷ ts) us
    chained :
        {d : ℕ} {a b : Expr F} {ts us vs : List (Token F)} (t : Token F)
        → Reads (suc d) add_level a ts (as_kind dot_dot t ∷ us)
        → Reads d concat_level b us vs
        → Reads (suc d) concat_level (Ast.bin Ast.concat a b) ts vs
    binary :
        {d : ℕ} {a b : Expr F} {ts us vs : List (Token F)} (op : BinOp) (t : Token F)
        → IsLeft (level_of op)
        → Reads d (level_of op) a ts (as_kind (token_of op) t ∷ us)
        → Reads d (tighter (level_of op)) b us vs
        → Reads d (level_of op) (Ast.bin op a b) ts vs
    lift :
        {d : ℕ} {e : Expr F} {ts us : List (Token F)} (level : Level)
        → Reads d (tighter level) e ts us
        → Reads d level e ts us

  abbrev pub end_token : Token F
  end_token = record { kind = end; text = []; value = no_value; line = 0; col = 0 }

  -- Behind its last token a list has the end.
  abbrev pub first : List (Token F) → Token F
  first [] = end_token
  first (t ∷ ts) = t

  abbrev pub rest : List (Token F) → List (Token F)
  rest [] = []
  rest (t ∷ ts) = ts

  instance abbrev pub listed : Tokens F (List (Token F))
  listed = record {
    next_token = λ ts. ok (first ts, rest ts);
    peek_token = λ ts. ok (first ts, ts);
  }

abbrev pub free : TokenKind → List TokenKind → Bool
free k [] = true
free k (j ∷ js) = not (is_kind k j) && free k js

-- The tokens that go on with an expression of a level: operators that bind as tight or tighter, and what
-- begins an index, a field or a call.
abbrev pub beyond_simple : List TokenKind
beyond_simple = dot ∷ l_bracket ∷ colon ∷ l_paren ∷ string ∷ l_brace ∷ []

abbrev pub beyond_power : List TokenKind
beyond_power = caret ∷ beyond_simple

abbrev pub beyond_unary : List TokenKind
beyond_unary = beyond_power

abbrev pub beyond_mul : List TokenKind
beyond_mul = star ∷ slash ∷ slash_slash ∷ percent ∷ beyond_unary

abbrev pub beyond_add : List TokenKind
beyond_add = plus ∷ minus ∷ beyond_mul

abbrev pub beyond_concat : List TokenKind
beyond_concat = dot_dot ∷ beyond_add

abbrev pub beyond_shift : List TokenKind
beyond_shift = lt_lt ∷ gt_gt ∷ beyond_concat

abbrev pub beyond_band : List TokenKind
beyond_band = amp ∷ beyond_shift

abbrev pub beyond_bxor : List TokenKind
beyond_bxor = tilde ∷ beyond_band

abbrev pub beyond_bor : List TokenKind
beyond_bor = pipe ∷ beyond_bxor

abbrev pub beyond_compare : List TokenKind
beyond_compare = eq_eq ∷ tilde_eq ∷ lt ∷ lt_eq ∷ gt ∷ gt_eq ∷ beyond_bor

abbrev pub beyond_and : List TokenKind
beyond_and = kw_and ∷ beyond_compare

abbrev pub beyond_or : List TokenKind
beyond_or = kw_or ∷ beyond_and

abbrev pub beyond : Level → List TokenKind
beyond simple_level = beyond_simple
beyond power_level = beyond_power
beyond unary_level = beyond_unary
beyond mul_level = beyond_mul
beyond add_level = beyond_add
beyond concat_level = beyond_concat
beyond shift_level = beyond_shift
beyond band_level = beyond_band
beyond bxor_level = beyond_bxor
beyond bor_level = beyond_bor
beyond compare_level = beyond_compare
beyond and_level = beyond_and
beyond or_level = beyond_or

abbrev pub Stops : {F : Type 0} → Level → List (Token F) → Type 0
Stops level ts = free (first ts).kind (beyond level) ≡ true
