-- ===== src/Frontend/Parser/State.antt =====
-- The parser's state and the reading of tokens, src/frontend/parser.cpp. `unget_` and `has_unget_` are an
-- option. `func_line_stack_` and line numbers, which only messages and the tree's lines use, are left
-- out, and so are the texts of messages. `check` and then `next` are `accept`.
use luajit.Common.{
  ℕ, zero, suc, ◌-◌, Bool, true, false, List, [], ◌∷◌, ltb, ◌==◌, if◌then◌else◌, Option, none, some,
}
use luajit.Common.Result.{Result, ok, err}
use luajit.Frontend.Lexer.Token.{
  Token, TokenKind, LexError, Numerals, end, identifier, number, integer, string, char, vararg,
  kw_and, kw_break, kw_do, kw_else, kw_elseif, kw_end, kw_false, kw_for, kw_function, kw_goto,
  kw_if, kw_in, kw_local, kw_nil, kw_not, kw_or, kw_repeat, kw_return, kw_then, kw_true, kw_until,
  kw_while, plus, minus, star, slash, percent, caret, hash, amp, tilde, pipe, lt_lt, gt_gt,
  slash_slash, eq_eq, tilde_eq, lt_eq, gt_eq, lt, gt, eq, l_paren, r_paren, l_brace, r_brace,
  l_bracket, r_bracket, colon_colon, semi, colon, comma, dot, dot_dot, dot_dot_dot,
}
use luajit.Frontend.Lexer.State.{Round, again, stop}
use luajit.Frontend.Lexer.Scan
use luajit.Frontend.Ast.{BinOp}

-- A kind's place in the enumeration.
abbrev pub kind_code : TokenKind → ℕ
kind_code end = 0
kind_code identifier = 1
kind_code number = 2
kind_code integer = 3
kind_code string = 4
kind_code char = 5
kind_code vararg = 6
kind_code kw_and = 7
kind_code kw_break = 8
kind_code kw_do = 9
kind_code kw_else = 10
kind_code kw_elseif = 11
kind_code kw_end = 12
kind_code kw_false = 13
kind_code kw_for = 14
kind_code kw_function = 15
kind_code kw_goto = 16
kind_code kw_if = 17
kind_code kw_in = 18
kind_code kw_local = 19
kind_code kw_nil = 20
kind_code kw_not = 21
kind_code kw_or = 22
kind_code kw_repeat = 23
kind_code kw_return = 24
kind_code kw_then = 25
kind_code kw_true = 26
kind_code kw_until = 27
kind_code kw_while = 28
kind_code plus = 29
kind_code minus = 30
kind_code star = 31
kind_code slash = 32
kind_code percent = 33
kind_code caret = 34
kind_code hash = 35
kind_code amp = 36
kind_code tilde = 37
kind_code pipe = 38
kind_code lt_lt = 39
kind_code gt_gt = 40
kind_code slash_slash = 41
kind_code eq_eq = 42
kind_code tilde_eq = 43
kind_code lt_eq = 44
kind_code gt_eq = 45
kind_code lt = 46
kind_code gt = 47
kind_code eq = 48
kind_code l_paren = 49
kind_code r_paren = 50
kind_code l_brace = 51
kind_code r_brace = 52
kind_code l_bracket = 53
kind_code r_bracket = 54
kind_code colon_colon = 55
kind_code semi = 56
kind_code colon = 57
kind_code comma = 58
kind_code dot = 59
kind_code dot_dot = 60
kind_code dot_dot_dot = 61

abbrev pub is_kind : TokenKind → TokenKind → Bool
is_kind j k = kind_code j == kind_code k

-- Where the parser reads its tokens.
pub record Tokens (F S : Type 0) : Type 0 where
  pub next_token : S → Result LexError (Token F × S)
  pub peek_token : S → Result LexError (Token F × S)

module _ {F : Type 0} ⦃numerals : Numerals F⦄ where
  instance abbrev pub scanned : Tokens F (Scan.Scanner F)
  scanned = record { next_token = Scan.next; peek_token = Scan.peek }

-- An error is one of the scanner, or what the parser says near a token.
pub data ParseError : Type 0 where
  lexical : LexError → ParseError
  expected : TokenKind → ParseError
  unexpected_symbol syntax_error too_many_levels too_many_locals expected_method_arguments
        unclosed_table unget_overflow out_of_fuel :
      ParseError

pub record Parser (F S : Type 0) : Type 0 where
  pub lex : S
  pub ungot : Option (Token F)
  pub c_calls : ℕ
  pub nactvar : ℕ
  pub nactvar_stack : List ℕ

abbrev pub Parsing : Type 0 → Type 0 → Type 0 → Type 0
Parsing F S A = Parser F S → Result ParseError (A × Parser F S)

-- LUAI_MAXCCALLS of src/common/common.hpp
abbrev pub max_c_calls : ℕ
max_c_calls = 200

-- MAXVARS of src/common/common.hpp
abbrev pub max_vars : ℕ
max_vars = 200

-- The counter of locals of the function around, and those of the functions around that.
abbrev pub popped : List ℕ → ℕ × List ℕ
popped [] = (0, [])
popped (n ∷ ns) = (n, ns)

module _ {F S : Type 0} where
  abbrev pub pure : {A : Type 0} → A → Parsing F S A
  pure a p = ok (a, p)

  abbrev pub panic : {A : Type 0} → ParseError → Parsing F S A
  panic e p = err e

  abbrev pub continue :
      {A B : Type 0}
      → Result ParseError (A × Parser F S)
      → (A → Parsing F S B)
      → Result ParseError (B × Parser F S)
  continue (ok (a, p)) f = f a p
  continue (err e) f = err e

  infixl 5 ◌>>=◌
  infixr 4 ◌>>◌
  abbrev pub ◌>>=◌ : {A B : Type 0} → Parsing F S A → (A → Parsing F S B) → Parsing F S B
  m >>= f = λ p. continue (m p) f

  abbrev pub ◌>>◌ : {A B : Type 0} → Parsing F S A → Parsing F S B → Parsing F S B
  m >> q = m >>= (λ _. q)

  -- What the scanner gave.
  abbrev pub lexed :
      Parser F S → Result LexError (Token F × S) → Result ParseError (Token F × Parser F S)
  lexed p (ok (t, s)) = ok (t, record p { lex = s })
  lexed p (err e) = err (lexical e)

  -- A loop whose rounds read tokens.
  unfoldable pub loop : {A B : Type 0} → (A → Parsing F S (Round A B)) → ℕ → A → Parsing F S B
  loop round zero a = panic out_of_fuel
  loop round (suc fuel) a =
      round a >>= (λ r. elim r [ again next ↦ loop round fuel next | stop b ↦ pure b ])

  unfoldable pub unget : Token F → Parsing F S Unit
  unget t p = elim p.ungot [
    | none ↦ ok (tt, record p { ungot = some t })
    | some u ↦ err unget_overflow
  ]

  unfoldable pub enterfunc : Parsing F S Unit
  enterfunc p = ok (tt, record p { nactvar_stack = p.nactvar ∷ p.nactvar_stack; nactvar = 0 })

  unfoldable pub leavefunc : Parsing F S Unit
  leavefunc p = ok (
    tt,
    record p { nactvar = (popped p.nactvar_stack).0; nactvar_stack = (popped p.nactvar_stack).1 },
  )

  -- `enterfunc(defline); ... leavefunc();`
  unfoldable pub in_function : {A : Type 0} → Parsing F S A → Parsing F S A
  unfolding enterfunc leavefunc
  in_function m = enterfunc >>= (λ _. m >>= (λ a. leavefunc >>= (λ _. pure a)))

  unfoldable pub leavelevel : Parsing F S Unit
  leavelevel p = ok (tt, record p { c_calls = p.c_calls - 1 })

module _ {F S : Type 0} ⦃tokens : Tokens F S⦄ where
  unfoldable pub peek : Parsing F S (Token F)
  peek p = elim p.ungot [ some t ↦ ok (t, p) | none ↦ lexed p (tokens.peek_token p.lex) ]

  unfoldable pub next : Parsing F S (Token F)
  next p = elim p.ungot [
    | some t ↦ ok (t, record p { ungot = none })
    | none ↦ lexed p (tokens.next_token p.lex)
  ]

  -- `error`: the message holds the token it stands near, which is looked at first.
  unfoldable pub fail : {A : Type 0} → ParseError → Parsing F S A
  unfolding peek
  fail e = peek >>= (λ t. panic e)

  unfoldable pub check : TokenKind → Parsing F S Bool
  unfolding peek
  check k = peek >>= (λ t. pure (is_kind t.kind k))

  -- `check(k1) || check(k2) || ...`
  unfoldable pub check_any : List TokenKind → Parsing F S Bool
  unfolding check
  check_any [] = pure false
  check_any (k ∷ ks) = check k >>= (λ b. if b then pure true else check_any ks)

  -- `if (check(k)) t = next();`
  unfoldable pub accept : TokenKind → Parsing F S (Option (Token F))
  unfolding check next
  accept k = check k >>= (λ b. if b then next >>= (λ t. pure (some t)) else pure none)

  -- `if (check(k)) { t = next(); ... } else ...`
  unfoldable pub if_token :
      {A : Type 0} → TokenKind → (Token F → Parsing F S A) → Parsing F S A → Parsing F S A
  unfolding accept
  if_token k f other = accept k >>= (λ o. elim o [ some t ↦ f t | none ↦ other ])

  -- `if (match(k)) ... else ...`
  abbrev pub if_match : {A : Type 0} → TokenKind → Parsing F S A → Parsing F S A → Parsing F S A
  if_match k then_ other = if_token k (λ _. then_) other

  abbrev pub match_kind : TokenKind → Parsing F S Bool
  match_kind k = if_match k (pure true) (pure false)

  unfoldable pub expect : TokenKind → Parsing F S (Token F)
  unfolding if_token fail
  expect k = if_token k pure (fail (expected k))

  unfoldable pub enterlevel : Parsing F S Unit
  unfolding fail
  enterlevel p =
      let deeper = record p { c_calls = suc p.c_calls } in
      if ltb max_c_calls deeper.c_calls then fail too_many_levels deeper else ok (tt, deeper)

  -- `LevelGuard` around what is read.
  unfoldable pub level : {A : Type 0} → Parsing F S A → Parsing F S A
  unfolding enterlevel leavelevel
  level m = enterlevel >>= (λ _. m >>= (λ a. leavelevel >>= (λ _. pure a)))

  -- `if (check(k)) { LevelGuard lg(*this); next(); ... } else ...`
  unfoldable pub if_nested :
      {A : Type 0} → TokenKind → Parsing F S A → Parsing F S A → Parsing F S A
  unfolding check level next
  if_nested k then_ other = check k >>= (λ b. if b then level (next >>= (λ _. then_)) else other)

  unfoldable pub new_localvar : Parsing F S Unit
  unfolding fail
  new_localvar p =
      let more = record p { nactvar = suc p.nactvar } in
      if ltb max_vars more.nactvar then fail too_many_locals more else ok (tt, more)

  -- `if (match(k1)) op = o1; else if (match(k2)) op = o2; ...`
  unfoldable pub first_match : List (TokenKind × BinOp) → Parsing F S (Option BinOp)
  unfolding if_token
  first_match [] = pure none
  first_match ((k, op) ∷ ops) = if_match k (pure (some op)) (first_match ops)
