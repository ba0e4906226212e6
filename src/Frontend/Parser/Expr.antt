-- ===== src/Frontend/Parser/Expr.antt =====
-- Expressions: `parse_expr` down to `parse_table` and `parse_function_body` of src/frontend/parser.cpp.
-- A function here is one layer of the recursion: where the source calls back to expressions, nested
-- operators or blocks, it takes them from `Self`, and m is the fuel of its loops.
use luajit.Common.{ℕ, Bool, true, false, List, [], ◌∷◌, ◌++◌, if◌then◌else◌, none, some}
use luajit.Common.Int.{ℤ, pos}
use luajit.Frontend.Lexer.Token.{
  Token, TokenKind, integer_value, number_value, Numerals, end, identifier, number, integer, string,
  kw_and, kw_end, kw_false, kw_function, kw_nil, kw_not, kw_or, kw_true, plus, minus, star, slash,
  percent, caret, hash, amp, tilde, pipe, lt_lt, gt_gt, slash_slash, eq_eq, tilde_eq, lt_eq, gt_eq,
  lt, gt, eq, l_paren, r_paren, l_brace, r_brace, l_bracket, r_bracket, semi, colon, comma, dot,
  dot_dot, dot_dot_dot,
}
use luajit.Frontend.Lexer.State.{Round, again, stop}
use luajit.Frontend.Ast
use luajit.Frontend.Ast.{
  BinOp, Expr, Exprs, no_exprs, more_exprs, OptExpr, no_expr, one_expr, Fields, no_fields,
  more_fields, Function, body_of, Block, Name,
}
use luajit.Frontend.Parser.State.{
  ◌>>◌, unexpected_symbol, expected_method_arguments, unclosed_table, Tokens, Parsing, pure, ◌>>=◌,
  fail, check, check_any, if_token, if_match, expect, level, if_nested, first_match, loop, unget,
  in_function, new_localvar,
}

-- The operators of each level.
abbrev pub mul_ops : List (TokenKind × BinOp)
mul_ops = (star, Ast.mul) ∷ (slash, Ast.div) ∷ (slash_slash, Ast.idiv) ∷ (percent, Ast.modulo) ∷ []

abbrev pub add_ops : List (TokenKind × BinOp)
add_ops = (plus, Ast.add) ∷ (minus, Ast.sub) ∷ []

abbrev pub shift_ops : List (TokenKind × BinOp)
shift_ops = (lt_lt, Ast.shl) ∷ (gt_gt, Ast.shr) ∷ []

abbrev pub band_ops : List (TokenKind × BinOp)
band_ops = (amp, Ast.band) ∷ []

abbrev pub bxor_ops : List (TokenKind × BinOp)
bxor_ops = (tilde, Ast.bxor) ∷ []

abbrev pub bor_ops : List (TokenKind × BinOp)
bor_ops = (pipe, Ast.bor) ∷ []

abbrev pub compare_ops : List (TokenKind × BinOp)
compare_ops =
    (eq_eq, Ast.eq)
    ∷ (tilde_eq, Ast.ne)
    ∷ (lt, Ast.lt)
    ∷ (lt_eq, Ast.le)
    ∷ (gt, Ast.gt)
    ∷ (gt_eq, Ast.ge)
    ∷ []

abbrev pub and_ops : List (TokenKind × BinOp)
and_ops = (kw_and, Ast.and_op) ∷ []

abbrev pub or_ops : List (TokenKind × BinOp)
or_ops = (kw_or, Ast.or_op) ∷ []

-- The functions that the others come back to.
pub record Self (F S : Type 0) : Type 0 where
  pub expr : Parsing F S (Expr F)
  pub concat : Parsing F S (Expr F)
  pub unary : Parsing F S (Expr F)
  pub block : Parsing F S (Block F)

-- A field of a table: its key, its value and its name.
abbrev pub Field : Type 0 → Type 0
Field F = OptExpr F × (Expr F × Name)

module _ {F : Type 0} where
  abbrev pub exprs : List (Expr F) → Exprs F
  exprs [] = no_exprs
  exprs (e ∷ es) = more_exprs e (exprs es)

  abbrev pub fields : List (Field F) → Fields F
  fields [] = no_fields
  fields ((key, (value, name)) ∷ fs) = more_fields key value name (fields fs)

  abbrev pub token_integer : Token F → ℤ
  token_integer t = elim t.value [ integer_value n ↦ n | _ ↦ pos 0 ]

  abbrev pub token_number : ⦃numerals : Numerals F⦄ → Token F → F
  token_number ⦃numerals⦄ t = elim t.value [ number_value d ↦ d | _ ↦ numerals.of_word 0 ]

  abbrev pub argument : Expr F → Exprs F
  argument e = more_exprs e no_exprs

abbrev pub self_name : Name
self_name = b's' ∷ b'e' ∷ b'l' ∷ b'f' ∷ []

module _ {F S : Type 0} ⦃tokens : Tokens F S⦄ where
  -- `parse_expr_list`, of expressions that are read by `expr`
  unfoldable pub expr_list : Parsing F S (Expr F) → ℕ → Parsing F S (Exprs F)
  unfolding if_token loop
  expr_list expr m = do
    e ← expr
    es ←
        loop (λ es. if_match comma (expr >>= (λ x. pure (again (es ++ (x ∷ []))))) (pure (stop es)))
          m (e ∷ [])
    pure (exprs es)

  -- An operator and what stands behind it, or the end of the loop.
  abbrev pub operator_round :
      List (TokenKind × BinOp)
      → Parsing F S (Expr F)
      → Expr F
      → Parsing F S (Round (Expr F) (Expr F))
  operator_round ops sub e = do
    found ← first_match ops
    elim found [ some op ↦ sub >>= (λ r. pure (again (Ast.bin op e r))) | none ↦ pure (stop e) ]

  -- The operators of one level, which stand between what `sub` reads.
  unfoldable pub left_assoc :
      List (TokenKind × BinOp) → ℕ → Parsing F S (Expr F) → Parsing F S (Expr F)
  unfolding first_match loop
  left_assoc ops m sub = sub >>= loop (operator_round ops sub) m

  -- The rest of the parameters behind those in ps, and `is_vararg`.
  unfoldable pub param_round : List Name → Parsing F S (Round (List Name) (List Name × Bool))
  unfolding if_token expect new_localvar
  param_round ps =
      if_match comma
        (if_match dot_dot_dot (pure (stop (ps, true)))
          (do t ← expect identifier; new_localvar; pure (again (ps ++ (t.text ∷ [])))))
        (pure (stop (ps, false)))

  unfoldable pub params : ℕ → List Name → Parsing F S (List Name × Bool)
  unfolding check if_token expect new_localvar loop param_round
  params m ps = do
    empty ← check r_paren
    if empty
        then pure (ps, false)
        else if_match dot_dot_dot (pure (ps, true))
            (do t ← expect identifier; new_localvar; loop param_round m (ps ++ (t.text ∷ [])))

  module _ (m : ℕ) (self : Self F S) where
    abbrev pub parse_expr_list : Parsing F S (Exprs F)
    parse_expr_list = expr_list self.expr m

    unfoldable pub parse_function_body : Bool → Parsing F S (Function F)
    unfolding in_function new_localvar expect params
    parse_function_body is_method = in_function (do
      implicit ← if is_method then new_localvar >>= (λ _. pure (self_name ∷ [])) else pure []
      expect l_paren
      (ps, is_vararg) ← params m implicit
      expect r_paren
      body ← self.block
      expect kw_end
      pure (body_of ps is_vararg body))

    unfoldable pub table_field : Parsing F S (Field F)
    unfolding if_token expect unget
    table_field =
        if_match l_bracket
          (do
            key ← self.expr
            expect r_bracket
            expect eq
            value ← self.expr
            pure (one_expr key, (value, [])))
          (if_token identifier
            (λ saved.
              if_match eq (self.expr >>= (λ value. pure (no_expr, (value, saved.text))))
                (do unget saved; value ← self.expr; pure (no_expr, (value, []))))
            (self.expr >>= (λ value. pure (no_expr, (value, [])))))

    unfoldable pub field_round :
        List (Field F) → Parsing F S (Round (List (Field F)) (List (Field F)))
    unfolding check_any table_field if_token
    field_round fs = do
      ended ← check_any (r_brace ∷ end ∷ [])
      if ended then pure (stop fs) else (do
        f ← table_field
        let more = fs ++ (f ∷ [])
        if_match comma (pure (again more)) (if_match semi (pure (again more)) (pure (stop more))))

    unfoldable pub parse_table : Parsing F S (Expr F)
    unfolding expect loop field_round if_token fail
    parse_table = do
      expect l_brace
      fs ← loop field_round m []
      if_match r_brace (pure (Ast.table (fields fs))) (fail unclosed_table)

    -- Behind '(', up to ')'.
    unfoldable pub paren_args : Parsing F S (Exprs F)
    unfolding check expr_list expect
    paren_args = do
      empty ← check r_paren
      args ← if empty then pure no_exprs else parse_expr_list
      expect r_paren
      pure args

    unfoldable pub method_args : Parsing F S (Exprs F)
    unfolding if_token paren_args check parse_table fail
    method_args = if_match l_paren paren_args (
        if_token string (λ t. pure (argument (Ast.string t.text)))
          (do
            brace ← check l_brace
            if brace
                then parse_table >>= (λ e. pure (argument e))
                else fail expected_method_arguments))

    unfoldable pub suffix_round : Expr F → Parsing F S (Round (Expr F) (Expr F))
    unfolding if_token expect method_args paren_args check parse_table
    suffix_round e = if_match dot (expect identifier >>= (λ t. pure (again (Ast.field e t.text)))) (
        if_match l_bracket (do key ← self.expr; expect r_bracket; pure (again (Ast.index e key)))
          (if_match colon
            (do
              t ← expect identifier
              args ← method_args
              pure (again (Ast.call e args true t.text)))
            (if_match l_paren (paren_args >>= (λ args. pure (again (Ast.call e args false [])))) (
              if_token string
                (λ t. pure (again (Ast.call e (argument (Ast.string t.text)) false [])))
                (do
                  brace ← check l_brace
                  if brace
                      then parse_table
                        >>= (λ tab. pure (again (Ast.call e (argument tab) false [])))
                      else pure (stop e))))))

    unfoldable pub parse_suffix : Expr F → Parsing F S (Expr F)
    unfolding loop suffix_round
    parse_suffix e = loop suffix_round m e

    module _ ⦃numerals : Numerals F⦄ where
      unfoldable pub parse_primary : Parsing F S (Expr F)
      unfolding if_token check parse_table parse_function_body expect fail
      parse_primary = if_match kw_nil (pure Ast.nil) (
          if_match kw_true (pure (Ast.boolean true)) (
            if_match kw_false (pure (Ast.boolean false)) (
              if_token integer (λ t. pure (Ast.integer (token_integer t)))
                (if_token number (λ t. pure (Ast.float (token_number t)))
                  (if_token string (λ t. pure (Ast.string t.text))
                    (if_match dot_dot_dot (pure Ast.vararg) (
                      if_token identifier (λ t. pure (Ast.name t.text))
                        (if_match l_paren (do e ← self.expr; expect r_paren; pure (Ast.paren e))
                          (do
                            brace ← check l_brace
                            if brace
                                then parse_table
                                else if_match kw_function
                                    (parse_function_body false >>= (λ f. pure (Ast.function f)))
                                    (fail unexpected_symbol))))))))))

      unfoldable pub parse_power : Parsing F S (Expr F)
      unfolding check_any parse_primary parse_suffix if_nested
      parse_power = do
        allow ← check_any (identifier ∷ l_paren ∷ dot_dot_dot ∷ [])
        e ← parse_primary
        suffixed ← if allow then parse_suffix e else pure e
        if_nested caret (self.unary >>= (λ r. pure (Ast.bin Ast.pow suffixed r))) (pure suffixed)

      abbrev operand : Ast.UnOp → Parsing F S (Expr F)
      operand op = self.unary >>= (λ e. pure (Ast.un op e))

      unfoldable pub parse_unary : Parsing F S (Expr F)
      unfolding if_nested parse_power
      parse_unary = if_nested kw_not (operand Ast.not_op) (
          if_nested hash (operand Ast.len)
            (if_nested minus (operand Ast.neg) (if_nested tilde (operand Ast.bnot) parse_power)))

      abbrev pub parse_mul : Parsing F S (Expr F)
      parse_mul = left_assoc mul_ops m parse_unary

      abbrev pub parse_add : Parsing F S (Expr F)
      parse_add = left_assoc add_ops m parse_mul

      unfoldable pub parse_concat : Parsing F S (Expr F)
      unfolding left_assoc parse_unary if_nested
      parse_concat = do
        e ← parse_add
        if_nested dot_dot (self.concat >>= (λ r. pure (Ast.bin Ast.concat e r))) (pure e)

      abbrev pub parse_shift : Parsing F S (Expr F)
      parse_shift = left_assoc shift_ops m parse_concat

      abbrev pub parse_band : Parsing F S (Expr F)
      parse_band = left_assoc band_ops m parse_shift

      abbrev pub parse_bxor : Parsing F S (Expr F)
      parse_bxor = left_assoc bxor_ops m parse_band

      abbrev pub parse_bor : Parsing F S (Expr F)
      parse_bor = left_assoc bor_ops m parse_bxor

      abbrev pub parse_compare : Parsing F S (Expr F)
      parse_compare = left_assoc compare_ops m parse_bor

      abbrev pub parse_and : Parsing F S (Expr F)
      parse_and = left_assoc and_ops m parse_compare

      abbrev pub parse_or : Parsing F S (Expr F)
      parse_or = left_assoc or_ops m parse_and

      unfoldable pub parse_expr : Parsing F S (Expr F)
      unfolding level left_assoc parse_concat
      parse_expr = level parse_or
