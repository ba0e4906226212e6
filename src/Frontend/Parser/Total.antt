-- ===== src/Frontend/Parser/Total.antt =====
-- The functions of the parser for expressions end: with fewer tokens left than their layer's number, each
-- gives a value or an error of the source.
use luajit.Common.{ℕ, Bool, true, false, List, [], ◌∷◌, ◌++◌, Option, none, some}
use luajit.Frontend.Lexer.Token.{
  Token, TokenKind, Numerals, end, identifier, number, integer, string, kw_end, kw_false,
  kw_function, kw_nil, kw_not, kw_true, minus, caret, hash, tilde, eq, l_paren, r_paren, l_brace,
  r_brace, l_bracket, r_bracket, semi, colon, comma, dot, dot_dot, dot_dot_dot,
}
use luajit.Frontend.Lexer.State.{again}
use luajit.Frontend.Ast
use luajit.Frontend.Ast.{BinOp, Expr, no_exprs, OptExpr, no_expr, one_expr, body_of, Name}
use luajit.Frontend.Parser.State.{
  ◌>>◌, unexpected_symbol, expected_method_arguments, unclosed_table, unget_overflow, Tokens,
  Parser, Parsing, pure, continue, ◌>>=◌, if_token, if_match, if_nested, unget,
}
use luajit.Common.Result.{ok, err}
use luajit.Common.{◌+◌, ◌∙◌, ◌<◌, suc, ◌≤◌, ◌≡◌, refl, arith}
use luajit.Frontend.Parser.Expr.{
  or_ops, and_ops, compare_ops, bor_ops, bxor_ops, band_ops, shift_ops, add_ops, mul_ops, Self,
  Field, fields, left_assoc, parse_function_body, table_field, field_round, parse_table, paren_args,
  method_args, suffix_round, parse_suffix, parse_primary, parse_power, parse_unary, parse_concat,
  parse_expr, argument, self_name, token_integer, token_number,
}
use luajit.Frontend.Parser.Measure.{
  weight, TokenLaws, stays, takes, round_takes, size, Ends, Frame, Keeps, Ends-after, weaken,
  narrow, then-Keeps, taken-Keeps,
}
use luajit.Frontend.Parser.Steps.{
  kind_weight, stays_le, takes_le, round_le, fail-Keeps, check-Keeps, if-Keeps, check_any-Keeps,
  if_token_ends, token-Keeps, token_first-Keeps, token_taken-Keeps, expect-Keeps,
  expect_taken-Keeps,
}
use luajit.Frontend.Parser.Levels.{
  level-Keeps, nested-Keeps, function-Keeps, new_localvar-Keeps, loop-Keeps, Heavy,
}
use luajit.Frontend.Parser.Parts.{
  done, last, expr_list-Keeps, left_assoc-Keeps, params-Keeps, SelfKeeps,
}

module _ {F S : Type 0} ⦃tokens : Tokens F S⦄ ⦃laws : TokenLaws F S tokens⦄ where
  -- The layer suc n of the parser: behind a token that was taken there is fuel for the layer below.
  module _ (n : ℕ) (self : Self F S) (keeps : SelfKeeps n self) where
    near : n ≤ suc n
    near = omega arith

    pub function_body-Keeps :
        (is_method : Bool) → Keeps stays n (parse_function_body (suc n) self is_method)
    unfolding parse_function_body
    function_body-Keeps is_method = function-Keeps stays (
        then-Keeps stays
          (if-Keeps stays is_method
            (then-Keeps stays new_localvar-Keeps (λ _. done (self_name ∷ []))) (done []))
          (λ implicit. then-Keeps stays (expect-Keeps l_paren) (λ _.
            then-Keeps stays (params-Keeps near implicit) (λ (ps, is_vararg).
              then-Keeps stays (expect-Keeps r_paren) (λ _. then-Keeps stays keeps.block (λ body.
                then-Keeps stays (expect-Keeps kw_end) (λ _. done (body_of ps is_vararg body))))))))

    value-Keeps :
        (key : OptExpr F) (name : Name)
        → Keeps {A = Field F} stays n (self.expr >>= (λ value. pure (key, (value, name))))
    value-Keeps key name = then-Keeps stays keeps.expr (λ value. done (key, (value, name)))

    unget_value :
        (saved : Token F) (o : Option (Token F)) (p q : Parser F S)
        → o ≡ none
        → laws.left q.lex + weight saved.kind ≤ size p
        → Frame p q
        → size p < n
        → Ends {A = Field F} stays p (
            continue
              (elim o [
                | none ↦ ok (tt, record q { ungot = some saved })
                | some u ↦ err unget_overflow
              ])
              (λ _. self.expr >>= (λ value. pure (no_expr, (value, [])))))
    unget_value saved none p q free le frame l =
        let again = record q { ungot = some saved } in
        Ends-after stays stays 0 p again _ (omega (arith, le)) frame (λ a. omega arith)
          ((value-Keeps no_expr []).ends again (omega (arith, le, l)))
    unget_value saved (some u) p q free le frame l = absurd (differ free)
      where
        differ : some u ≡ none → ⊥
        differ h = cc

    -- A name that no '=' stands behind goes back to be read as an expression: there is room for it.
    named_field-Keeps :
        (other : Parsing F S (Field F))
        → Keeps stays n other
        → Keeps stays n (
            if_token identifier
              (λ saved.
                if_match eq
                  (self.expr >>= (λ value. pure (no_expr, (value, saved.text))))
                  (do unget saved; value ← self.expr; pure (no_expr, (value, []))))
              other)
    unfolding unget
    named_field-Keeps other h = record {
      ends = λ p l.
          if_token_ends (Ends stays p) identifier _ other p (λ e own. own)
            (λ saved r same le (c, s) empty.
              let heavy : weight saved.kind ≡ 1 = kind_weight saved.kind identifier same refl in
              if_token_ends (Ends stays p) eq _ _ r (λ e own. own)
                (λ t q _ less (d, u) _.
                  Ends-after stays stays 0 p q _ (omega (arith, le, less)) (d ∙ c, u ∙ s)
                    (λ a. omega arith)
                    ((value-Keeps no_expr saved.text).ends q (omega (arith, le, less, l))))
                (λ q less (d, u) free.
                  unget_value saved q.ungot p q (free ∙ empty) (omega (arith, le, less, heavy))
                    (d ∙ c, u ∙ s) l))
            (λ q le frame free.
              Ends-after stays stays 0 p q (other q) (omega (arith, le)) frame (λ a. omega arith)
                (h.ends q (omega (arith, le, l))));
    }

    table_field-Keeps : Keeps stays n (table_field (suc n) self)
    unfolding table_field
    table_field-Keeps =
        token-Keeps l_bracket stays
          (λ _. then-Keeps stays keeps.expr (λ key.
            then-Keeps stays (expect-Keeps r_bracket)
              (λ _. then-Keeps stays (expect-Keeps eq) (λ _. value-Keeps (one_expr key) []))))
          (named_field-Keeps _ (value-Keeps no_expr []))

    field_round-Keeps : (fs : List (Field F)) → Keeps round_takes n (field_round (suc n) self fs)
    unfolding field_round
    field_round-Keeps fs = then-Keeps round_takes (check_any-Keeps (r_brace ∷ end ∷ [])) (λ ended.
        if-Keeps round_takes ended (last fs) (
          then-Keeps round_takes table_field-Keeps (λ f.
            let more = fs ++ (f ∷ []) in
            token_taken-Keeps comma round_takes round_le refl (λ t. done (again more))
              (token_taken-Keeps semi round_takes round_le refl (λ t. done (again more))
                (last more)))))

    table-Keeps : Keeps takes (suc n) (parse_table (suc n) self)
    unfolding parse_table
    table-Keeps = taken-Keeps takes takes_le (expect_taken-Keeps l_brace refl) (λ _.
        then-Keeps stays (loop-Keeps [] near field_round-Keeps) (λ fs.
          token-Keeps r_brace stays (λ t. done (Ast.table (fields fs)))
            (fail-Keeps stays unclosed_table tt)))

    paren_args-Keeps : Keeps stays n (paren_args (suc n) self)
    unfolding paren_args
    paren_args-Keeps = then-Keeps stays (check-Keeps r_paren) (λ empty.
        then-Keeps stays
          (if-Keeps stays empty (done no_exprs) (expr_list-Keeps self.expr near keeps.expr))
          (λ args. then-Keeps stays (expect-Keeps r_paren) (λ _. done args)))

    method_args-Keeps : Keeps stays n (method_args (suc n) self)
    unfolding method_args
    method_args-Keeps =
        token-Keeps l_paren stays (λ _. paren_args-Keeps)
          (token-Keeps string stays (λ t. done (argument (Ast.string t.text)))
            (then-Keeps stays (check-Keeps l_brace) (λ brace.
              if-Keeps stays brace
                (then-Keeps stays (weaken stays takes (λ a. omega arith) (narrow table-Keeps))
                  (λ e. done (argument e)))
                (fail-Keeps stays expected_method_arguments tt))))

    suffix_round-Keeps : (e : Expr F) → Keeps round_takes (suc n) (suffix_round (suc n) self e)
    unfolding suffix_round
    suffix_round-Keeps e =
        token_first-Keeps dot round_takes round_le refl
          (λ _. then-Keeps stays (expect-Keeps identifier) (λ t. done (again (Ast.field e t.text))))
          (token_first-Keeps l_bracket round_takes round_le refl
            (λ _. then-Keeps stays keeps.expr (λ key.
              then-Keeps stays (expect-Keeps r_bracket) (λ _. done (again (Ast.index e key)))))
            (token_first-Keeps colon round_takes round_le refl
              (λ _. then-Keeps stays (expect-Keeps identifier) (λ t.
                then-Keeps stays method_args-Keeps
                  (λ args. done (again (Ast.call e args true t.text)))))
              (token_first-Keeps l_paren round_takes round_le refl
                (λ _.
                  then-Keeps stays paren_args-Keeps
                    (λ args. done (again (Ast.call e args false []))))
                (token_first-Keeps string round_takes round_le refl
                  (λ t. done (again (Ast.call e (argument (Ast.string t.text)) false [])))
                  (then-Keeps round_takes (check-Keeps l_brace) (λ brace.
                    if-Keeps round_takes brace
                      (taken-Keeps round_takes round_le table-Keeps
                        (λ tab. done (again (Ast.call e (argument tab) false []))))
                      (last e)))))))

    pub suffix-Keeps : (e : Expr F) → Keeps stays (suc n) (parse_suffix (suc n) self e)
    unfolding parse_suffix
    suffix-Keeps e = loop-Keeps {fuel = suc n} e (omega arith) suffix_round-Keeps

    module _ ⦃numerals : Numerals F⦄ where
      pub primary-Keeps : Keeps takes (suc n) (parse_primary (suc n) self)
      unfolding parse_primary
      primary-Keeps =
          first kw_nil refl (λ _. done Ast.nil)
            (first kw_true refl (λ _. done (Ast.boolean true))
              (first kw_false refl (λ _. done (Ast.boolean false))
                (first integer refl (λ t. done (Ast.integer (token_integer t)))
                  (first number refl (λ t. done (Ast.float (token_number t)))
                    (first string refl (λ t. done (Ast.string t.text))
                      (first dot_dot_dot refl (λ _. done Ast.vararg)
                        (first identifier refl (λ t. done (Ast.name t.text))
                          (first l_paren refl
                            (λ _. then-Keeps stays keeps.expr (λ e.
                              then-Keeps stays (expect-Keeps r_paren) (λ _. done (Ast.paren e))))
                            (then-Keeps takes (check-Keeps l_brace) (λ brace.
                              if-Keeps takes brace table-Keeps (
                                first kw_function refl
                                  (λ _.
                                    then-Keeps stays (function_body-Keeps false)
                                      (λ f. done (Ast.function f)))
                                  (fail-Keeps takes unexpected_symbol tt))))))))))))
        where
          first :
              {f : Token F → Parsing F S (Expr F)} {other : Parsing F S (Expr F)} (k : TokenKind)
              → weight k ≡ 1
              → ((t : Token F) → Keeps stays n (f t))
              → Keeps takes (suc n) other
              → Keeps takes (suc n) (if_token k f other)
          first k heavy here there = token_first-Keeps k takes takes_le heavy here there

      whole-Keeps : Keeps stays (suc n) (parse_primary (suc n) self)
      whole-Keeps = weaken stays takes (λ e. omega arith) primary-Keeps

      power-Keeps : Keeps stays (suc n) (parse_power (suc n) self)
      unfolding parse_power
      power-Keeps =
          then-Keeps stays (check_any-Keeps (identifier ∷ l_paren ∷ dot_dot_dot ∷ [])) (λ allow.
            then-Keeps stays whole-Keeps (λ e.
              then-Keeps stays (if-Keeps stays allow (suffix-Keeps e) (done e)) (λ suffixed.
                nested-Keeps caret stays stays_le refl
                  (then-Keeps stays keeps.unary (λ r. done (Ast.bin Ast.pow suffixed r)))
                  (done suffixed))))

      pub unary-Keeps : Keeps stays (suc n) (parse_unary (suc n) self)
      unfolding parse_unary
      unary-Keeps = operator kw_not refl Ast.not_op (
          operator hash refl Ast.len
            (operator minus refl Ast.neg (operator tilde refl Ast.bnot power-Keeps)))
        where
          operator :
              {other : Parsing F S (Expr F)} (k : TokenKind)
              → weight k ≡ 1
              → (op : Ast.UnOp) → Keeps stays (suc n) other
              → Keeps stays (suc n) (if_nested k (self.unary >>= (λ e. pure (Ast.un op e))) other)
          operator k heavy op h =
              nested-Keeps k stays stays_le heavy
                (then-Keeps stays keeps.unary (λ e. done (Ast.un op e))) h

      operators-Keeps :
          (ops : List (TokenKind × BinOp)) (sub : Parsing F S (Expr F))
          → Heavy ops
          → Keeps stays (suc n) sub
          → Keeps stays (suc n) (left_assoc ops (suc n) sub)
      operators-Keeps ops sub heavy h = left_assoc-Keeps ops sub heavy (omega arith) h

      pub concat-Keeps : Keeps stays (suc n) (parse_concat (suc n) self)
      unfolding parse_concat
      concat-Keeps =
          then-Keeps stays
            (operators-Keeps add_ops _ (refl, (refl, tt))
              (operators-Keeps mul_ops _ (refl, (refl, (refl, (refl, tt)))) unary-Keeps))
            (λ e.
              nested-Keeps dot_dot stays stays_le refl
                (then-Keeps stays keeps.concat (λ r. done (Ast.bin Ast.concat e r))) (done e))

      pub expr-Keeps : Keeps stays (suc n) (parse_expr (suc n) self)
      unfolding parse_expr
      expr-Keeps = level-Keeps stays (
          operators-Keeps or_ops _ (refl, tt)
            (operators-Keeps and_ops _ (refl, tt)
              (operators-Keeps compare_ops _ (refl, (refl, (refl, (refl, (refl, (refl, tt))))))
                (operators-Keeps bor_ops _ (refl, tt)
                  (operators-Keeps bxor_ops _ (refl, tt)
                    (operators-Keeps band_ops _ (refl, tt)
                      (operators-Keeps shift_ops _ (refl, (refl, tt)) concat-Keeps)))))))
