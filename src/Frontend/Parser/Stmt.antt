-- ===== src/Frontend/Parser/Stmt.antt =====
-- Statements and blocks: `parse_stmt` and `parse_block` of src/frontend/parser.cpp, one layer of the
-- recursion as in Expr. What stands behind a statement's keyword is a function of its own here.
use luajit.Common.{ℕ, suc, ◌+◌, ltb, Bool, true, false, List, [], ◌∷◌, ◌++◌, if◌then◌else◌}
use luajit.Common.Result.{ok}
use luajit.Frontend.Lexer.Token.{
  TokenKind, Numerals, end, identifier, kw_do, kw_else, kw_elseif, kw_end, kw_for, kw_function,
  kw_goto, kw_if, kw_in, kw_local, kw_repeat, kw_return, kw_then, kw_until, kw_while, kw_break, eq,
  l_paren, colon_colon, semi, colon, comma, dot,
}
use luajit.Frontend.Lexer.State.{Round, again, stop}
use luajit.Frontend.Ast
use luajit.Frontend.Ast.{Expr, no_exprs, no_expr, one_expr, Block, Name}
use luajit.Frontend.Parser.State.{
  ◌>>◌, unexpected_symbol, syntax_error, too_many_levels, Tokens, Parsing, pure, ◌>>=◌, fail, check,
  check_any, if_token, if_match, match_kind, expect, level, loop, new_localvar, max_c_calls,
}
use luajit.Frontend.Parser.Expr.{
  Self, parse_primary, parse_suffix, parse_expr_list, parse_function_body, expr_list, exprs,
}
use luajit.Frontend.Ast.{
  Stmt, Stmts, no_stmts, more_stmts, no_block, one_block, Branches, no_branches, more_branches,
  block,
}

module _ {F : Type 0} where
  abbrev pub stmts : List (Stmt F) → Stmts F
  stmts [] = no_stmts
  stmts (s ∷ ss) = more_stmts s (stmts ss)

  abbrev pub branches : List (Expr F × Block F) → Branches F
  branches [] = no_branches
  branches ((cond, body) ∷ bs) = more_branches cond body (branches bs)

  -- `e->kind == AstKind::ExprCall`
  abbrev pub is_call : Expr F → Bool
  is_call (Ast.call f args is_method method) = true
  is_call _ = false

module _ {F S : Type 0} ⦃tokens : Tokens F S⦄ where
  -- `while (match(separator)) names.push_back(...)`
  unfoldable pub name_round : TokenKind → List Name → Parsing F S (Round (List Name) (List Name))
  unfolding if_token expect
  name_round separator names =
      if_match separator (expect identifier >>= (λ t. pure (again (names ++ (t.text ∷ [])))))
        (pure (stop names))

  unfoldable pub local_round : List Name → Parsing F S (Round (List Name) (List Name))
  unfolding if_token expect new_localvar
  local_round names =
      if_match comma (do t ← expect identifier; new_localvar; pure (again (names ++ (t.text ∷ []))))
        (pure (stop names))

  -- `nvars + nCcalls_ > LUAI_MAXCCALLS`
  abbrev pub too_many_targets : ℕ → Parsing F S Bool
  too_many_targets nvars p = ok (ltb max_c_calls (nvars + p.c_calls), p)

  module _ (m : ℕ) (self : Self F S) where
    unfoldable pub branch_round :
        List (Expr F × Block F)
        → Parsing F S (Round (List (Expr F × Block F)) (List (Expr F × Block F)))
    unfolding expect if_token
    branch_round bs = do
      cond ← self.expr
      expect kw_then
      body ← self.block
      let more = bs ++ ((cond, body) ∷ [])
      if_match kw_elseif (pure (again more)) (pure (stop more))

    unfoldable pub parse_if : Parsing F S (Stmt F)
    unfolding loop branch_round if_token expect
    parse_if = do
      bs ← loop branch_round m []
      other ← if_match kw_else (self.block >>= (λ b. pure (one_block b))) (pure no_block)
      expect kw_end
      pure (Ast.if_stmt (branches bs) other)

    unfoldable pub parse_while : Parsing F S (Stmt F)
    unfolding expect
    parse_while = do
      cond ← self.expr
      expect kw_do
      body ← self.block
      expect kw_end
      pure (Ast.while_stmt cond body)

    unfoldable pub parse_repeat : Parsing F S (Stmt F)
    unfolding expect
    parse_repeat = do
      body ← self.block
      expect kw_until
      cond ← self.expr
      pure (Ast.repeat_stmt body cond)

    unfoldable pub for_num_rest : Name → Parsing F S (Stmt F)
    unfolding expect if_token
    for_num_rest name = do
      from ← self.expr
      expect comma
      to ← self.expr
      step ← if_match comma (self.expr >>= (λ e. pure (one_expr e))) (pure no_expr)
      expect kw_do
      body ← self.block
      expect kw_end
      pure (Ast.for_num name from to step body)

    unfoldable pub for_in_rest : Name → Parsing F S (Stmt F)
    unfolding loop name_round expect expr_list
    for_in_rest name = do
      names ← loop (name_round comma) m (name ∷ [])
      expect kw_in
      iters ← parse_expr_list m self
      expect kw_do
      body ← self.block
      expect kw_end
      pure (Ast.for_in names iters body)

    unfoldable pub parse_for : Parsing F S (Stmt F)
    unfolding expect if_token for_num_rest for_in_rest
    parse_for = do t ← expect identifier; if_match eq (for_num_rest t.text) (for_in_rest t.text)

    unfoldable pub parse_do : Parsing F S (Stmt F)
    unfolding expect
    parse_do = do body ← self.block; expect kw_end; pure (Ast.do_block body)

    unfoldable pub parse_goto : Parsing F S (Stmt F)
    unfolding expect
    parse_goto = expect identifier >>= (λ t. pure (Ast.goto_stmt t.text))

    unfoldable pub parse_label : Parsing F S (Stmt F)
    unfolding expect
    parse_label = do t ← expect identifier; expect colon_colon; pure (Ast.label_stmt t.text)

    unfoldable pub parse_return : Parsing F S (Stmt F)
    unfolding check_any expr_list
    parse_return = do
      nothing ← check_any (kw_end ∷ kw_else ∷ kw_elseif ∷ kw_until ∷ semi ∷ end ∷ [])
      values ← if nothing then pure no_exprs else parse_expr_list m self
      pure (Ast.return_stmt values)

    unfoldable pub parse_function_decl : Parsing F S (Stmt F)
    unfolding expect loop name_round if_token parse_function_body
    parse_function_decl = do
      t ← expect identifier
      path ← loop (name_round dot) m (t.text ∷ [])
      (name_path, is_method) ←
          if_match colon (expect identifier >>= (λ t. pure (path ++ (t.text ∷ []), true)))
            (pure (path, false))
      fn ← parse_function_body m self is_method
      pure (Ast.function_decl name_path is_method fn)

    unfoldable pub parse_local_function : Parsing F S (Stmt F)
    unfolding expect new_localvar parse_function_body
    parse_local_function = do
      t ← expect identifier
      new_localvar
      fn ← parse_function_body m self false
      pure (Ast.local_function t.text fn)

    unfoldable pub parse_local : Parsing F S (Stmt F)
    unfolding expect new_localvar loop local_round if_token expr_list parse_local_function
    parse_local = if_match kw_function parse_local_function (do
      t ← expect identifier
      new_localvar
      names ← loop local_round m (t.text ∷ [])
      values ← if_match eq (parse_expr_list m self) (pure no_exprs)
      pure (Ast.local_decl names values))

    module _ ⦃numerals : Numerals F⦄ where
      unfoldable pub target : Parsing F S (Expr F)
      unfolding check_any parse_primary parse_suffix fail
      target = do
        starts ← check_any (identifier ∷ l_paren ∷ [])
        if starts then parse_primary m self >>= parse_suffix m self else fail unexpected_symbol

      unfoldable pub target_round :
          ℕ × List (Expr F) → Parsing F S (Round (ℕ × List (Expr F)) (List (Expr F)))
      unfolding if_token fail target
      target_round (nvars, vars) =
          if_match comma
            (do
              full ← too_many_targets nvars
              if full
                  then fail too_many_levels
                  else (target >>= (λ v. pure (again (suc nvars, vars ++ (v ∷ []))))))
            (pure (stop vars))

      unfoldable pub parse_exprstat : Parsing F S (Stmt F)
      unfolding target check_any loop target_round expect expr_list fail
      parse_exprstat = do
        e ← target
        assigns ← check_any (comma ∷ eq ∷ [])
        if assigns
            then (do
              vars ← loop target_round m (1, e ∷ [])
              expect eq
              values ← parse_expr_list m self
              pure (Ast.assign (exprs vars) values))
            else if is_call e
            then pure (Ast.call_stmt e)
            else fail syntax_error

      unfoldable pub parse_stmt : Parsing F S (Stmt F)
      unfolding level if_token parse_if parse_while parse_repeat parse_for parse_do parse_goto
          parse_label parse_return parse_function_decl parse_local parse_exprstat
      parse_stmt = level (
          if_match kw_if parse_if (
            if_match kw_while parse_while (
              if_match kw_repeat parse_repeat (
                if_match kw_for parse_for (
                  if_match kw_do parse_do (
                    if_match kw_break (pure Ast.break_stmt) (
                      if_match kw_goto parse_goto (
                        if_match colon_colon parse_label (
                          if_match kw_return parse_return (
                            if_match kw_function parse_function_decl
                              (if_match kw_local parse_local parse_exprstat)))))))))))

      unfoldable pub block_round :
          List (Stmt F) → Parsing F S (Round (List (Stmt F)) (List (Stmt F)))
      unfolding check_any if_token check parse_stmt
      block_round ss = do
        closed ← check_any (kw_end ∷ kw_else ∷ kw_elseif ∷ kw_until ∷ end ∷ [])
        if closed
            then pure (stop ss)
            else if_match semi (pure (again ss)) (do
              last ← check kw_return
              s ← parse_stmt
              match_kind semi
              pure (if last then stop (ss ++ (s ∷ [])) else again (ss ++ (s ∷ []))))

      unfoldable pub parse_block : Parsing F S (Block F)
      unfolding loop block_round
      parse_block = loop block_round m [] >>= (λ ss. pure (block (stmts ss)))
