-- ===== src/Frontend/Parser/Blocks.antt =====
-- The functions of the parser for statements and blocks end, as those for expressions do.
use luajit.Common.{ℕ, true, false, List, [], ◌∷◌, ◌++◌, if◌then◌else◌}
use luajit.Frontend.Lexer.Token.{
  TokenKind, Numerals, end, identifier, kw_do, kw_else, kw_elseif, kw_end, kw_for, kw_function,
  kw_goto, kw_if, kw_in, kw_local, kw_repeat, kw_return, kw_then, kw_until, kw_while, kw_break, eq,
  l_paren, colon_colon, semi, colon, comma, dot,
}
use luajit.Frontend.Lexer.State.{again, stop}
use luajit.Frontend.Ast
use luajit.Frontend.Ast.{Expr, no_exprs, no_expr, one_expr, Block, Name}
use luajit.Frontend.Parser.State.{
  ◌>>◌, unexpected_symbol, syntax_error, too_many_levels, out_of_fuel, Tokens, Parsing, panic,
  ◌>>=◌, if_match, expect,
}
use luajit.Common.{zero, suc, ◌≤◌, ◌≡◌, refl, arith}
use luajit.Frontend.Parser.Expr.{Self, exprs, expr_list, parse_suffix, parse_primary}
use luajit.Frontend.Parser.Measure.{
  weight, TokenLaws, stays, takes, round_takes, Keeps, weaken, narrow, then-Keeps, taken-Keeps,
}
use luajit.Frontend.Parser.Steps.{
  takes_le, round_le, fail-Keeps, check-Keeps, if-Keeps, check_any-Keeps, token-Keeps,
  token_first-Keeps, token_taken-Keeps, expect-Keeps,
}
use luajit.Frontend.Parser.Levels.{level-Keeps, loop-Keeps}
use luajit.Frontend.Parser.Total.{
  function_body-Keeps, suffix-Keeps, primary-Keeps, unary-Keeps, concat-Keeps, expr-Keeps,
}
use luajit.Frontend.Parser.Parts.{SelfKeeps, done, last, expr_list-Keeps, name-Keeps}
use luajit.Frontend.Parser.Stmt.{
  stmts, branches, is_call, name_round, local_round, too_many_targets, branch_round, parse_if,
  parse_while, parse_repeat, for_num_rest, for_in_rest, parse_for, parse_do, parse_goto,
  parse_label, parse_return, parse_function_decl, parse_local_function, parse_local, target,
  target_round, parse_exprstat, parse_stmt, block_round, parse_block,
}
use luajit.Frontend.Parser.Chunk.{layer, parsers}
use luajit.Frontend.Ast.{Stmt, no_block, one_block, block}

module _ {F S : Type 0} ⦃tokens : Tokens F S⦄ ⦃laws : TokenLaws F S tokens⦄ where
  name_round-Keeps :
      {n : ℕ} (separator : TokenKind)
      → weight separator ≡ 1
      → (names : List Name) → Keeps {F = F} {S = S} round_takes n (name_round separator names)
  unfolding name_round
  name_round-Keeps separator heavy names =
      token_taken-Keeps separator round_takes round_le heavy
        (λ _.
          then-Keeps stays (expect-Keeps identifier) (λ t. done (again (names ++ (t.text ∷ [])))))
        (last names)

  local_round-Keeps :
      {n : ℕ} (names : List Name) → Keeps {F = F} {S = S} round_takes n (local_round names)
  unfolding local_round
  local_round-Keeps names =
      token_taken-Keeps comma round_takes round_le refl
        (λ _. name-Keeps _ (λ t. done (again (names ++ (t.text ∷ []))))) (last names)

  module _ (n : ℕ) (self : Self F S) (keeps : SelfKeeps n self) where
    near : n ≤ suc n
    near = omega arith

    list-Keeps : Keeps stays n (expr_list self.expr (suc n))
    list-Keeps = expr_list-Keeps self.expr near keeps.expr

    -- A block, and the word behind it.
    closed-Keeps :
        {A : Type 0} (k : TokenKind) (f : Block F → Parsing F S A)
        → ((b : Block F) → Keeps stays n (f b))
        → Keeps stays n (do b ← self.block; expect k; f b)
    closed-Keeps k f h =
        then-Keeps stays keeps.block (λ b. then-Keeps stays (expect-Keeps k) (λ _. h b))

    -- An expression, and the word behind it.
    before-Keeps :
        {A : Type 0} (k : TokenKind) (f : Expr F → Parsing F S A)
        → ((e : Expr F) → Keeps stays n (f e))
        → Keeps stays n (do e ← self.expr; expect k; f e)
    before-Keeps k f h =
        then-Keeps stays keeps.expr (λ e. then-Keeps stays (expect-Keeps k) (λ _. h e))

    branch_round-Keeps :
        (bs : List (Expr F × Block F)) → Keeps round_takes n (branch_round (suc n) self bs)
    unfolding branch_round
    branch_round-Keeps bs = then-Keeps round_takes keeps.expr (λ cond.
        then-Keeps round_takes (expect-Keeps kw_then) (λ _.
          then-Keeps round_takes keeps.block (λ body.
            let more = bs ++ ((cond, body) ∷ []) in
            token_taken-Keeps kw_elseif round_takes round_le refl (λ _. done (again more))
              (last more))))

    if_stmt-Keeps : Keeps stays n (parse_if (suc n) self)
    unfolding parse_if
    if_stmt-Keeps = then-Keeps stays (loop-Keeps [] near branch_round-Keeps) (λ bs.
        then-Keeps stays
          (token-Keeps kw_else stays (λ _. then-Keeps stays keeps.block (λ b. done (one_block b)))
            (done no_block))
          (λ other.
            then-Keeps stays (expect-Keeps kw_end) (λ _. done (Ast.if_stmt (branches bs) other))))

    while-Keeps : Keeps stays n (parse_while (suc n) self)
    unfolding parse_while
    while-Keeps =
        before-Keeps kw_do _
          (λ cond. closed-Keeps kw_end _ (λ body. done (Ast.while_stmt cond body)))

    repeat-Keeps : Keeps stays n (parse_repeat (suc n) self)
    unfolding parse_repeat
    repeat-Keeps =
        closed-Keeps kw_until _
          (λ body. then-Keeps stays keeps.expr (λ cond. done (Ast.repeat_stmt body cond)))

    for_num-Keeps : (name : Name) → Keeps stays n (for_num_rest (suc n) self name)
    unfolding for_num_rest
    for_num-Keeps name = before-Keeps comma _ (λ from. then-Keeps stays keeps.expr (λ to.
        then-Keeps stays
          (token-Keeps comma stays (λ _. then-Keeps stays keeps.expr (λ e. done (one_expr e)))
            (done no_expr))
          (λ step.
            then-Keeps stays (expect-Keeps kw_do)
              (λ _. closed-Keeps kw_end _ (λ body. done (Ast.for_num name from to step body))))))

    for_in-Keeps : (name : Name) → Keeps stays n (for_in_rest (suc n) self name)
    unfolding for_in_rest
    for_in-Keeps name =
        then-Keeps stays (loop-Keeps (name ∷ []) near (name_round-Keeps comma refl)) (λ names.
          then-Keeps stays (expect-Keeps kw_in) (λ _. then-Keeps stays list-Keeps (λ iters.
            then-Keeps stays (expect-Keeps kw_do)
              (λ _. closed-Keeps kw_end _ (λ body. done (Ast.for_in names iters body))))))

    for-Keeps : Keeps stays n (parse_for (suc n) self)
    unfolding parse_for
    for-Keeps =
        then-Keeps stays (expect-Keeps identifier)
          (λ t. token-Keeps eq stays (λ _. for_num-Keeps t.text) (for_in-Keeps t.text))

    do-Keeps : Keeps stays n (parse_do (suc n) self)
    unfolding parse_do
    do-Keeps = closed-Keeps kw_end _ (λ body. done (Ast.do_block body))

    goto-Keeps : Keeps stays n (parse_goto (suc n) self)
    unfolding parse_goto
    goto-Keeps = then-Keeps stays (expect-Keeps identifier) (λ t. done (Ast.goto_stmt t.text))

    label-Keeps : Keeps stays n (parse_label (suc n) self)
    unfolding parse_label
    label-Keeps =
        then-Keeps stays (expect-Keeps identifier)
          (λ t. then-Keeps stays (expect-Keeps colon_colon) (λ _. done (Ast.label_stmt t.text)))

    return-Keeps : Keeps stays n (parse_return (suc n) self)
    unfolding parse_return
    return-Keeps =
        then-Keeps stays
          (check_any-Keeps (kw_end ∷ kw_else ∷ kw_elseif ∷ kw_until ∷ semi ∷ end ∷ []))
          (λ nothing.
            then-Keeps stays (if-Keeps stays nothing (done no_exprs) list-Keeps)
              (λ values. done (Ast.return_stmt values)))

    function_decl-Keeps : Keeps stays n (parse_function_decl (suc n) self)
    unfolding parse_function_decl
    function_decl-Keeps = then-Keeps stays (expect-Keeps identifier) (λ t.
        then-Keeps stays (loop-Keeps (t.text ∷ []) near (name_round-Keeps dot refl)) (λ path.
          then-Keeps stays
            (token-Keeps colon stays
              (λ _.
                then-Keeps stays (expect-Keeps identifier)
                  (λ t. done (path ++ (t.text ∷ []), true)))
              (done (path, false)))
            (λ (name_path, is_method).
              then-Keeps stays (function_body-Keeps n self keeps is_method)
                (λ fn. done (Ast.function_decl name_path is_method fn)))))

    local_function-Keeps : Keeps stays n (parse_local_function (suc n) self)
    unfolding parse_local_function
    local_function-Keeps = name-Keeps _ (λ t.
        then-Keeps stays (function_body-Keeps n self keeps false)
          (λ fn. done (Ast.local_function t.text fn)))

    local-Keeps : Keeps stays n (parse_local (suc n) self)
    unfolding parse_local
    local-Keeps =
        token-Keeps kw_function stays (λ _. local_function-Keeps)
          (name-Keeps _ (λ t.
            then-Keeps stays (loop-Keeps (t.text ∷ []) near local_round-Keeps) (λ names.
              then-Keeps stays (token-Keeps eq stays (λ _. list-Keeps) (done no_exprs))
                (λ values. done (Ast.local_decl names values)))))

    module _ ⦃numerals : Numerals F⦄ where
      target-Keeps : Keeps takes (suc n) (target (suc n) self)
      unfolding target
      target-Keeps =
          then-Keeps takes (check_any-Keeps (identifier ∷ l_paren ∷ [])) (λ starts.
            if-Keeps takes starts (suffixed-Keeps) (fail-Keeps takes unexpected_symbol tt))
        where
          suffixed-Keeps :
              Keeps takes (suc n) (parse_primary (suc n) self >>= parse_suffix (suc n) self)
          suffixed-Keeps =
              taken-Keeps takes takes_le (primary-Keeps n self keeps)
                (λ e. narrow (suffix-Keeps n self keeps e))

      target_round-Keeps :
          (vars : ℕ × List (Expr F)) → Keeps round_takes n (target_round (suc n) self vars)
      unfolding target_round
      target_round-Keeps (nvars, vars) =
          token_taken-Keeps comma round_takes round_le refl
            (λ _. then-Keeps stays full-Keeps (λ full.
              if-Keeps stays full (fail-Keeps stays too_many_levels tt) (
                then-Keeps stays (weaken stays takes (λ e. omega arith) (narrow target-Keeps))
                  (λ v. done (again (suc nvars, vars ++ (v ∷ [])))))))
            (last vars)
        where
          full-Keeps : Keeps {F = F} {S = S} stays n (too_many_targets nvars)
          full-Keeps = record { ends = λ p l. (omega arith, (refl, refl)) }

      exprstat-Keeps : Keeps takes (suc n) (parse_exprstat (suc n) self)
      unfolding parse_exprstat
      exprstat-Keeps = taken-Keeps takes takes_le target-Keeps (λ e.
          then-Keeps stays (check_any-Keeps (comma ∷ eq ∷ [])) (λ assigns.
            if-Keeps stays assigns
              (then-Keeps stays (loop-Keeps (1, e ∷ []) near target_round-Keeps) (λ vars.
                then-Keeps stays (expect-Keeps eq) (λ _.
                  then-Keeps stays list-Keeps (λ values. done (Ast.assign (exprs vars) values)))))
              (if-Keeps stays (is_call e) (done (Ast.call_stmt e))
                (fail-Keeps stays syntax_error tt))))

      stmt-Keeps : Keeps takes (suc n) (parse_stmt (suc n) self)
      unfolding parse_stmt
      stmt-Keeps = level-Keeps takes (
          word kw_if refl if_stmt-Keeps (
            word kw_while refl while-Keeps (
              word kw_repeat refl repeat-Keeps (
                word kw_for refl for-Keeps (
                  word kw_do refl do-Keeps (
                    word kw_break refl (done Ast.break_stmt) (
                      word kw_goto refl goto-Keeps (
                        word colon_colon refl label-Keeps (
                          word kw_return refl return-Keeps (
                            word kw_function refl function_decl-Keeps
                              (word kw_local refl local-Keeps exprstat-Keeps)))))))))))
        where
          word :
              {m other : Parsing F S (Stmt F)} (k : TokenKind)
              → weight k ≡ 1
              → Keeps stays n m
              → Keeps takes (suc n) other
              → Keeps takes (suc n) (if_match k m other)
          word k heavy here there = token_first-Keeps k takes takes_le heavy (λ _. here) there

      block_round-Keeps :
          (ss : List (Stmt F)) → Keeps round_takes (suc n) (block_round (suc n) self ss)
      unfolding block_round
      block_round-Keeps ss =
          then-Keeps round_takes
            (check_any-Keeps (kw_end ∷ kw_else ∷ kw_elseif ∷ kw_until ∷ end ∷ []))
            (λ closed. if-Keeps round_takes closed (last ss) (
              token_taken-Keeps semi round_takes round_le refl (λ _. done (again ss))
                (then-Keeps round_takes (check-Keeps kw_return) (λ ends.
                  taken-Keeps round_takes round_le stmt-Keeps (λ s.
                    then-Keeps stays (token-Keeps semi stays (λ _. done true) (done false)) (λ _.
                      done (if ends then stop (ss ++ (s ∷ [])) else again (ss ++ (s ∷ [])))))))))

      block-Keeps : Keeps stays (suc n) (parse_block (suc n) self)
      unfolding parse_block
      block-Keeps =
          then-Keeps stays (loop-Keeps {fuel = suc n} [] (omega arith) block_round-Keeps)
            (λ ss. done (block (stmts ss)))

      layer-Keeps : SelfKeeps (suc n) (layer (suc n) self)
      unfolding layer
      layer-Keeps = record {
        expr = expr-Keeps n self keeps;
        concat = concat-Keeps n self keeps;
        unary = unary-Keeps n self keeps;
        block = block-Keeps;
      }

  pub parsers-Keeps :
      ⦃numerals : Numerals F⦄ → (fuel : ℕ) → SelfKeeps {F = F} {S = S} fuel (parsers fuel)
  unfolding parsers
  parsers-Keeps zero = record { expr = nothing; concat = nothing; unary = nothing; block = nothing }
    where
      nothing : {A : Type 0} → Keeps {F = F} {S = S} {A = A} stays 0 (panic out_of_fuel)
      nothing = record { ends = λ p l. absurd (omega (arith, l)) }
  parsers-Keeps (suc fuel) = layer-Keeps fuel (parsers fuel) (parsers-Keeps fuel)
