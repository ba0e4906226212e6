-- ===== src/Frontend/Sema/Complete.antt =====
-- Semantic analysis accepts each well-formed chunk without goto statements.
use luajit.Common.{
  ℕ, zero, suc, ◌≡◌, refl, sym, ap, ◌∙◌, subst, Bool, true, false, ◌&&◌, List, [], ◌∷◌, length,
  Option-cases, inl, inr, if◌then◌else◌,
}
use luajit.Common.Result.{Result, ok, err}
use luajit.Frontend.Ast.{
  Name, Expr, nil, boolean, integer, float, string, vararg, name, index, field, bin, un, call,
  paren, table, function, Exprs, no_exprs, more_exprs, OptExpr, no_expr, one_expr, Fields,
  no_fields, more_fields, body_of, Stmt, local_decl, assign, if_stmt, while_stmt, repeat_stmt,
  for_num, for_in, break_stmt, goto_stmt, label_stmt, return_stmt, call_stmt, do_block,
  function_decl, local_function, Block, block, Stmts, no_stmts, more_stmts, OptBlock, no_block,
  one_block, Branches, no_branches, more_branches,
}
use luajit.Frontend.Sema.{
  SemaError, break_outside_loop, Labels, Ctx, fresh, find_visible, has_name, innermost, around,
  declare, resize, enter_loop, push_scope, leave_block, add_label, label_of, only_labels,
  check_gotos, finish_function, walk_expr, walk_exprs, walk_opt, walk_fields, walk_stmt,
  walk_branches, walk_else, walk_stmts, walk_block, sema_analyze,
}
use luajit.Frontend.Sema.WellFormed.{
  ExprGood, ExprsGood, OptGood, FieldsGood, StmtGood, BranchesGood, ElseGood, StmtsGood, BlockGood,
}
use luajit.Frontend.Sema.Frame.{in_loop, names_of, has_name-find_visible}
use luajit.Frontend.Sema.Sound.{stmt_sound, branches_sound, block_sound, add_label-Grown}

-- A step succeeds, and no goto waits after it.
abbrev Succeeds : Result SemaError Ctx → Type 0
Succeeds r = (c : Ctx) × (r ≡ ok c) × (c.gotos ≡ [])

break_complete :
    (n : ℕ) (c : Ctx)
    → in_loop n ≡ true
    → elim n [ zero ↦ err break_outside_loop | suc _ ↦ ok c ] ≡ ok c
break_complete zero c h = absurd (no h)
  where
    no : false ≡ true → ⊥
    no h = cc
break_complete (suc n) c h = refl

absurd_goto : (r : Result SemaError Ctx) → false ≡ true → Succeeds r
absurd_goto r h = absurd (no h)
  where
    no : false ≡ true → ⊥
    no h = cc

add_label-Succeeds :
    (n : Name) (last : Bool) (before : ℕ) (c : Ctx) (cur : Labels) (outer : List Labels)
    → c.label_scopes ≡ cur ∷ outer
    → has_name n (names_of cur) ≡ false
    → c.gotos ≡ []
    → Succeeds (add_label n last before c)
unfolding add_label
add_label-Succeeds n last before c cur outer scopes new none_wait =
    rw
      (
        ap (λ (ls : List Labels). find_visible n (innermost ls)) scopes
            ∙ has_name-find_visible n cur new,
        add_label,
      )
      (_, refl, none_wait)

leave_block-Succeeds :
    (before : ℕ) (pop : Bool) (c : Ctx) → c.gotos ≡ [] → Succeeds (leave_block before pop c)
unfolding leave_block
leave_block-Succeeds before pop c none_wait = rw none_wait (_, refl, popped pop)
  where
    popped :
        (pop : Bool)
        → (if pop
            then resize before (record c { gotos = []; label_scopes = around c.label_scopes })
            else record c { gotos = []; label_scopes = around c.label_scopes }).gotos
          ≡ []
    popped true = refl
    popped false = refl

finish_function-ok : (r : Result SemaError Ctx) → Succeeds r → finish_function r ≡ ok tt
unfolding check_gotos
finish_function-ok r (c, e, none_wait) = rw (e, none_wait)

module _ {F : Type 0} where
  mutual
    unfolding walk_stmt ExprGood

    expr_complete : (e : Expr F) → ExprGood false e → walk_expr e ≡ ok tt
    expr_complete (bin op lhs rhs) (a, b) = rw (expr_complete lhs a) (expr_complete rhs b)
    expr_complete (un op operand) a = expr_complete operand a
    expr_complete (index t key) (a, b) = rw (expr_complete t a) (expr_complete key b)
    expr_complete (field t f) a = expr_complete t a
    expr_complete (call callee args is_method method) (a, b) =
        rw (expr_complete callee a) (exprs_complete args b)
    expr_complete (paren inner) a = expr_complete inner a
    expr_complete (table fields) a = fields_complete fields a
    expr_complete (function (body_of params is_vararg body)) a =
        finish_function-ok _ (block_complete body true true (fresh params) refl a)
    expr_complete nil a = refl
    expr_complete (boolean b) a = refl
    expr_complete (integer n) a = refl
    expr_complete (float d) a = refl
    expr_complete (string s) a = refl
    expr_complete vararg a = refl
    expr_complete (name n) a = refl

    exprs_complete : (es : Exprs F) → ExprsGood false es → walk_exprs es ≡ ok tt
    exprs_complete no_exprs a = refl
    exprs_complete (more_exprs e es) (a, b) = rw (expr_complete e a) (exprs_complete es b)

    opt_complete : (o : OptExpr F) → OptGood false o → walk_opt o ≡ ok tt
    opt_complete no_expr a = refl
    opt_complete (one_expr e) a = expr_complete e a

    fields_complete : (fs : Fields F) → FieldsGood false fs → walk_fields fs ≡ ok tt
    fields_complete no_fields a = refl
    fields_complete (more_fields key value n rest) (a, b, d) =
        rw (opt_complete key a, expr_complete value b) (fields_complete rest d)

    stmt_complete :
        (s : Stmt F) (c : Ctx)
        → c.gotos ≡ []
        → StmtGood false s (in_loop c.loop_depth)
        → Succeeds (walk_stmt s c)
    stmt_complete break_stmt c free good = (c, break_complete c.loop_depth c good, free)
    stmt_complete (goto_stmt n) c free good = absurd_goto _ good
    stmt_complete (label_stmt n) c free good = (c, refl, free)
    stmt_complete (while_stmt cond body) c free (a, b) =
        let (inner, e, rest) = block_complete body true true (enter_loop c) free b in
        rw (expr_complete cond a, e) (_, refl, rest)
    stmt_complete (repeat_stmt body cond) c free (b, a) =
        let (inner, e, rest) = block_complete body false false (enter_loop c) free b in
        rw (e, expr_complete cond a) (_, refl, rest)
    stmt_complete (for_num n start limit step body) c free (a, b, k, d) =
        let (inner, e, rest) =
          block_complete body true true (declare (n ∷ []) (enter_loop c)) free d in
        rw (expr_complete start a, expr_complete limit b, opt_complete step k, e) (_, refl, rest)
    stmt_complete (for_in names iters body) c free (a, d) =
        let (inner, e, rest) =
          block_complete body true true (declare names (enter_loop c)) free d in
        rw (exprs_complete iters a, e) (_, refl, rest)
    stmt_complete (if_stmt branches else_body) c free (a, b) =
        let (inner, e, rest) = branches_complete branches c free a in
        let (f, _) = branches_sound branches c inner e in
        rw e (
          else_complete else_body inner rest
            (subst (λ (n : ℕ). ElseGood false else_body (in_loop n)) (sym f.depth) b))
    stmt_complete (local_decl names values) c free a = rw (exprs_complete values a) (_, refl, free)
    stmt_complete (assign vars values) c free (a, b) =
        rw (exprs_complete vars a, exprs_complete values b) (_, refl, free)
    stmt_complete (return_stmt values) c free a = rw (exprs_complete values a) (_, refl, free)
    stmt_complete (call_stmt e) c free a = rw (expr_complete e a) (_, refl, free)
    stmt_complete (local_function n (body_of params is_vararg body)) c free a =
        rw (finish_function-ok _ (block_complete body true true (fresh []) refl a)) (_, refl, free)
    stmt_complete (function_decl path is_method (body_of params is_vararg body)) c free a =
        rw (finish_function-ok _ (block_complete body true true (fresh []) refl a)) (_, refl, free)
    stmt_complete (do_block body) c free a = block_complete body true true c free a

    branches_complete :
        (bs : Branches F) (c : Ctx)
        → c.gotos ≡ []
        → BranchesGood false bs (in_loop c.loop_depth)
        → Succeeds (walk_branches bs c)
    branches_complete no_branches c free a = (c, refl, free)
    branches_complete (more_branches cond body rest) c free (a, b, d) =
        let (inner, e, left) = block_complete body true true c free b in
        let (f, _, _) = block_sound body true true c inner e in
        rw (expr_complete cond a, e)
          (branches_complete rest inner left
            (subst (λ (n : ℕ). BranchesGood false rest (in_loop n)) (sym f.depth) d))

    else_complete :
        (o : OptBlock F) (c : Ctx)
        → c.gotos ≡ []
        → ElseGood false o (in_loop c.loop_depth)
        → Succeeds (walk_else o c)
    else_complete no_block c free a = (c, refl, free)
    else_complete (one_block body) c free a = block_complete body true true c free a

    stmts_complete :
        (b : Stmts F) (allow : Bool) (before : ℕ) (c : Ctx) (cur : Labels) (outer : List Labels)
        → c.label_scopes ≡ cur ∷ outer
        → c.gotos ≡ []
        → StmtsGood false b (in_loop c.loop_depth) (names_of cur)
        → Succeeds (walk_stmts b allow before c)
    stmts_complete no_stmts allow before c cur outer scopes free a = (c, refl, free)
    stmts_complete (more_stmts s rest) allow before c cur outer scopes free a =
        elim (Option-cases (label_of s)) [
          | inl plain ↦
              let (good, goods) = rw (plain, StmtsGood) at a in
              let (next, e, left) = stmt_complete s c free good in
              let (f, _) = stmt_sound s c next e in
              rw (plain, walk_stmts, e)
                (stmts_complete rest allow before next cur outer (f.scopes ∙ scopes) left (
                  subst (λ (n : ℕ). StmtsGood false rest (in_loop n) (names_of cur)) (sym f.depth)
                    goods))
          | inr (n, label) ↦
              let (new, goods) = rw (label, StmtsGood) at a in
              let (next, e, left) =
                add_label-Succeeds n (allow && only_labels rest) before c cur outer scopes new
                  free in
              let (_, visible, same) = add_label-Grown n _ before c next e in
              rw (label, walk_stmts, e)
                (stmts_complete rest allow before next ((n, visible) ∷ cur) outer
                  (ap (λ (x : Ctx). x.label_scopes) same
                    ∙ ap (λ (x : List Labels). ((n, visible) ∷ innermost x) ∷ around x) scopes)
                  left
                  (subst (λ (k : ℕ). StmtsGood false rest (in_loop k) (n ∷ names_of cur))
                    (sym (ap (λ (x : Ctx). x.loop_depth) same)) goods))
        ]

    block_complete :
        (b : Block F) (allow pop : Bool) (c : Ctx)
        → c.gotos ≡ []
        → BlockGood false b (in_loop c.loop_depth)
        → Succeeds (walk_block b allow pop c)
    block_complete (block stmts) allow pop c free a =
        let (last, e, left) =
          stmts_complete stmts allow (length c.locals) (push_scope c) [] c.label_scopes refl free
            a in
        rw e (leave_block-Succeeds (length c.locals) pop last left)

  -- A chunk without goto statements is accepted where each break stands in a loop of its function and
  -- the labels of each block differ.
  pub sema_analyze_complete :
      (chunk : Block F) → BlockGood false chunk false → sema_analyze chunk ≡ ok tt
  unfolding sema_analyze
  sema_analyze_complete chunk good =
      finish_function-ok _ (block_complete chunk true true (fresh []) refl good)
