-- ===== src/Frontend/Sema/Sound.antt =====
-- What semantic analysis accepts is well formed, and what a block leaves of the context.
use luajit.Common.{
  ℕ, zero, suc, ◌≡◌, refl, sym, ap, ◌∙◌, subst, Bool, true, false, ◌&&◌, List, [], ◌∷◌, ◌++◌,
  length, some, Option-cases, inl, inr, arith, if◌then◌else◌,
}
use mathlib.Core.List.{append_assoc, append-nil}
use luajit.Common.Result.{Result, ok, err}
use luajit.Frontend.Ast.{
  Name, Expr, nil, boolean, integer, float, string, vararg, name, index, field, bin, un, call,
  paren, table, function, Exprs, no_exprs, more_exprs, OptExpr, no_expr, one_expr, Fields,
  no_fields, more_fields, body_of, Stmt, local_decl, assign, if_stmt, while_stmt, repeat_stmt,
  for_num, for_in, break_stmt, goto_stmt, label_stmt, return_stmt, call_stmt, do_block,
  function_decl, local_function, Block, block, Stmts, no_stmts, more_stmts, OptBlock, no_block,
  one_block, Branches, no_branches, more_branches,
}
use luajit.Frontend.Sema.{
  SemaError, break_outside_loop, Labels, Ctx, fresh, find_visible, has_name, innermost, around,
  declare, enter_loop, push_scope, add_label, label_of, label_or, only_labels, finish_function,
  walk_expr, walk_exprs, walk_opt, walk_fields, walk_stmt, walk_branches, walk_else, walk_stmts,
  walk_block, sema_analyze,
}
use luajit.Frontend.Sema.WellFormed.{
  ExprGood, ExprsGood, OptGood, FieldsGood, StmtGood, BranchesGood, ElseGood, StmtsGood, BlockGood,
}
use luajit.Frontend.Sema.Frame.{
  Framed, Grown, in_loop, names_of, ok-inj, bind-ok, find_visible-none, Framed-refl, Framed-trans,
  declare-Framed, loop-Framed, while-Framed, repeat-Framed, leave_block-Framed,
}

-- An accepted label is new in its block.
pub add_label-Grown :
    (n : Name) (last : Bool) (before : ℕ) (c c' : Ctx)
    → add_label n last before c ≡ ok c'
    → (has_name n (names_of (innermost c.label_scopes)) ≡ false)
      × (visible : List Name) × (c' ≡ record c {
        label_scopes = ((n, visible) ∷ innermost c.label_scopes) ∷ around c.label_scopes;
      })
unfolding add_label
add_label-Grown n last before c c' h =
    elim (Option-cases (find_visible n (innermost c.label_scopes))) [
      | inl new ↦ (
        find_visible-none n (innermost c.label_scopes) new,
        _,
        sym (ok-inj _ _ _ refl (rw (new, add_label) at h)),
      )
      | inr (v, old) ↦ absurd (refused v old h)
    ]
  where
    refused :
        (v : List Name)
        → find_visible n (innermost c.label_scopes) ≡ some v
        → add_label n last before c ≡ ok c'
        → ⊥
    refused v old h = ground (arith, h, old)

-- A step of the loop over statements, and the rest of the loop.
step_Grown :
    (outer : List Labels) (c next last : Ctx) (names : List Name)
    → next.loop_depth ≡ c.loop_depth
    → next.locals ≡ c.locals ++ names
    → Grown outer next last
    → Grown outer c last
step_Grown outer c next last names d l g = record {
  depth = g.depth ∙ d;
  cur = g.cur;
  scopes = g.scopes;
  declared = names ++ g.declared;
  locals =
      g.locals ∙ ap (λ (x : List Name). x ++ g.declared) l ∙ append_assoc c.locals names g.declared;
}

pub break_inside :
    (n : ℕ) (c c' : Ctx)
    → elim n [ zero ↦ err break_outside_loop | suc _ ↦ ok c ] ≡ ok c'
    → (c ≡ c') × (in_loop n ≡ true)
break_inside zero c c' h = absurd (refused h)
  where
    refused : err break_outside_loop ≡ ok c' → ⊥
    refused h = cc
break_inside (suc n) c c' h = (cc, refl)

same : (c c' : Ctx) (r : Result SemaError Ctx) → r ≡ ok c → r ≡ ok c' → Framed c c'
same c c' r d h = subst (Framed c) (ok-inj c c' r d h) (Framed-refl c)

module _ {F : Type 0} where
  mutual
    unfolding walk_stmt ExprGood

    expr_sound : (e : Expr F) → walk_expr e ≡ ok tt → ExprGood true e
    expr_sound (bin op lhs rhs) h =
        let (_, a, b) = bind-ok _ _ _ h in (expr_sound lhs a, expr_sound rhs b)
    expr_sound (un op operand) h = expr_sound operand h
    expr_sound (index t key) h =
        let (_, a, b) = bind-ok _ _ _ h in (expr_sound t a, expr_sound key b)
    expr_sound (field t f) h = expr_sound t h
    expr_sound (call callee args is_method method) h =
        let (_, a, b) = bind-ok _ _ _ h in (expr_sound callee a, exprs_sound args b)
    expr_sound (paren inner) h = expr_sound inner h
    expr_sound (table fields) h = fields_sound fields h
    expr_sound (function (body_of params is_vararg body)) h =
        let (c, a, _) = bind-ok (walk_block body true true (fresh params)) _ _ h in
        (block_sound body true true (fresh params) c a).2
    expr_sound nil h = tt
    expr_sound (boolean b) h = tt
    expr_sound (integer n) h = tt
    expr_sound (float d) h = tt
    expr_sound (string s) h = tt
    expr_sound vararg h = tt
    expr_sound (name n) h = tt

    exprs_sound : (es : Exprs F) → walk_exprs es ≡ ok tt → ExprsGood true es
    exprs_sound no_exprs h = tt
    exprs_sound (more_exprs e es) h =
        let (_, a, b) = bind-ok _ _ _ h in (expr_sound e a, exprs_sound es b)

    opt_sound : (o : OptExpr F) → walk_opt o ≡ ok tt → OptGood true o
    opt_sound no_expr h = tt
    opt_sound (one_expr e) h = expr_sound e h

    fields_sound : (fs : Fields F) → walk_fields fs ≡ ok tt → FieldsGood true fs
    fields_sound no_fields h = tt
    fields_sound (more_fields key value n rest) h =
        let (_, a, r) = bind-ok _ _ _ h in
        let (_, b, d) = bind-ok _ _ _ r in
        (opt_sound key a, expr_sound value b, fields_sound rest d)

    pub stmt_sound :
        (s : Stmt F) (c c' : Ctx)
        → walk_stmt s c ≡ ok c'
        → Framed c c' × StmtGood true s (in_loop c.loop_depth)
    stmt_sound break_stmt c c' h =
        let (e, looped) = break_inside c.loop_depth c c' h in
        (subst (Framed c) e (Framed-refl c), looped)
    stmt_sound (goto_stmt n) c c' h = (
      subst (Framed c) (ok-inj _ _ _ refl h) (record {
        depth = refl;
        scopes = refl;
        declared = [];
        locals = sym (append-nil c.locals);
      }),
      refl,
    )
    stmt_sound (label_stmt n) c c' h = (same c c' _ refl h, tt)
    stmt_sound (while_stmt cond body) c c' h =
        let (_, a, r) = bind-ok _ _ _ h in
        let (inner, b, d) = bind-ok _ _ _ r in
        let (framed, _, good) = block_sound body true true (enter_loop c) inner b in
        (
          subst (Framed c) (ok-inj _ _ _ refl d) (while-Framed c inner framed),
          (expr_sound cond a, good),
        )
    stmt_sound (repeat_stmt body cond) c c' h =
        let (inner, b, r) = bind-ok _ _ _ h in
        let (_, a, d) = bind-ok _ _ _ r in
        let (framed, _, good) = block_sound body false false (enter_loop c) inner b in
        (
          subst (Framed c) (ok-inj _ _ _ refl d) (repeat-Framed c inner framed),
          (good, expr_sound cond a),
        )
    stmt_sound (for_num n start limit step body) c c' h =
        let (_, a, r) = bind-ok _ _ _ h in
        let (_, b, t) = bind-ok _ _ _ r in
        let (_, k, u) = bind-ok _ _ _ t in
        let (inner, w, d) = bind-ok _ _ _ u in
        let (framed, _, good) =
          block_sound body true true (declare (n ∷ []) (enter_loop c)) inner w in
        (
          subst (Framed c) (ok-inj _ _ _ refl d) (loop-Framed (n ∷ []) c inner framed),
          (expr_sound start a, expr_sound limit b, opt_sound step k, good),
        )
    stmt_sound (for_in names iters body) c c' h =
        let (_, a, r) = bind-ok _ _ _ h in
        let (inner, w, d) = bind-ok _ _ _ r in
        let (framed, _, good) = block_sound body true true (declare names (enter_loop c)) inner w in
        (
          subst (Framed c) (ok-inj _ _ _ refl d) (loop-Framed names c inner framed),
          (exprs_sound iters a, good),
        )
    stmt_sound (if_stmt branches else_body) c c' h =
        let (inner, a, b) = bind-ok _ _ _ h in
        let (f, good) = branches_sound branches c inner a in
        let (g, good_else) = else_sound else_body inner c' b in
        (
          Framed-trans c inner c' f g,
          (good, subst (λ (n : ℕ). ElseGood true else_body (in_loop n)) f.depth good_else),
        )
    stmt_sound (local_decl names values) c c' h =
        let (_, a, d) = bind-ok _ _ _ h in
        (subst (Framed c) (ok-inj _ _ _ refl d) (declare-Framed names c), exprs_sound values a)
    stmt_sound (assign vars values) c c' h =
        let (_, a, r) = bind-ok _ _ _ h in
        let (_, b, d) = bind-ok _ _ _ r in
        (same c c' _ refl d, (exprs_sound vars a, exprs_sound values b))
    stmt_sound (return_stmt values) c c' h =
        let (_, a, d) = bind-ok _ _ _ h in (same c c' _ refl d, exprs_sound values a)
    stmt_sound (call_stmt e) c c' h =
        let (_, a, d) = bind-ok _ _ _ h in (same c c' _ refl d, expr_sound e a)
    stmt_sound (local_function n (body_of params is_vararg body)) c c' h =
        let (_, r, d) = bind-ok (finish_function (walk_block body true true (fresh []))) _ _ h in
        let (last, a, _) = bind-ok (walk_block body true true (fresh [])) _ _ r in
        (
          subst (Framed c) (ok-inj _ _ _ refl d) (declare-Framed (n ∷ []) c),
          (block_sound body true true (fresh []) last a).2,
        )
    stmt_sound (function_decl path is_method (body_of params is_vararg body)) c c' h =
        let (_, r, d) = bind-ok (finish_function (walk_block body true true (fresh []))) _ _ h in
        let (last, a, _) = bind-ok (walk_block body true true (fresh [])) _ _ r in
        (same c c' _ refl d, (block_sound body true true (fresh []) last a).2)
    stmt_sound (do_block body) c c' h =
        let (framed, _, good) = block_sound body true true c c' h in (framed, good)

    pub branches_sound :
        (bs : Branches F) (c c' : Ctx)
        → walk_branches bs c ≡ ok c'
        → Framed c c' × BranchesGood true bs (in_loop c.loop_depth)
    branches_sound no_branches c c' h = (same c c' _ refl h, tt)
    branches_sound (more_branches cond body rest) c c' h =
        let (_, a, r) = bind-ok _ _ _ h in
        let (inner, b, d) = bind-ok _ _ _ r in
        let (f, _, good) = block_sound body true true c inner b in
        let (g, goods) = branches_sound rest inner c' d in
        (
          Framed-trans c inner c' f g,
          (
            expr_sound cond a,
            good,
            subst (λ (n : ℕ). BranchesGood true rest (in_loop n)) f.depth goods,
          ),
        )

    else_sound :
        (o : OptBlock F) (c c' : Ctx)
        → walk_else o c ≡ ok c'
        → Framed c c' × ElseGood true o (in_loop c.loop_depth)
    else_sound no_block c c' h = (same c c' _ refl h, tt)
    else_sound (one_block body) c c' h =
        let (framed, _, good) = block_sound body true true c c' h in (framed, good)

    pub stmts_sound :
        (b : Stmts F) (allow : Bool) (before : ℕ) (c c' : Ctx) (cur : Labels) (outer : List Labels)
        → c.label_scopes ≡ cur ∷ outer
        → walk_stmts b allow before c ≡ ok c'
        → Grown outer c c' × StmtsGood true b (in_loop c.loop_depth) (names_of cur)
    stmts_sound no_stmts allow before c c' cur outer scopes h = (
      subst (Grown outer c) (ok-inj _ _ _ refl h) (record {
        depth = refl;
        cur = cur;
        scopes = scopes;
        declared = [];
        locals = sym (append-nil c.locals);
      }),
      tt,
    )
    stmts_sound (more_stmts s rest) allow before c c' cur outer scopes h =
        elim (Option-cases (label_of s)) [
          | inl plain ↦
              let (next, a, r) =
                bind-ok (label_or (label_of s) (allow && only_labels rest) before c (walk_stmt s c))
                  _ _ h in
              let (f, good) = stmt_sound s c next (rw plain at a) in
              let (g, goods) =
                stmts_sound rest allow before next c' cur outer (f.scopes ∙ scopes) r in
              rw (plain, StmtsGood)
                (
                  step_Grown outer c next c' f.declared f.depth f.locals g,
                  (
                    good,
                    subst (λ (n : ℕ). StmtsGood true rest (in_loop n) (names_of cur)) f.depth goods,
                  ),
                )
          | inr (n, label) ↦
              let (next, a, r) =
                bind-ok (label_or (label_of s) (allow && only_labels rest) before c (walk_stmt s c))
                  _ _ h in
              let (new, visible, e) = add_label-Grown n _ before c next (rw label at a) in
              let depth : next.loop_depth ≡ c.loop_depth = ap (λ (x : Ctx). x.loop_depth) e in
              let (g, goods) =
                stmts_sound rest allow before next c' ((n, visible) ∷ cur) outer
                  (ap (λ (x : Ctx). x.label_scopes) e
                    ∙ ap (λ (x : List Labels). ((n, visible) ∷ innermost x) ∷ around x) scopes)
                  r in
              rw (label, StmtsGood)
                (
                  step_Grown outer c next c' [] depth
                      (ap (λ (x : Ctx). x.locals) e ∙ sym (append-nil c.locals)) g,
                  (
                    subst (λ (x : List Labels). has_name n (names_of (innermost x)) ≡ false) scopes
                        new,
                    subst (λ (k : ℕ). StmtsGood true rest (in_loop k) (n ∷ names_of cur)) depth
                        goods,
                  ),
                )
        ]

    pub block_sound :
        (b : Block F) (allow pop : Bool) (c c' : Ctx)
        → walk_block b allow pop c ≡ ok c'
        → Framed c c'
          × (pop ≡ true → c'.locals ≡ c.locals)
          × BlockGood true b (in_loop c.loop_depth)
    block_sound (block stmts) allow pop c c' h =
        let (last, a, b) = bind-ok _ _ _ h in
        let (g, good) =
          stmts_sound stmts allow (length c.locals) (push_scope c) last [] c.label_scopes refl a in
        let (f, restored) =
          leave_block-Framed pop c last c'
            (record {
              depth = g.depth;
              cur = g.cur;
              scopes = g.scopes;
              declared = g.declared;
              locals = g.locals;
            })
            b in
        (f, restored, good)

  -- After a block that is accepted the depth of loops and the label scopes are what they were before
  -- it. A block that drops its locals (pop_locals) leaves the locals as they were, and one that does
  -- not, the body of a repeat statement, has only added names after them.
  pub walk_block-restores :
      (b : Block F) (allow_last_label pop_locals : Bool) (c c' : Ctx)
      → walk_block b allow_last_label pop_locals c ≡ ok c'
      → (c'.loop_depth ≡ c.loop_depth)
        × (c'.label_scopes ≡ c.label_scopes)
        × (added : List Name) × (c'.locals ≡ c.locals ++ (if pop_locals then [] else added))
  walk_block-restores b allow true c c' h =
      let (f, restored, _) = block_sound b allow true c c' h in
      (f.depth, f.scopes, [], restored refl ∙ sym (append-nil c.locals))
  walk_block-restores b allow false c c' h =
      let (f, _, _) = block_sound b allow false c c' h in (f.depth, f.scopes, f.declared, f.locals)

  -- In a chunk that the analysis accepts each break stands in a loop of its function, and the labels
  -- of each block differ.
  pub sema_analyze_sound :
      (chunk : Block F) → sema_analyze chunk ≡ ok tt → BlockGood true chunk false
  unfolding sema_analyze
  sema_analyze_sound chunk h =
      let (c, a, _) = bind-ok (walk_block chunk true true (fresh [])) _ _ h in
      (block_sound chunk true true (fresh []) c a).2
