-- ===== src/Frontend/Sema/Gotos.antt =====
-- The labels that goto statements name: each is one of the function that the goto stands in.
use luajit.Common.{
  ℕ, ◌≡◌, refl, sym, ap, ◌∙◌, subst, Bool, true, false, ◌&&◌, ◌||◌, List, [], ◌∷◌, length, some,
  Option-cases, Bool-cases, inl, inr, same_bytes,
}
use luajit.Common.Result.{ok}
use luajit.Frontend.Ast.{
  Name, Stmt, local_decl, assign, if_stmt, while_stmt, repeat_stmt, for_num, for_in, break_stmt,
  goto_stmt, label_stmt, return_stmt, call_stmt, do_block, function_decl, local_function, body_of,
  Block, block, Stmts, no_stmts, more_stmts, OptBlock, no_block, one_block, Branches, no_branches,
  more_branches,
}
use luajit.Frontend.Sema.{
  Labels, Ctx, fresh, has_name, innermost, around, declare, enter_loop, push_scope, label_of,
  label_or, only_labels, check_gotos, finish_function, walk_expr, walk_exprs, walk_opt, walk_stmt,
  walk_branches, walk_else, walk_stmts, walk_block,
}
use luajit.Frontend.Sema.Sound.{stmt_sound, add_label-Grown, break_inside, walk_block-restores}
use luajit.Frontend.Sema.Frame.{bind-ok, ok-inj, names_of}
use luajit.Frontend.Sema.Jumps.{
  stmt_jumps, branches_jumps, else_jumps, stmts_jump, block_jumps, stmt_labels, branches_labels,
  else_labels, stmts_label, block_labels,
}
use luajit.Frontend.Sema.Waiting.{
  waits, Steps, or-left, or-right, or-cases, chain, kept, waiting, goto_steps, leave_block-Steps,
  no_gotos, widen, names_under, some-inj, some_none,
}

module _ {F : Type 0} (n : Name) where
  label_stmt-labels :
      (s : Stmt F) (m : Name)
      → label_of s ≡ some m
      → (stmt_jumps n s ≡ false) × (stmt_labels n s ≡ same_bytes m n)
  unfolding stmt_jumps stmt_labels
  label_stmt-labels (label_stmt k) m h = (refl, ap (λ (x : Name). same_bytes x n) (some-inj k m h))
  label_stmt-labels (local_decl xs es) m h = some_none h
  label_stmt-labels (assign xs es) m h = some_none h
  label_stmt-labels (if_stmt b e) m h = some_none h
  label_stmt-labels (while_stmt e b) m h = some_none h
  label_stmt-labels (repeat_stmt b e) m h = some_none h
  label_stmt-labels (for_num k x y z b) m h = some_none h
  label_stmt-labels (for_in xs es b) m h = some_none h
  label_stmt-labels break_stmt m h = some_none h
  label_stmt-labels (goto_stmt k) m h = some_none h
  label_stmt-labels (return_stmt es) m h = some_none h
  label_stmt-labels (call_stmt e) m h = some_none h
  label_stmt-labels (do_block b) m h = some_none h
  label_stmt-labels (function_decl p q f) m h = some_none h
  label_stmt-labels (local_function k f) m h = some_none h

  mutual
    unfolding walk_stmt stmt_jumps stmt_labels

    stmt_steps :
        (s : Stmt F) (c c' : Ctx)
        → walk_stmt s c ≡ ok c'
        → Steps n c (stmt_jumps n s) c' (stmt_labels n s)
    stmt_steps break_stmt c c' h =
        kept n c c' (ap (λ (x : Ctx). x.gotos) (sym (break_inside c.loop_depth c c' h).0))
    stmt_steps (goto_stmt m) c c' h =
        subst (λ (x : Ctx). Steps n c (same_bytes m n) x false) (ok-inj _ _ _ refl h)
          (goto_steps n m c)
    stmt_steps (label_stmt m) c c' h = λ w.
        or-left _ _
          (subst (λ (x : Ctx). waits n x.gotos ≡ true) (ok-inj _ _ _ refl h) (waiting n c w))
    stmt_steps (while_stmt cond body) c c' h =
        let (_, a, r) = bind-ok (walk_expr cond) _ _ h in
        let (inner, b, d) = bind-ok _ _ _ r in
        subst (λ (x : Ctx). Steps n c (block_jumps n body) x (block_labels n body))
          (ok-inj _ _ _ refl d) (block_steps body true true (enter_loop c) inner b)
    stmt_steps (repeat_stmt body cond) c c' h =
        let (inner, b, r) = bind-ok _ _ _ h in
        let (_, a, d) = bind-ok (walk_expr cond) _ _ r in
        subst (λ (x : Ctx). Steps n c (block_jumps n body) x (block_labels n body))
          (ok-inj _ _ _ refl d) (block_steps body false false (enter_loop c) inner b)
    stmt_steps (for_num m start limit step body) c c' h =
        let (_, a, r) = bind-ok (walk_expr start) _ _ h in
        let (_, b, t) = bind-ok (walk_expr limit) _ _ r in
        let (_, k, u) = bind-ok (walk_opt step) _ _ t in
        let (inner, w, d) = bind-ok _ _ _ u in
        subst (λ (x : Ctx). Steps n c (block_jumps n body) x (block_labels n body))
          (ok-inj _ _ _ refl d)
          (block_steps body true true (declare (m ∷ []) (enter_loop c)) inner w)
    stmt_steps (for_in names iters body) c c' h =
        let (_, a, r) = bind-ok (walk_exprs iters) _ _ h in
        let (inner, w, d) = bind-ok _ _ _ r in
        subst (λ (x : Ctx). Steps n c (block_jumps n body) x (block_labels n body))
          (ok-inj _ _ _ refl d) (block_steps body true true (declare names (enter_loop c)) inner w)
    stmt_steps (if_stmt branches else_body) c c' h =
        let (inner, a, b) = bind-ok _ _ _ h in
        chain (waits n c.gotos) (branches_jumps n branches) (waits n inner.gotos)
          (branches_labels n branches) (else_jumps n else_body) (waits n c'.gotos)
          (else_labels n else_body) (branches_steps branches c inner a)
          (else_steps else_body inner c' b)
    stmt_steps (local_decl names values) c c' h =
        let (_, a, d) = bind-ok (walk_exprs values) _ _ h in
        subst (λ (x : Ctx). Steps n c false x false) (ok-inj _ _ _ refl d) (kept n c c refl)
    stmt_steps (assign vars values) c c' h =
        let (_, a, r) = bind-ok (walk_exprs vars) _ _ h in
        let (_, b, d) = bind-ok (walk_exprs values) _ _ r in
        subst (λ (x : Ctx). Steps n c false x false) (ok-inj _ _ _ refl d) (kept n c c refl)
    stmt_steps (return_stmt values) c c' h =
        let (_, a, d) = bind-ok (walk_exprs values) _ _ h in
        subst (λ (x : Ctx). Steps n c false x false) (ok-inj _ _ _ refl d) (kept n c c refl)
    stmt_steps (call_stmt e) c c' h =
        let (_, a, d) = bind-ok (walk_expr e) _ _ h in
        subst (λ (x : Ctx). Steps n c false x false) (ok-inj _ _ _ refl d) (kept n c c refl)
    stmt_steps (local_function m (body_of params is_vararg body)) c c' h =
        let (_, a, d) = bind-ok (finish_function (walk_block body true true (fresh []))) _ _ h in
        subst (λ (x : Ctx). Steps n c false x false) (ok-inj _ _ _ refl d) (kept n c c refl)
    stmt_steps (function_decl path is_method (body_of params is_vararg body)) c c' h =
        let (_, a, d) = bind-ok (finish_function (walk_block body true true (fresh []))) _ _ h in
        subst (λ (x : Ctx). Steps n c false x false) (ok-inj _ _ _ refl d) (kept n c c refl)
    stmt_steps (do_block body) c c' h = block_steps body true true c c' h

    branches_steps :
        (bs : Branches F) (c c' : Ctx)
        → walk_branches bs c ≡ ok c'
        → Steps n c (branches_jumps n bs) c' (branches_labels n bs)
    branches_steps no_branches c c' h =
        subst (λ (x : Ctx). Steps n c false x false) (ok-inj _ _ _ refl h) (kept n c c refl)
    branches_steps (more_branches cond body rest) c c' h =
        let (_, a, r) = bind-ok (walk_expr cond) _ _ h in
        let (inner, b, d) = bind-ok _ _ _ r in
        chain (waits n c.gotos) (block_jumps n body) (waits n inner.gotos) (block_labels n body)
          (branches_jumps n rest) (waits n c'.gotos) (branches_labels n rest)
          (block_steps body true true c inner b) (branches_steps rest inner c' d)

    else_steps :
        (o : OptBlock F) (c c' : Ctx)
        → walk_else o c ≡ ok c'
        → Steps n c (else_jumps n o) c' (else_labels n o)
    else_steps no_block c c' h =
        subst (λ (x : Ctx). Steps n c false x false) (ok-inj _ _ _ refl h) (kept n c c refl)
    else_steps (one_block body) c c' h = block_steps body true true c c' h

    stmts_steps :
        (b : Stmts F) (allow : Bool) (before : ℕ) (c c' : Ctx)
        → walk_stmts b allow before c ≡ ok c'
        → Steps n c (stmts_jump n b) c' (stmts_label n b)
          × (has_name n (names_of (innermost c'.label_scopes)) ≡ true
              → (has_name n (names_of (innermost c.label_scopes)) || stmts_label n b) ≡ true)
    stmts_steps no_stmts allow before c c' h = (
      subst (λ (x : Ctx). Steps n c false x false) (ok-inj _ _ _ refl h) (kept n c c refl),
      λ k. or-left _ _ (
          subst (λ (x : Ctx). has_name n (names_of (innermost x.label_scopes)) ≡ true)
            (sym (ok-inj _ _ _ refl h)) k),
    )
    stmts_steps (more_stmts s rest) allow before c c' h = elim (Option-cases (label_of s)) [
      | inl plain ↦
          let (next, a, r) =
            bind-ok (label_or (label_of s) (allow && only_labels rest) before c (walk_stmt s c)) _ _
              h in
          let stepped = rw plain at a in
          let (steps, names) = stmts_steps rest allow before next c' r in
          let (f, _) = stmt_sound s c next stepped in
          (
            chain (waits n c.gotos) (stmt_jumps n s) (waits n next.gotos) (stmt_labels n s)
                (stmts_jump n rest) (waits n c'.gotos) (stmts_label n rest)
                (stmt_steps s c next stepped) steps,
            λ k.
                widen n (has_name n (names_of (innermost c.label_scopes))) (stmts_label n rest)
                  (stmt_labels n s)
                  (names_under n next.label_scopes c.label_scopes (stmts_label n rest) f.scopes
                    (names k)),
          )
      | inr (m, label) ↦
          let (next, a, r) =
            bind-ok (label_or (label_of s) (allow && only_labels rest) before c (walk_stmt s c)) _ _
              h in
          let (_, visible, e) = add_label-Grown m _ before c next (rw label at a) in
          let (steps, names) = stmts_steps rest allow before next c' r in
          let (no_jump, labels) = label_stmt-labels s m label in
          (
            chain (waits n c.gotos) (stmt_jumps n s) (waits n next.gotos) (stmt_labels n s)
                (stmts_jump n rest) (waits n c'.gotos) (stmts_label n rest)
                (λ w. or-left _ _ (
                  subst (λ (x : Ctx). waits n x.gotos ≡ true) (sym e)
                    (waiting n c (subst (λ (b : Bool). (waits n c.gotos || b) ≡ true) no_jump w))))
                steps,
            λ k. elim (Bool-cases (same_bytes m n)) [
              | inl p ↦ or-right _ _ (or-left (stmt_labels n s) _ (labels ∙ p))
              | inr p ↦
                  widen n (has_name n (names_of (innermost c.label_scopes))) (stmts_label n rest)
                    (stmt_labels n s)
                    (rw p at (
                      names_under n next.label_scopes
                        (((m, visible) ∷ innermost c.label_scopes) ∷ around c.label_scopes)
                        (stmts_label n rest) (ap (λ (x : Ctx). x.label_scopes) e) (names k)))
            ],
          )
    ]

    block_steps :
        (b : Block F) (allow pop : Bool) (c c' : Ctx)
        → walk_block b allow pop c ≡ ok c'
        → Steps n c (block_jumps n b) c' (block_labels n b)
    block_steps (block stmts) allow pop c c' h w =
        let (last, a, b) = bind-ok _ _ _ h in
        let (steps, names) = stmts_steps stmts allow (length c.locals) (push_scope c) last a in
        elim (or-cases (waits n last.gotos) (stmts_label n stmts) (steps w)) [
          | inr l ↦ or-right (waits n c'.gotos) (stmts_label n stmts) l
          | inl k ↦
              elim (or-cases (waits n c'.gotos)
                (has_name n (names_of (innermost last.label_scopes)))
                (leave_block-Steps n (length c.locals) pop last c' b
                  (or-left (waits n last.gotos) false k))) [
                    | inl x ↦ or-left (waits n c'.gotos) (stmts_label n stmts) x
                    | inr x ↦ or-right (waits n c'.gotos) (stmts_label n stmts) (names x)
                  ]
        ]

  -- In a function body that the analysis accepts, each goto names a label of the same function, in
  -- whatever block; the labels and gotos of functions inside it do not count.
  pub finish_function_labelled :
      (params : List Name) (body : Block F)
      → finish_function (walk_block body true true (fresh params)) ≡ ok tt
      → block_jumps n body ≡ true
      → block_labels n body ≡ true
  finish_function_labelled params body h jumps =
      let (c, a, checked) = bind-ok (walk_block body true true (fresh params)) _ _ h in
      let (_, scopes, _, _) = walk_block-restores body true true (fresh params) c a in
      let free : waits n c.gotos ≡ false =
        no_gotos n c.gotos
          (subst (λ (x : List Labels). check_gotos c.gotos x ≡ ok tt) scopes checked) in
      subst (λ (b : Bool). (b || block_labels n body) ≡ true) free
        (block_steps body true true (fresh params) c a jumps)
