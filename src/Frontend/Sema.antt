-- ===== src/Frontend/Sema.antt =====
-- Semantic analysis, src/frontend/sema.cpp. A call of `panic` is an error without the names in its
-- message, and a set of names is a list. The innermost scope of labels comes first. A nested function
-- has a `Ctx` of its own, so an expression leaves the enclosing one as it is.
pub mod WellFormed
pub mod Frame
pub mod Sound
pub mod Complete
pub mod Jumps
pub mod Waiting
pub mod Gotos
use luajit.Common.{
  ℕ, zero, suc, ◌-◌, Bool, true, false, ◌&&◌, List, [], ◌∷◌, ◌++◌, length, take, same_bytes, leb,
  Option, none, some, if◌then◌else◌,
}
use luajit.Common.Result.{Result, ok, err, ◌>>=◌}
use luajit.Frontend.Ast.{
  Name, Expr, nil, boolean, integer, float, string, vararg, name, index, field, bin, un, call,
  paren, table, function, Exprs, no_exprs, more_exprs, OptExpr, no_expr, one_expr, Fields,
  no_fields, more_fields, body_of, Stmt, local_decl, assign, if_stmt, while_stmt, repeat_stmt,
  for_num, for_in, break_stmt, goto_stmt, label_stmt, return_stmt, call_stmt, do_block,
  function_decl, local_function, Block, block, Stmts, no_stmts, more_stmts, OptBlock, no_block,
  one_block, Branches, no_branches, more_branches,
}

pub data SemaError : Type 0 where
  break_outside_loop label_already_defined no_visible_label jumps_into_scope : SemaError

pub record PendingGoto : Type 0 where
  pub label : Name
  pub visible : List Name
  pub scope_depth : ℕ

-- A label with the locals that are visible at it.
abbrev pub Labels : Type 0
Labels = List (Name × List Name)

pub record Ctx : Type 0 where
  pub loop_depth : ℕ
  pub locals : List Name
  pub label_scopes : List Labels
  pub gotos : List PendingGoto

-- `Ctx nested;`
abbrev pub fresh : List Name → Ctx
fresh params = record { loop_depth = 0; locals = params; label_scopes = []; gotos = [] }

abbrev pub has_name : Name → List Name → Bool
has_name n [] = false
has_name n (m ∷ ms) = if same_bytes m n then true else has_name n ms

abbrev pub find_visible : Name → Labels → Option (List Name)
find_visible n [] = none
find_visible n ((m, visible) ∷ ls) = if same_bytes m n then some visible else find_visible n ls

abbrev pub find_label : Name → List Labels → Option (List Name)
find_label n [] = none
find_label n (ls ∷ scopes) = elim (find_visible n ls) [
  | some visible ↦ some visible
  | none ↦ find_label n scopes
]

-- Every name is among the visible ones.
abbrev pub all_visible : List Name → List Name → Bool
all_visible [] visible = true
all_visible (n ∷ ns) visible = has_name n visible && all_visible ns visible

unfoldable pub check_gotos : List PendingGoto → List Labels → Result SemaError Unit
check_gotos [] scopes = ok tt
check_gotos (g ∷ gs) scopes = elim (find_label g.label scopes) [
  | none ↦ err no_visible_label
  | some names ↦ if all_visible names g.visible then check_gotos gs scopes else err jumps_into_scope
]

-- The gotos that are left at the end of a function.
abbrev pub finish_function : Result SemaError Ctx → Result SemaError Unit
finish_function r = r >>= (λ c. check_gotos c.gotos c.label_scopes)

-- The innermost labels, and the scopes around them.
abbrev pub innermost : List Labels → Labels
innermost [] = []
innermost (ls ∷ scopes) = ls

abbrev pub around : List Labels → List Labels
around [] = []
around (ls ∷ scopes) = scopes

abbrev pub declare : List Name → Ctx → Ctx
declare names c = record c { locals = c.locals ++ names }

-- `ctx.locals.resize(before)`, which never grows the list
abbrev pub resize : ℕ → Ctx → Ctx
resize before c = record c { locals = take before c.locals }

abbrev pub enter_loop : Ctx → Ctx
enter_loop c = record c { loop_depth = suc c.loop_depth }

abbrev pub leave_loop : Ctx → Ctx
leave_loop c = record c { loop_depth = c.loop_depth - 1 }

abbrev pub push_goto : Name → Ctx → Ctx
push_goto n c = record c {
  gotos =
      c.gotos
      ++ (record { label = n; visible = c.locals; scope_depth = length c.label_scopes } ∷ []);
}

abbrev pub push_scope : Ctx → Ctx
push_scope c = record c { label_scopes = [] ∷ c.label_scopes }

-- The gotos that remain once those that may go to these labels do.
unfoldable pub bind_gotos : Labels → ℕ → List PendingGoto → Result SemaError (List PendingGoto)
bind_gotos labels depth [] = ok []
bind_gotos labels depth (g ∷ gs) =
    let rest = bind_gotos labels depth gs in
    elim (if leb depth g.scope_depth then find_visible g.label labels else none) [
      | none ↦ rest >>= (λ remain. ok (g ∷ remain))
      | some names ↦ if all_visible names g.visible then rest else err jumps_into_scope
    ]

-- The end of `walk_block`.
unfoldable pub leave_block : ℕ → Bool → Ctx → Result SemaError Ctx
unfolding bind_gotos
leave_block before pop_locals c =
    bind_gotos (innermost c.label_scopes) (length c.label_scopes) c.gotos >>= (λ remain.
      let left = record c { gotos = remain; label_scopes = around c.label_scopes } in
      ok (if pop_locals then resize before left else left))

unfoldable pub add_label : Name → Bool → ℕ → Ctx → Result SemaError Ctx
add_label n last before c =
    let cur = innermost c.label_scopes in
    elim (find_visible n cur) [
      | some _ ↦ err label_already_defined
      | none ↦
          let visible = if last then take before c.locals else c.locals in
          ok (record c { label_scopes = ((n, visible) ∷ cur) ∷ around c.label_scopes })
    ]

-- A label goes into the innermost labels; another statement does what it does.
abbrev pub label_or : Option Name → Bool → ℕ → Ctx → Result SemaError Ctx → Result SemaError Ctx
label_or none last before c stepped = stepped
label_or (some n) last before c stepped = add_label n last before c

module _ {F : Type 0} where
  abbrev pub label_of : Stmt F → Option Name
  label_of (label_stmt n) = some n
  label_of _ = none

  abbrev pub only_labels : Stmts F → Bool
  only_labels no_stmts = true
  only_labels (more_stmts (label_stmt n) rest) = only_labels rest
  only_labels (more_stmts _ rest) = false

  unfoldable mutual
    unfolding check_gotos leave_block add_label

    pub walk_expr : Expr F → Result SemaError Unit
    walk_expr (bin op lhs rhs) = do tt ← walk_expr lhs; walk_expr rhs
    walk_expr (un op operand) = walk_expr operand
    walk_expr (index t key) = do tt ← walk_expr t; walk_expr key
    walk_expr (field t f) = walk_expr t
    walk_expr (call callee args is_method method) = do tt ← walk_expr callee; walk_exprs args
    walk_expr (paren inner) = walk_expr inner
    walk_expr (table fields) = walk_fields fields
    walk_expr (function (body_of params is_vararg body)) =
        finish_function (walk_block body true true (fresh params))
    walk_expr nil = ok tt
    walk_expr (boolean b) = ok tt
    walk_expr (integer n) = ok tt
    walk_expr (float d) = ok tt
    walk_expr (string s) = ok tt
    walk_expr vararg = ok tt
    walk_expr (name n) = ok tt

    pub walk_exprs : Exprs F → Result SemaError Unit
    walk_exprs no_exprs = ok tt
    walk_exprs (more_exprs e es) = do tt ← walk_expr e; walk_exprs es

    pub walk_opt : OptExpr F → Result SemaError Unit
    walk_opt no_expr = ok tt
    walk_opt (one_expr e) = walk_expr e

    pub walk_fields : Fields F → Result SemaError Unit
    walk_fields no_fields = ok tt
    walk_fields (more_fields key value n rest) = do
      tt ← walk_opt key
      tt ← walk_expr value
      walk_fields rest

    pub walk_stmt : Stmt F → Ctx → Result SemaError Ctx
    walk_stmt break_stmt c = elim c.loop_depth [ zero ↦ err break_outside_loop | suc n ↦ ok c ]
    walk_stmt (goto_stmt n) c = ok (push_goto n c)
    walk_stmt (label_stmt n) c = ok c
    walk_stmt (while_stmt cond body) c = do
      tt ← walk_expr cond
      inner ← walk_block body true true (enter_loop c)
      ok (leave_loop inner)
    walk_stmt (repeat_stmt body cond) c = do
      inner ← walk_block body false false (enter_loop c)
      tt ← walk_expr cond
      ok (leave_loop (resize (length c.locals) inner))
    walk_stmt (for_num n start limit step body) c = do
      tt ← walk_expr start
      tt ← walk_expr limit
      tt ← walk_opt step
      inner ← walk_block body true true (declare (n ∷ []) (enter_loop c))
      ok (leave_loop (resize (length c.locals) inner))
    walk_stmt (for_in names iters body) c = do
      tt ← walk_exprs iters
      inner ← walk_block body true true (declare names (enter_loop c))
      ok (leave_loop (resize (length c.locals) inner))
    walk_stmt (if_stmt branches else_body) c = do
      inner ← walk_branches branches c
      walk_else else_body inner
    walk_stmt (local_decl names values) c = do tt ← walk_exprs values; ok (declare names c)
    walk_stmt (assign vars values) c = do tt ← walk_exprs vars; tt ← walk_exprs values; ok c
    walk_stmt (return_stmt values) c = do tt ← walk_exprs values; ok c
    walk_stmt (call_stmt e) c = do tt ← walk_expr e; ok c
    walk_stmt (local_function n (body_of params is_vararg body)) c = do
      tt ← finish_function (walk_block body true true (fresh []))
      ok (declare (n ∷ []) c)
    walk_stmt (function_decl path is_method (body_of params is_vararg body)) c = do
      tt ← finish_function (walk_block body true true (fresh []))
      ok c
    walk_stmt (do_block body) c = walk_block body true true c

    pub walk_branches : Branches F → Ctx → Result SemaError Ctx
    walk_branches no_branches c = ok c
    walk_branches (more_branches cond body rest) c = do
      tt ← walk_expr cond
      inner ← walk_block body true true c
      walk_branches rest inner

    pub walk_else : OptBlock F → Ctx → Result SemaError Ctx
    walk_else no_block c = ok c
    walk_else (one_block body) c = walk_block body true true c

    -- The loop over the statements; `before` locals stand outside the block.
    pub walk_stmts : Stmts F → Bool → ℕ → Ctx → Result SemaError Ctx
    walk_stmts no_stmts allow_last_label before c = ok c
    walk_stmts (more_stmts s rest) allow_last_label before c = do
      next ← label_or (label_of s) (allow_last_label && only_labels rest) before c (walk_stmt s c)
      walk_stmts rest allow_last_label before next

    pub walk_block : Block F → Bool → Bool → Ctx → Result SemaError Ctx
    walk_block (block stmts) allow_last_label pop_locals c = do
      last ← walk_stmts stmts allow_last_label (length c.locals) (push_scope c)
      leave_block (length c.locals) pop_locals last

  unfoldable pub sema_analyze : Block F → Result SemaError Unit
  unfolding walk_block
  sema_analyze chunk = finish_function (walk_block chunk true true (fresh []))
