-- ===== src/Frontend/Sema/WellFormed.antt =====
-- What semantic analysis is for, said without its contexts: a break stands in a loop of its function,
-- and the labels of a block differ. `gotos` says whether goto statements may occur.
use luajit.Common.{Bool, true, false, List, [], ◌∷◌, ◌≡◌, some, none}
use luajit.Frontend.Ast.{
  Name, Expr, nil, boolean, integer, float, string, vararg, name, index, field, bin, un, call,
  paren, table, function, Exprs, no_exprs, more_exprs, OptExpr, no_expr, one_expr, Fields,
  no_fields, more_fields, body_of, Stmt, local_decl, assign, if_stmt, while_stmt, repeat_stmt,
  for_num, for_in, break_stmt, goto_stmt, label_stmt, return_stmt, call_stmt, do_block,
  function_decl, local_function, Block, block, Stmts, no_stmts, more_stmts, OptBlock, no_block,
  one_block, Branches, no_branches, more_branches,
}
use luajit.Frontend.Sema.{label_of, has_name}

module _ {F : Type 0} (gotos : Bool) where
  unfoldable mutual
    pub ExprGood : Expr F → Type 0
    ExprGood (bin op lhs rhs) = ExprGood lhs × ExprGood rhs
    ExprGood (un op operand) = ExprGood operand
    ExprGood (index t key) = ExprGood t × ExprGood key
    ExprGood (field t f) = ExprGood t
    ExprGood (call callee args is_method method) = ExprGood callee × ExprsGood args
    ExprGood (paren inner) = ExprGood inner
    ExprGood (table fields) = FieldsGood fields
    ExprGood (function (body_of params is_vararg body)) = BlockGood body false
    ExprGood nil = Unit
    ExprGood (boolean b) = Unit
    ExprGood (integer n) = Unit
    ExprGood (float d) = Unit
    ExprGood (string s) = Unit
    ExprGood vararg = Unit
    ExprGood (name n) = Unit

    pub ExprsGood : Exprs F → Type 0
    ExprsGood no_exprs = Unit
    ExprsGood (more_exprs e es) = ExprGood e × ExprsGood es

    pub OptGood : OptExpr F → Type 0
    OptGood no_expr = Unit
    OptGood (one_expr e) = ExprGood e

    pub FieldsGood : Fields F → Type 0
    FieldsGood no_fields = Unit
    FieldsGood (more_fields key value n rest) = OptGood key × ExprGood value × FieldsGood rest

    -- With whether a loop is around.
    pub StmtGood : Stmt F → Bool → Type 0
    StmtGood break_stmt looped = looped ≡ true
    StmtGood (goto_stmt n) looped = gotos ≡ true
    StmtGood (label_stmt n) looped = Unit
    StmtGood (while_stmt cond body) looped = ExprGood cond × BlockGood body true
    StmtGood (repeat_stmt body cond) looped = BlockGood body true × ExprGood cond
    StmtGood (for_num n start limit step body) looped =
        ExprGood start × ExprGood limit × OptGood step × BlockGood body true
    StmtGood (for_in names iters body) looped = ExprsGood iters × BlockGood body true
    StmtGood (if_stmt branches else_body) looped =
        BranchesGood branches looped × ElseGood else_body looped
    StmtGood (local_decl names values) looped = ExprsGood values
    StmtGood (assign vars values) looped = ExprsGood vars × ExprsGood values
    StmtGood (return_stmt values) looped = ExprsGood values
    StmtGood (call_stmt e) looped = ExprGood e
    StmtGood (local_function n (body_of params is_vararg body)) looped = BlockGood body false
    StmtGood (function_decl path is_method (body_of params is_vararg body)) looped =
        BlockGood body false
    StmtGood (do_block body) looped = BlockGood body looped

    pub BranchesGood : Branches F → Bool → Type 0
    BranchesGood no_branches looped = Unit
    BranchesGood (more_branches cond body rest) looped =
        ExprGood cond × BlockGood body looped × BranchesGood rest looped

    pub ElseGood : OptBlock F → Bool → Type 0
    ElseGood no_block looped = Unit
    ElseGood (one_block body) looped = BlockGood body looped

    -- The labels of a block are distinct: `seen` are those before.
    pub StmtsGood : Stmts F → Bool → List Name → Type 0
    StmtsGood no_stmts looped seen = Unit
    StmtsGood (more_stmts s rest) looped seen = elim (label_of s) [
      | some n ↦ (has_name n seen ≡ false) × StmtsGood rest looped (n ∷ seen)
      | none ↦ StmtGood s looped × StmtsGood rest looped seen
    ]

    pub BlockGood : Block F → Bool → Type 0
    BlockGood (block stmts) looped = StmtsGood stmts looped []
