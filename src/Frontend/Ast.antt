-- ===== src/Frontend/Ast.antt =====
-- The syntax tree, src/frontend/ast.hpp. Names are their bytes. Line numbers are left out, and so is
-- the kind field, which the constructors
-- stand for. A chunk is its body.
use luajit.Common.{Bool, List, ℕ}
use luajit.Common.Int.{ℤ}

abbrev pub Name : Type 0
Name = List ℕ

pub data BinOp : Type 0 where
  add sub mul div idiv modulo pow concat band bor bxor shl shr eq ne lt le gt ge and_op or_op :
      BinOp

pub data UnOp : Type 0 where
  neg not_op len bnot : UnOp

-- F is the type of doubles.
mutual
  pub data Expr (F : Type 0) : Type 0 where
    nil : Expr F
    boolean : Bool → Expr F
    integer : ℤ → Expr F
    float : F → Expr F
    string : Name → Expr F
    vararg : Expr F
    name : Name → Expr F
    index : Expr F → Expr F → Expr F
    field : Expr F → Name → Expr F
    bin : BinOp → Expr F → Expr F → Expr F
    un : UnOp → Expr F → Expr F
    -- The callee, the arguments, `is_method` and the method's name.
    call : Expr F → Exprs F → Bool → Name → Expr F
    paren : Expr F → Expr F
    table : Fields F → Expr F
    function : Function F → Expr F

  pub data Exprs (F : Type 0) : Type 0 where
    no_exprs : Exprs F
    more_exprs : Expr F → Exprs F → Exprs F

  pub data OptExpr (F : Type 0) : Type 0 where
    no_expr : OptExpr F
    one_expr : Expr F → OptExpr F

  -- A field's key, its value and its name.
  pub data Fields (F : Type 0) : Type 0 where
    no_fields : Fields F
    more_fields : OptExpr F → Expr F → Name → Fields F → Fields F

  -- `ExprFunction`: the parameters, `is_vararg` and the body.
  pub data Function (F : Type 0) : Type 0 where
    body_of : List Name → Bool → Block F → Function F

  pub data Stmt (F : Type 0) : Type 0 where
    local_decl : List Name → Exprs F → Stmt F
    assign : Exprs F → Exprs F → Stmt F
    if_stmt : Branches F → OptBlock F → Stmt F
    while_stmt : Expr F → Block F → Stmt F
    repeat_stmt : Block F → Expr F → Stmt F
    for_num : Name → Expr F → Expr F → OptExpr F → Block F → Stmt F
    for_in : List Name → Exprs F → Block F → Stmt F
    break_stmt : Stmt F
    goto_stmt : Name → Stmt F
    label_stmt : Name → Stmt F
    return_stmt : Exprs F → Stmt F
    call_stmt : Expr F → Stmt F
    do_block : Block F → Stmt F
    -- The path of names, `is_method` and the function.
    function_decl : List Name → Bool → Function F → Stmt F
    local_function : Name → Function F → Stmt F

  pub data Block (F : Type 0) : Type 0 where
    block : Stmts F → Block F

  pub data Stmts (F : Type 0) : Type 0 where
    no_stmts : Stmts F
    more_stmts : Stmt F → Stmts F → Stmts F

  pub data OptBlock (F : Type 0) : Type 0 where
    no_block : OptBlock F
    one_block : Block F → OptBlock F

  pub data Branches (F : Type 0) : Type 0 where
    no_branches : Branches F
    more_branches : Expr F → Block F → Branches F → Branches F
