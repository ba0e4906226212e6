-- ===== src/Frontend/Sema/Jumps.antt =====
-- The gotos and the labels of a function, in its own statements (src/frontend/ast.hpp).
use luajit.Common.{Bool, false, ◌||◌, same_bytes}
use luajit.Frontend.Ast.{
  Name, Stmt, local_decl, assign, if_stmt, while_stmt, repeat_stmt, for_num, for_in, break_stmt,
  goto_stmt, label_stmt, return_stmt, call_stmt, do_block, function_decl, local_function, Block,
  block, Stmts, no_stmts, more_stmts, OptBlock, no_block, one_block, Branches, no_branches,
  more_branches,
}

module _ {F : Type 0} (n : Name) where
  -- A goto to n, or a label n, in the statements of a function itself.
  unfoldable mutual
    pub stmt_jumps : Stmt F → Bool
    stmt_jumps (goto_stmt m) = same_bytes m n
    stmt_jumps (while_stmt cond body) = block_jumps body
    stmt_jumps (repeat_stmt body cond) = block_jumps body
    stmt_jumps (for_num m start limit step body) = block_jumps body
    stmt_jumps (for_in names iters body) = block_jumps body
    stmt_jumps (if_stmt branches else_body) = branches_jumps branches || else_jumps else_body
    stmt_jumps (do_block body) = block_jumps body
    stmt_jumps break_stmt = false
    stmt_jumps (label_stmt m) = false
    stmt_jumps (local_decl names values) = false
    stmt_jumps (assign vars values) = false
    stmt_jumps (return_stmt values) = false
    stmt_jumps (call_stmt e) = false
    stmt_jumps (local_function m f) = false
    stmt_jumps (function_decl path is_method f) = false

    pub branches_jumps : Branches F → Bool
    branches_jumps no_branches = false
    branches_jumps (more_branches cond body rest) = block_jumps body || branches_jumps rest

    pub else_jumps : OptBlock F → Bool
    else_jumps no_block = false
    else_jumps (one_block body) = block_jumps body

    pub stmts_jump : Stmts F → Bool
    stmts_jump no_stmts = false
    stmts_jump (more_stmts s rest) = stmt_jumps s || stmts_jump rest

    pub block_jumps : Block F → Bool
    block_jumps (block stmts) = stmts_jump stmts

  unfoldable mutual
    pub stmt_labels : Stmt F → Bool
    stmt_labels (label_stmt m) = same_bytes m n
    stmt_labels (while_stmt cond body) = block_labels body
    stmt_labels (repeat_stmt body cond) = block_labels body
    stmt_labels (for_num m start limit step body) = block_labels body
    stmt_labels (for_in names iters body) = block_labels body
    stmt_labels (if_stmt branches else_body) = branches_labels branches || else_labels else_body
    stmt_labels (do_block body) = block_labels body
    stmt_labels break_stmt = false
    stmt_labels (goto_stmt m) = false
    stmt_labels (local_decl names values) = false
    stmt_labels (assign vars values) = false
    stmt_labels (return_stmt values) = false
    stmt_labels (call_stmt e) = false
    stmt_labels (local_function m f) = false
    stmt_labels (function_decl path is_method f) = false

    pub branches_labels : Branches F → Bool
    branches_labels no_branches = false
    branches_labels (more_branches cond body rest) = block_labels body || branches_labels rest

    pub else_labels : OptBlock F → Bool
    else_labels no_block = false
    else_labels (one_block body) = block_labels body

    pub stmts_label : Stmts F → Bool
    stmts_label no_stmts = false
    stmts_label (more_stmts s rest) = stmt_labels s || stmts_label rest

    pub block_labels : Block F → Bool
    block_labels (block stmts) = stmts_label stmts
