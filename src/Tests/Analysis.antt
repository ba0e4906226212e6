-- ===== src/Tests/Analysis.antt =====
-- Semantic analysis of small chunks.
use luajit.Common.{◌≡◌, refl, true, false, List, [], ◌∷◌, ◌++◌, if◌then◌else◌}
use luajit.Common.Result.{Result, ok, err}
use luajit.Frontend.Ast.{
  Name, name, function, no_exprs, more_exprs, body_of, Stmt, local_decl, if_stmt, while_stmt,
  repeat_stmt, break_stmt, goto_stmt, label_stmt, return_stmt, do_block, Block, block, no_stmts,
  more_stmts, no_block, no_branches, more_branches,
}
use luajit.Frontend.Sema.{
  fresh, check_gotos, finish_function, Ctx, walk_block, sema_analyze, SemaError, break_outside_loop,
  label_already_defined, no_visible_label, jumps_into_scope,
}
use luajit.Frontend.Sema.WellFormed.{BlockGood}
use luajit.Frontend.Sema.Sound.{walk_block-restores, sema_analyze_sound}
use luajit.Frontend.Sema.Jumps.{block_jumps, block_labels}
use luajit.Frontend.Sema.Gotos.{finish_function_labelled}
use luajit.Frontend.Sema.Complete.{sema_analyze_complete}

abbrev a_name : Name
a_name = b'a' ∷ []

abbrev l_name : Name
l_name = b'l' ∷ []

abbrev one : Stmt Unit → Block Unit
one s = block (more_stmts s no_stmts)

abbrev two : Stmt Unit → Stmt Unit → Block Unit
two s t = block (more_stmts s (more_stmts t no_stmts))

abbrev local_a : Stmt Unit
local_a = local_decl (a_name ∷ []) (more_exprs (name l_name) no_exprs)

-- while a do local a = l; ::l:: if a then break end end; return function(a) do ::l:: end ::l:: end
abbrev plain : Block Unit
plain =
    two
      (while_stmt (name a_name) (
        block (
          more_stmts local_a (
            more_stmts (label_stmt l_name) (
              more_stmts
                (if_stmt (more_branches (name a_name) (one break_stmt) no_branches) no_block)
                no_stmts)))))
      (return_stmt (
        more_exprs
          (function (
            body_of (a_name ∷ []) false
              (two (do_block (one (label_stmt l_name))) (label_stmt l_name))))
          no_exprs))

-- repeat local a = l; goto l; ::l:: until a
abbrev jumping : Block Unit
jumping = one (
    repeat_stmt
      (block (
        more_stmts local_a
          (more_stmts (goto_stmt l_name) (more_stmts (label_stmt l_name) no_stmts))))
      (name a_name))

abbrev inside : Ctx
inside = record { loop_depth = 1; locals = a_name ∷ []; label_scopes = [] ∷ []; gotos = [] }

plain-BlockGood : BlockGood false plain false
unfolding BlockGood
plain-BlockGood = (
  (tt, ((tt, tt), (refl, (((tt, (refl, tt), tt), tt), tt)))),
  (((((refl, tt), (refl, tt))), tt), tt),
)

sema_analyze_complete_example : sema_analyze plain ≡ ok tt
sema_analyze_complete_example = sema_analyze_complete plain plain-BlockGood

jumping_accepted : sema_analyze jumping ≡ ok tt
unfolding sema_analyze
jumping_accepted = refl

sema_analyze_sound_example : BlockGood true jumping false
sema_analyze_sound_example = sema_analyze_sound jumping jumping_accepted

jumping_finished : finish_function (walk_block jumping true true (fresh [])) ≡ ok tt
unfolding walk_block check_gotos
jumping_finished = refl

jumping_jumps : block_jumps l_name jumping ≡ true
unfolding block_jumps
jumping_jumps = refl

finish_function_labelled_example : block_labels l_name jumping ≡ true
finish_function_labelled_example =
    finish_function_labelled l_name [] jumping jumping_finished jumping_jumps

abbrev after : Result SemaError Ctx → Ctx
after (ok c) = c
after (err e) = inside

abbrev walked : Ctx
walked = after (walk_block plain true true inside)

plain-walked : walk_block plain true true inside ≡ ok walked
unfolding walk_block
plain-walked = refl

walk_block-restores_example :
    (walked.loop_depth ≡ inside.loop_depth)
    × (walked.label_scopes ≡ inside.label_scopes)
    × (added : List Name) × (walked.locals ≡ inside.locals ++ (if true then [] else added))
walk_block-restores_example = walk_block-restores plain true true inside walked plain-walked

break_refused : sema_analyze (one break_stmt) ≡ err break_outside_loop
unfolding sema_analyze
break_refused = refl

label_refused :
    sema_analyze (two (label_stmt l_name) (label_stmt l_name)) ≡ err label_already_defined
unfolding sema_analyze
label_refused = refl

goto_refused :
    sema_analyze (two (do_block (one (label_stmt l_name))) (goto_stmt l_name))
    ≡ err no_visible_label
unfolding sema_analyze
goto_refused = refl

-- goto l; local a = l; ::l:: return
scope_refused :
    sema_analyze (
      block (
        more_stmts (goto_stmt l_name) (
          more_stmts local_a
            (more_stmts (label_stmt l_name) (more_stmts (return_stmt no_exprs) no_stmts)))))
    ≡ err jumps_into_scope
unfolding sema_analyze
scope_refused = refl

-- do goto l end; do ::l:: end
sibling_accepted :
    sema_analyze (two (do_block (one (goto_stmt l_name))) (do_block (one (label_stmt l_name))))
    ≡ ok tt
unfolding sema_analyze
sibling_accepted = refl

-- local a = l; goto l; local a = l; ::l:: return
shadowed_accepted :
    sema_analyze (
      block (
        more_stmts local_a (
          more_stmts (goto_stmt l_name) (
            more_stmts local_a
              (more_stmts (label_stmt l_name) (more_stmts (return_stmt no_exprs) no_stmts))))))
    ≡ ok tt
unfolding sema_analyze
shadowed_accepted = refl
