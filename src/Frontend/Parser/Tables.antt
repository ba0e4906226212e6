-- ===== src/Frontend/Parser/Tables.antt =====
-- The operators of the grammar in the tables of the parser, and its loop over them.
use luajit.Common.{ℕ, zero, suc, ◌<◌, ◌≡◌, refl, arith, true, List, [], ◌∷◌, some}
use luajit.Common.Result.{ok}
use luajit.Frontend.Lexer.Token.{Token, TokenKind}
use luajit.Frontend.Ast
use luajit.Frontend.Ast.{Expr, BinOp}
use luajit.Frontend.Parser.State.{
  Parser, Parsing, peek, next, check, accept, if_token, first_match, loop,
}
use luajit.Frontend.Parser.Expr.{
  operator_round, or_ops, and_ops, compare_ops, bor_ops, bxor_ops, band_ops, shift_ops, add_ops,
  mul_ops,
}
use luajit.Frontend.Parser.Grammar.{
  listed, Level, or_level, and_level, compare_level, bor_level, bxor_level, band_level, shift_level,
  concat_level, add_level, mul_level, unary_level, power_level, simple_level, tighter, level_of,
  token_of, IsLeft, as_kind, Input, first, free, beyond, Stops,
}
use luajit.Frontend.Parser.Listed.{on, free_parts, kinds, first_match-none}

abbrev pub ops_of : Level → List (TokenKind × BinOp)
ops_of or_level = or_ops
ops_of and_level = and_ops
ops_of compare_level = compare_ops
ops_of bor_level = bor_ops
ops_of bxor_level = bxor_ops
ops_of band_level = band_ops
ops_of shift_level = shift_ops
ops_of concat_level = []
ops_of add_level = add_ops
ops_of mul_level = mul_ops
ops_of unary_level = []
ops_of power_level = []
ops_of simple_level = []

-- Behind its operators a level has those that bind tighter.
pub Stops-tighter :
    {F : Type 0} (l : Level) (ts : Input F)
    → IsLeft l
    → Stops l ts
    → (free (first ts).kind (kinds (ops_of l)) ≡ true) × Stops (tighter l) ts
Stops-tighter or_level ts left h = free_parts (first ts).kind (kinds or_ops) (beyond and_level) h
Stops-tighter and_level ts left h =
    free_parts (first ts).kind (kinds and_ops) (beyond compare_level) h
Stops-tighter compare_level ts left h =
    free_parts (first ts).kind (kinds compare_ops) (beyond bor_level) h
Stops-tighter bor_level ts left h = free_parts (first ts).kind (kinds bor_ops) (beyond bxor_level) h
Stops-tighter bxor_level ts left h =
    free_parts (first ts).kind (kinds bxor_ops) (beyond band_level) h
Stops-tighter band_level ts left h =
    free_parts (first ts).kind (kinds band_ops) (beyond shift_level) h
Stops-tighter shift_level ts left h =
    free_parts (first ts).kind (kinds shift_ops) (beyond concat_level) h
Stops-tighter concat_level ts left h = absurd left
Stops-tighter add_level ts left h = free_parts (first ts).kind (kinds add_ops) (beyond mul_level) h
Stops-tighter mul_level ts left h =
    free_parts (first ts).kind (kinds mul_ops) (beyond unary_level) h
Stops-tighter unary_level ts left h = absurd left
Stops-tighter power_level ts left h = absurd left
Stops-tighter simple_level ts left h = absurd left

-- An operator that associates to the left ends the operand in front of it.
pub operator_ends :
    (op : BinOp) → IsLeft (level_of op) → free (token_of op) (beyond (tighter (level_of op))) ≡ true
operator_ends Ast.or_op left = refl
operator_ends Ast.and_op left = refl
operator_ends Ast.lt left = refl
operator_ends Ast.gt left = refl
operator_ends Ast.le left = refl
operator_ends Ast.ge left = refl
operator_ends Ast.ne left = refl
operator_ends Ast.eq left = refl
operator_ends Ast.bor left = refl
operator_ends Ast.bxor left = refl
operator_ends Ast.band left = refl
operator_ends Ast.shl left = refl
operator_ends Ast.shr left = refl
operator_ends Ast.concat left = absurd left
operator_ends Ast.add left = refl
operator_ends Ast.sub left = refl
operator_ends Ast.mul left = refl
operator_ends Ast.div left = refl
operator_ends Ast.idiv left = refl
operator_ends Ast.modulo left = refl
operator_ends Ast.pow left = absurd left

module _ {F : Type 0} where
  -- The loop of a level finds the operators that the manual has there.
  pub first_match-token_of :
      (op : BinOp) (p : Parser F (Input F)) (t : Token F) (ts : Input F)
      → IsLeft (level_of op)
      → first_match (ops_of (level_of op)) (on p (as_kind (token_of op) t ∷ ts))
        ≡ ok (some op, on p ts)
  unfolding first_match if_token accept check peek next
  first_match-token_of Ast.or_op p t ts left = refl
  first_match-token_of Ast.and_op p t ts left = refl
  first_match-token_of Ast.lt p t ts left = refl
  first_match-token_of Ast.gt p t ts left = refl
  first_match-token_of Ast.le p t ts left = refl
  first_match-token_of Ast.ge p t ts left = refl
  first_match-token_of Ast.ne p t ts left = refl
  first_match-token_of Ast.eq p t ts left = refl
  first_match-token_of Ast.bor p t ts left = refl
  first_match-token_of Ast.bxor p t ts left = refl
  first_match-token_of Ast.band p t ts left = refl
  first_match-token_of Ast.shl p t ts left = refl
  first_match-token_of Ast.shr p t ts left = refl
  first_match-token_of Ast.concat p t ts left = absurd left
  first_match-token_of Ast.add p t ts left = refl
  first_match-token_of Ast.sub p t ts left = refl
  first_match-token_of Ast.mul p t ts left = refl
  first_match-token_of Ast.div p t ts left = refl
  first_match-token_of Ast.idiv p t ts left = refl
  first_match-token_of Ast.modulo p t ts left = refl
  first_match-token_of Ast.pow p t ts left = absurd left

  module _ (ops : List (TokenKind × BinOp)) (sub : Parsing F (Input F) (Expr F)) where
    -- The loop of a level ends where no operator of it stands.
    pub loop_ends :
        (m : ℕ) (e : Expr F) (p : Parser F (Input F)) (ts : Input F)
        → zero < m
        → free (first ts).kind (kinds ops) ≡ true
        → loop (operator_round ops sub) m e (on p ts) ≡ ok (e, on p ts)
    unfolding loop
    loop_ends zero e p ts some_fuel h = absurd (omega (arith, some_fuel))
    loop_ends (suc m) e p ts some_fuel h = rw (first_match-none ops p ts h) refl

    -- It goes on behind an operator and what stands to the right of it.
    pub loop_again :
        (m : ℕ) (op : BinOp) (a b : Expr F) (p q r s : Parser F (Input F))
        → first_match ops p ≡ ok (some op, q)
        → sub q ≡ ok (b, r)
        → loop (operator_round ops sub) (suc m) a p
          ≡ loop (operator_round ops sub) m (Ast.bin op a b) r
    unfolding loop
    loop_again m op a b p q r s found read = rw (found, read) refl
