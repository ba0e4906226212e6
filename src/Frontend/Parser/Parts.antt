-- ===== src/Frontend/Parser/Parts.antt =====
-- What the lists, operators and parameters of the parser do to the tokens that are left.
use luajit.Common.{ℕ, true, false, List, [], ◌∷◌, ◌++◌}
use luajit.Frontend.Lexer.Token.{Token, TokenKind, identifier, r_paren, comma, dot_dot_dot}
use luajit.Frontend.Lexer.State.{again, stop}
use luajit.Frontend.Ast
use luajit.Frontend.Ast.{BinOp, Expr, Name}
use luajit.Frontend.Parser.State.{◌>>◌, Tokens, Parsing, pure, ◌>>=◌, expect, new_localvar}
use luajit.Common.{◌≤◌, refl, arith}
use luajit.Frontend.Parser.Expr.{Self, exprs, expr_list, left_assoc, param_round, params}
use luajit.Frontend.Parser.Measure.{TokenLaws, stays, round_takes, Keeps, pure-Keeps, then-Keeps}
use luajit.Frontend.Parser.Steps.{
  round_le, check-Keeps, if-Keeps, token-Keeps, token_taken-Keeps, expect-Keeps,
}
use luajit.Frontend.Parser.Levels.{new_localvar-Keeps, loop-Keeps, Heavy, found-Keeps}

module _ {F S : Type 0} ⦃tokens : Tokens F S⦄ ⦃laws : TokenLaws F S tokens⦄ where
  -- What the functions that the others come back to do with fewer than n tokens left.
  pub record SelfKeeps (n : ℕ) (self : Self F S) : Type 0 where
    pub expr : Keeps stays n self.expr
    pub concat : Keeps stays n self.concat
    pub unary : Keeps stays n self.unary
    pub block : Keeps stays n self.block

  abbrev pub done : {A : Type 0} {n : ℕ} (a : A) → Keeps {F = F} {S = S} stays n (pure a)
  done a = pure-Keeps stays a (omega arith)

  abbrev pub last :
      {A B : Type 0} {n : ℕ} (b : B) → Keeps {F = F} {S = S} (round_takes {A = A}) n (pure (stop b))
  last b = pure-Keeps round_takes (stop b) (omega arith)

  pub expr_list-Keeps :
      {n m : ℕ} (expr : Parsing F S (Expr F))
      → n ≤ m
      → Keeps stays n expr
      → Keeps stays n (expr_list expr m)
  unfolding expr_list
  expr_list-Keeps expr enough h = then-Keeps stays h (λ e.
      then-Keeps stays
        (loop-Keeps (e ∷ []) enough (λ es.
          token_taken-Keeps comma round_takes round_le refl
            (λ t. then-Keeps stays h (λ x. done (again (es ++ (x ∷ []))))) (last es)))
        (λ es. done (exprs es)))

  pub left_assoc-Keeps :
      {n m : ℕ} (ops : List (TokenKind × BinOp)) (sub : Parsing F S (Expr F))
      → Heavy ops
      → n ≤ m
      → Keeps stays n sub
      → Keeps stays n (left_assoc ops m sub)
  unfolding left_assoc
  left_assoc-Keeps ops sub heavy enough h = then-Keeps stays h (λ e. loop-Keeps e enough (λ e.
      found-Keeps ops _ round_takes round_le heavy
        (λ op. then-Keeps stays h (λ r. done (again (Ast.bin op e r)))) (last e)))

  pub name-Keeps :
      {A : Type 0} {n : ℕ} (f : Token F → Parsing F S A)
      → ((t : Token F) → Keeps stays n (f t))
      → Keeps stays n (do t ← expect identifier; new_localvar; f t)
  name-Keeps f h =
      then-Keeps stays (expect-Keeps identifier)
        (λ t. then-Keeps stays new_localvar-Keeps (λ _. h t))

  param_round-Keeps :
      {n : ℕ} (ps : List Name) → Keeps {F = F} {S = S} round_takes n (param_round ps)
  unfolding param_round
  param_round-Keeps ps =
      token_taken-Keeps comma round_takes round_le refl
        (λ t.
          token-Keeps dot_dot_dot stays (λ t. done (stop (ps, true)))
            (name-Keeps _ (λ t. done (again (ps ++ (t.text ∷ []))))))
        (last (ps, false))

  pub params-Keeps :
      {n m : ℕ} → n ≤ m → (ps : List Name) → Keeps {F = F} {S = S} stays n (params m ps)
  unfolding params
  params-Keeps enough ps = then-Keeps stays (check-Keeps r_paren) (λ empty.
      if-Keeps stays empty (done (ps, false)) (
        token-Keeps dot_dot_dot stays (λ t. done (ps, true))
          (name-Keeps _ (λ t. loop-Keeps (ps ++ (t.text ∷ [])) enough param_round-Keeps))))
