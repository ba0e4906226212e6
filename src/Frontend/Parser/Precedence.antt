-- ===== src/Frontend/Parser/Precedence.antt =====
-- The parser reads every expression of the grammar as the grammar does: with the precedence and the
-- associativity of the manual.
use luajit.Common.{ℕ, zero, suc, ◌+◌, ◌≤◌, ◌<◌, ◌≡◌, refl, ap, ◌∙◌, arith, [], ◌∷◌, length}
use luajit.Common.Result.{Result, ok}
use luajit.Frontend.Lexer.Token.{Token, Numerals, caret, dot_dot, r_paren}
use luajit.Frontend.Ast
use luajit.Frontend.Ast.{Expr, BinOp}
use luajit.Frontend.Parser.State.{Parser, ParseError, continue, loop}
use luajit.Frontend.Parser.Expr.{operator_round, left_assoc, parse_expr}
use luajit.Frontend.Parser.Chunk.{layer, parsers}
use luajit.Frontend.Parser.Grammar.{
  listed, Level, or_level, and_level, compare_level, bor_level, bxor_level, band_level, shift_level,
  concat_level, add_level, mul_level, unary_level, power_level, simple_level, tighter, level_of,
  token_of, IsLeft, as_kind, Reads, atom, parens, power, unary, chained, binary, lift, Input, first,
  beyond, beyond_add, Stops,
}
use luajit.Frontend.Parser.Listed.{on, deeper, free-NoneOf, free_parts, level_ok}
use luajit.Frontend.Parser.Operators.{
  parse_at, parse_at-left, primary-Atom, primary-parens, power-caret, power-alone, unary-sign,
  unary-alone, concat-chained, concat-alone,
}
use luajit.Frontend.Parser.Tables.{
  ops_of, Stops-tighter, operator_ends, first_match-token_of, loop_ends, loop_again,
}
use luajit.Frontend.Parser.Reading.{Reads-Unsigned, Reads-shorter}

module _ {F : Type 0} ⦃numerals : Numerals F⦄ where
  -- The function of the level reads e.
  abbrev Done : ℕ → Level → Expr F → Parser F (Input F) → Input F → Input F → Type 0
  Done n l e p ts us = parse_at (suc n) (parsers n) l (on p ts) ≡ ok (e, on p us)

  -- It comes to its loop with e, and with fuel for the tokens that are left.
  abbrev InLoop : ℕ → Level → Expr F → Parser F (Input F) → Input F → Input F → Type 0
  InLoop n l e p ts us =
      (m : ℕ) × ((length us < m)
        × (parse_at (suc n) (parsers n) l (on p ts)
            ≡ loop (operator_round (ops_of l) (parse_at (suc n) (parsers n) (tighter l))) m e
                (on p us)))

  abbrev Both : ℕ → Level → Expr F → Parser F (Input F) → Input F → Input F → Type 0
  Both n l e p ts us =
      (Stops l us → Done n l e p ts us) × (IsLeft l → Stops (tighter l) us → InLoop n l e p ts us)

  module _ (n : ℕ) (p : Parser F (Input F)) (ts us : Input F) (e : Expr F) where
    loop-Done :
        (l : Level)
        → IsLeft l
        → (Stops (tighter l) us → InLoop n l e p ts us)
        → Stops l us
        → Done n l e p ts us
    loop-Done l left h stops =
        let (none_here, tight) = Stops-tighter l us left stops in
        let (m, (fuel, eq)) = h tight in
        eq
        ∙ loop_ends (ops_of l) (parse_at (suc n) (parsers n) (tighter l)) m e p us
            (omega (arith, fuel)) none_here

    into_loop :
        (l : Level) → IsLeft l → length us ≤ n → Done n (tighter l) e p ts us → InLoop n l e p ts us
    unfolding left_assoc
    into_loop l left short h = (
      suc n,
      (
        omega (arith, short),
        ap
              (λ (f : Parser F (Input F) → Result ParseError (Expr F × Parser F (Input F))).
                f (on p ts))
              (parse_at-left (suc n) (parsers n) l left)
            ∙ ap
                (λ x. continue x (
                  loop (operator_round (ops_of l) (parse_at (suc n) (parsers n) (tighter l)))
                    (suc n)))
                h,
      ),
    )

    expr_step :
        p.c_calls < 200
        → Done n or_level e (deeper p) ts us
        → (parsers (suc n)).expr (on p ts) ≡ ok (e, on p us)
    unfolding parsers layer parse_expr
    expr_step room h = level_ok (parse_at (suc n) (parsers n) or_level) e p ts us room h

    unary_step : Done n unary_level e p ts us → (parsers (suc n)).unary (on p ts) ≡ ok (e, on p us)
    unfolding parsers layer
    unary_step h = h

    concat_step :
        Done n concat_level e p ts us → (parsers (suc n)).concat (on p ts) ≡ ok (e, on p us)
    unfolding parsers layer
    concat_step h = h

    lifted :
        (d : ℕ) (l : Level)
        → Reads d (tighter l) e ts us
        → length us ≤ n
        → (Stops (tighter l) us → Done n (tighter l) e p ts us)
        → Both n l e p ts us
    lifted d l r short h = go l r h
      where
        chain :
            (l : Level)
            → IsLeft l
            → (Stops (tighter l) us → Done n (tighter l) e p ts us)
            → Both n l e p ts us
        chain l left h = (
          loop-Done l left (λ tight. into_loop l left short (h tight)),
          λ left tight. into_loop l left short (h tight),
        )

        go :
            (l : Level)
            → Reads d (tighter l) e ts us
            → (Stops (tighter l) us → Done n (tighter l) e p ts us)
            → Both n l e p ts us
        go or_level r h = chain or_level tt h
        go and_level r h = chain and_level tt h
        go compare_level r h = chain compare_level tt h
        go bor_level r h = chain bor_level tt h
        go bxor_level r h = chain bxor_level tt h
        go band_level r h = chain band_level tt h
        go shift_level r h = chain shift_level tt h
        go concat_level r h = (
          λ stops.
              let (here, behind) = free_parts (first us).kind (dot_dot ∷ []) beyond_add stops in
              let (other, done) = free-NoneOf (first us).kind (dot_dot ∷ []) here in
              concat-alone (suc n) (parsers n) e p ts us other (h behind),
          λ left. absurd left,
        )
        go add_level r h = chain add_level tt h
        go mul_level r h = chain mul_level tt h
        go unary_level r h = (
          λ stops.
              unary-alone (suc n) (parsers n) e p ts us (Reads-Unsigned d power_level e ts us r tt)
                (h stops),
          λ left. absurd left,
        )
        go power_level r h = (
          λ stops.
              let (here, behind) =
                free_parts (first us).kind (caret ∷ []) (beyond simple_level) stops in
              power-alone (suc n) (parsers n) e p ts us (omega arith) stops (h behind),
          λ left. absurd left,
        )
        go simple_level r h = (h, λ left. absurd left)

  -- Behind the loop's operand stands an operator of the level, and the next operand.
  binary_step :
      (n : ℕ) (p : Parser F (Input F)) (ts vs us : Input F) (a b : Expr F) (op : BinOp)
      (t : Token F)
      → (left : IsLeft (level_of op)) → length us < length vs
      → InLoop n (level_of op) a p ts (as_kind (token_of op) t ∷ vs)
      → (Stops (tighter (level_of op)) us → Done n (tighter (level_of op)) b p vs us)
      → Both n (level_of op) (Ast.bin op a b) p ts us
  binary_step n p ts vs us a b op t left shorter (m, (fuel, eq)) right = (
    loop-Done n p ts us (Ast.bin op a b) (level_of op) left (step m fuel eq),
    λ _. step m fuel eq,
  )
    where
      step :
          (m : ℕ)
          → suc (length vs) < m
          → parse_at (suc n) (parsers n) (level_of op) (on p ts)
            ≡ loop
                (operator_round
                  (ops_of (level_of op))
                  (parse_at (suc n) (parsers n) (tighter (level_of op))))
                m
                a
                (on p (as_kind (token_of op) t ∷ vs))
          → Stops (tighter (level_of op)) us
          → InLoop n (level_of op) (Ast.bin op a b) p ts us
      step zero fuel eq tight = absurd (omega (arith, fuel))
      step (suc m) fuel eq tight = (
        m,
        (
          omega (arith, fuel, shorter),
          eq
              ∙ loop_again (ops_of (level_of op))
                  (parse_at (suc n) (parsers n) (tighter (level_of op))) m op a b
                  (on p (as_kind (token_of op) t ∷ vs)) (on p vs) (on p us) p
                  (first_match-token_of op p t vs left) (right tight),
        ),
      )

  reads :
      (d : ℕ) (l : Level) (e : Expr F) (ts us : Input F)
      → Reads d l e ts us
      → (n : ℕ) (p : Parser F (Input F)) → length ts ≤ n
      → p.c_calls + d ≤ 200
      → Both n l e p ts us
  reads d l e ts us (atom {k = k} {t = t} a) n p short room =
      (λ stops. primary-Atom (suc n) (parsers n) k t e p us a, λ left. absurd left)
  reads d l e ts us (parens {d = d'} {e = e'} {ts = ts'} lp rp r) zero p short room =
      absurd (omega (arith, short))
  reads d l e ts us (parens {d = d'} {e = e'} {ts = ts'} lp rp r) (suc n) p short room = (
    λ stops. primary-parens (suc (suc n)) (parsers (suc n)) lp rp e' p ts' us (
        expr_step n p ts' (as_kind r_paren rp ∷ us) e' (omega (arith, room)) (
          (reads d' or_level e' ts' (as_kind r_paren rp ∷ us) r n (deeper p) (omega (arith, short))
              (omega (arith, room))).0
            refl)),
    λ left. absurd left,
  )
  reads d l e ts us (power {d = d'} {a = a} {b = b} {us = vs} t r s) zero p short room =
      absurd (omega (arith, short, Reads-shorter _ _ _ _ _ r))
  reads d l e ts us (power {d = d'} {a = a} {b = b} {us = vs} t r s) (suc n) p short room = (
    λ stops.
        power-caret (suc (suc n)) (parsers (suc n)) a b t p ts vs us (omega arith)
          (omega (arith, room))
          ((reads d simple_level a ts (as_kind caret t ∷ vs) r (suc n) p short room).0 refl)
          (unary_step n (deeper p) vs us b (
            (reads d' unary_level b vs us s n (deeper p)
                (omega (arith, short, Reads-shorter _ _ _ _ _ r)) (omega (arith, room))).0
              stops)),
    λ left. absurd left,
  )
  reads d l e ts us (unary {d = d'} {e = e'} {ts = ts'} op t r) zero p short room =
      absurd (omega (arith, short))
  reads d l e ts us (unary {d = d'} {e = e'} {ts = ts'} op t r) (suc n) p short room = (
    λ stops. unary-sign (suc (suc n)) (parsers (suc n)) op t e' p ts' us (omega (arith, room)) (
        unary_step n (deeper p) ts' us e' (
          (reads d' unary_level e' ts' us r n (deeper p) (omega (arith, short))
              (omega (arith, room))).0
            stops)),
    λ left. absurd left,
  )
  reads d l e ts us (chained {d = d'} {a = a} {b = b} {us = vs} t r s) zero p short room =
      absurd (omega (arith, short, Reads-shorter _ _ _ _ _ r))
  reads d l e ts us (chained {d = d'} {a = a} {b = b} {us = vs} t r s) (suc n) p short room = (
    λ stops.
        concat-chained (suc (suc n)) (parsers (suc n)) a b t p ts vs us (omega (arith, room))
          ((reads d add_level a ts (as_kind dot_dot t ∷ vs) r (suc n) p short room).0 refl)
          (concat_step n (deeper p) vs us b (
            (reads d' concat_level b vs us s n (deeper p)
                (omega (arith, short, Reads-shorter _ _ _ _ _ r)) (omega (arith, room))).0
              stops)),
    λ left. absurd left,
  )
  reads d l e ts us (binary {a = a} {b = b} {us = vs} op t left r s) n p short room =
      binary_step n p ts vs us a b op t left (Reads-shorter _ _ _ _ _ s)
        ((reads d (level_of op) a ts (as_kind (token_of op) t ∷ vs) r n p short room).1 left
          (operator_ends op left))
        ((reads d (tighter (level_of op)) b vs us s n p
          (omega (arith, short, Reads-shorter _ _ _ _ _ r)) room).0)
  reads d l e ts us (lift m r) n p short room =
      lifted n p ts us e d m r (omega (arith, short, Reads-shorter _ _ _ _ _ r))
        ((reads d (tighter m) e ts us r n p short room).0)

  -- The parser agrees with the grammar: where the grammar reads an expression e at the front of the tokens
  -- ts, d levels deep, and what stands behind is no operator and begins no index, field or call, `parse_expr`
  -- reads e and stops there, if the levels that were entered and d make less than 200; fuel for as many
  -- layers as there are tokens is enough.
  pub parse_expr-Reads :
      (d : ℕ) (e : Expr F) (ts us : Input F) (p : Parser F (Input F)) (fuel : ℕ)
      → Reads d or_level e ts us
      → Stops or_level us
      → p.c_calls + d < 200
      → length ts < fuel
      → (parsers fuel).expr (on p ts) ≡ ok (e, on p us)
  parse_expr-Reads d e ts us p zero r stops room short = absurd (omega (arith, short))
  parse_expr-Reads d e ts us p (suc n) r stops room short =
      expr_step n p ts us e (omega (arith, room)) (
        (reads d or_level e ts us r n (deeper p) (omega (arith, short)) (omega (arith, room))).0
          stops)
