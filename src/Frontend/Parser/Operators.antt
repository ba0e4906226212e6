-- ===== src/Frontend/Parser/Operators.antt =====
-- What the functions for the levels of operators do on a list of tokens, one step at a time.
use luajit.Common.{
  ℕ, zero, suc, ◌<◌, ◌≡◌, refl, ◌∙◌, arith, Bool, true, false, [], ◌∷◌, if◌then◌else◌,
}
use luajit.Common.Result.{ok}
use luajit.Frontend.Lexer.Token.{
  Token, TokenKind, Numerals, kw_not, hash, minus, tilde, caret, dot_dot, l_paren, r_paren,
  identifier, dot_dot_dot,
}
use luajit.Frontend.Lexer.State.{stop}
use luajit.Frontend.Ast
use luajit.Frontend.Ast.{Expr, UnOp}
use luajit.Frontend.Parser.State.{
  is_kind, Parser, Parsing, pure, ◌>>=◌, peek, next, check, accept, if_token, expect, level, loop,
}
use luajit.Frontend.Parser.Expr.{
  Self, left_assoc, suffix_round, parse_suffix, parse_primary, parse_power, parse_unary, parse_mul,
  parse_add, parse_concat, parse_shift, parse_band, parse_bxor, parse_bor, parse_compare, parse_and,
  parse_or,
}
use luajit.Frontend.Parser.Grammar.{
  listed, Level, or_level, and_level, compare_level, bor_level, bxor_level, band_level, shift_level,
  concat_level, add_level, mul_level, unary_level, power_level, simple_level, tighter, sign_of,
  IsLeft, as_kind, Atom, a_nil, a_true, a_false, an_integer, a_number, a_string, a_vararg, a_name,
  Input, first, beyond_simple, Stops,
}
use luajit.Frontend.Parser.Listed.{
  on, deeper, free-NoneOf, NoneOf, free_parts, level_ok, nested_here, nested_there, check_any_reads,
}
use luajit.Frontend.Parser.Tables.{ops_of}

module _ {F : Type 0} where
  module _ (m : ℕ) (self : Self F (Input F)) where
    suffix_round_ends :
        (e : Expr F) (p : Parser F (Input F)) (ts : Input F)
        → Stops simple_level ts
        → suffix_round m self e (on p ts) ≡ ok (stop e, on p ts)
    unfolding suffix_round if_token accept check peek
    suffix_round_ends e p ts h =
        let (d, (b, (c, (l, (s, (t, done)))))) = free-NoneOf (first ts).kind beyond_simple h in
        rw (d, b, c, l, s, t) refl

    -- Where no suffix stands behind an operand, the loop over suffixes ends at once.
    pub suffix_ends :
        (allow : Bool) (e : Expr F) (p : Parser F (Input F)) (ts : Input F)
        → Stops simple_level ts
        → zero < m
        → (if allow then parse_suffix m self e else pure e) (on p ts) ≡ ok (e, on p ts)
    unfolding parse_suffix
    suffix_ends false e p ts h some_fuel = refl
    suffix_ends true e p ts h some_fuel = go m some_fuel
      where
        go : (k : ℕ) → zero < k → loop (suffix_round m self) k e (on p ts) ≡ ok (e, on p ts)
        go zero l = absurd (omega (arith, l))
        go (suc k) l = rw (suffix_round_ends e p ts h) refl

module _ {F : Type 0} ⦃numerals : Numerals F⦄ (m : ℕ) (self : Self F (Input F)) where
  -- The function for each level.
  abbrev pub parse_at : Level → Parsing F (Input F) (Expr F)
  parse_at or_level = parse_or m self
  parse_at and_level = parse_and m self
  parse_at compare_level = parse_compare m self
  parse_at bor_level = parse_bor m self
  parse_at bxor_level = parse_bxor m self
  parse_at band_level = parse_band m self
  parse_at shift_level = parse_shift m self
  parse_at concat_level = parse_concat m self
  parse_at add_level = parse_add m self
  parse_at mul_level = parse_mul m self
  parse_at unary_level = parse_unary m self
  parse_at power_level = parse_power m self
  parse_at simple_level = parse_primary m self

  pub parse_at-left :
      (l : Level) → IsLeft l → parse_at l ≡ left_assoc (ops_of l) m (parse_at (tighter l))
  parse_at-left or_level left = refl
  parse_at-left and_level left = refl
  parse_at-left compare_level left = refl
  parse_at-left bor_level left = refl
  parse_at-left bxor_level left = refl
  parse_at-left band_level left = refl
  parse_at-left shift_level left = refl
  parse_at-left concat_level left = absurd left
  parse_at-left add_level left = refl
  parse_at-left mul_level left = refl
  parse_at-left unary_level left = absurd left
  parse_at-left power_level left = absurd left
  parse_at-left simple_level left = absurd left

  pub primary-Atom :
      (k : TokenKind) (t : Token F) (e : Expr F) (p : Parser F (Input F)) (ts : Input F)
      → Atom k t e
      → parse_primary m self (on p (as_kind k t ∷ ts)) ≡ ok (e, on p ts)
  unfolding parse_primary if_token accept check peek next
  primary-Atom k t e p ts (a_nil _) = refl
  primary-Atom k t e p ts (a_true _) = refl
  primary-Atom k t e p ts (a_false _) = refl
  primary-Atom k t e p ts (an_integer _) = refl
  primary-Atom k t e p ts (a_number _) = refl
  primary-Atom k t e p ts (a_string _) = refl
  primary-Atom k t e p ts (a_vararg _) = refl
  primary-Atom k t e p ts (a_name _) = refl

  pub primary-parens :
      (l r : Token F) (e : Expr F) (p : Parser F (Input F)) (ts us : Input F)
      → self.expr (on p ts) ≡ ok (e, on p (as_kind r_paren r ∷ us))
      → parse_primary m self (on p (as_kind l_paren l ∷ ts)) ≡ ok (Ast.paren e, on p us)
  unfolding parse_primary if_token accept check peek next expect
  primary-parens l r e p ts us h = rw h refl

  pub power-caret :
      (a b : Expr F) (t : Token F) (p : Parser F (Input F)) (ts us vs : Input F)
      → zero < m
      → p.c_calls < 200
      → parse_primary m self (on p ts) ≡ ok (a, on p (as_kind caret t ∷ us))
      → self.unary (on (deeper p) us) ≡ ok (b, on (deeper p) vs)
      → parse_power m self (on p ts) ≡ ok (Ast.bin Ast.pow a b, on p vs)
  unfolding parse_power
  power-caret a b t p ts us vs some_fuel room left right =
      let (allow, looked) = check_any_reads (identifier ∷ l_paren ∷ dot_dot_dot ∷ []) p ts in
      rw (looked, left, suffix_ends m self allow a p (as_kind caret t ∷ us) refl some_fuel)
        (nested_here caret _ (pure a) (Ast.bin Ast.pow a b) p (as_kind caret t) us vs refl room
          (rw right refl))

  pub power-alone :
      (e : Expr F) (p : Parser F (Input F)) (ts us : Input F)
      → zero < m
      → Stops power_level us
      → parse_primary m self (on p ts) ≡ ok (e, on p us)
      → parse_power m self (on p ts) ≡ ok (e, on p us)
  unfolding parse_power
  power-alone e p ts us some_fuel stops h =
      let (allow, looked) = check_any_reads (identifier ∷ l_paren ∷ dot_dot_dot ∷ []) p ts in
      let (here, behind) = free_parts (first us).kind (caret ∷ []) beyond_simple stops in
      let (other, done) = free-NoneOf (first us).kind (caret ∷ []) here in
      rw (looked, h, suffix_ends m self allow e p us behind some_fuel)
        (nested_there caret _ (pure e) p us other)

  pub unary-sign :
      (op : UnOp) (t : Token F) (e : Expr F) (p : Parser F (Input F)) (ts us : Input F)
      → p.c_calls < 200
      → self.unary (on (deeper p) ts) ≡ ok (e, on (deeper p) us)
      → parse_unary m self (on p (as_kind (sign_of op) t ∷ ts)) ≡ ok (Ast.un op e, on p us)
  unfolding parse_unary next
  unary-sign op t e p ts us room h = go op
    where
      sign_reads :
          (op : UnOp) (k : TokenKind)
          → level
              (next >>= (λ _. self.unary >>= (λ x. pure (Ast.un op x))))
              (on p (as_kind k t ∷ ts))
            ≡ ok (Ast.un op e, on p us)
      sign_reads op k =
          level_ok (next >>= (λ _. self.unary >>= (λ x. pure (Ast.un op x)))) (Ast.un op e) p
            (as_kind k t ∷ ts) us room (rw h refl)

      go :
          (op : UnOp)
          → parse_unary m self (on p (as_kind (sign_of op) t ∷ ts)) ≡ ok (Ast.un op e, on p us)
      go Ast.not_op = sign_reads Ast.not_op kw_not
      go Ast.len = sign_reads Ast.len hash
      go Ast.neg = sign_reads Ast.neg minus
      go Ast.bnot = sign_reads Ast.bnot tilde

  pub unary-alone :
      (e : Expr F) (p : Parser F (Input F)) (ts us : Input F)
      → NoneOf (first ts).kind (kw_not ∷ hash ∷ minus ∷ tilde ∷ [])
      → parse_power m self (on p ts) ≡ ok (e, on p us)
      → parse_unary m self (on p ts) ≡ ok (e, on p us)
  unfolding parse_unary
  unary-alone e p ts us (a, (b, (c, (d, done)))) h =
      nested_there kw_not _ _ p ts a
      ∙ (nested_there hash _ _ p ts b
          ∙ (nested_there minus _ _ p ts c
              ∙ (nested_there tilde _ (parse_power m self) p ts d ∙ h)))

  pub concat-chained :
      (a b : Expr F) (t : Token F) (p : Parser F (Input F)) (ts us vs : Input F)
      → p.c_calls < 200
      → parse_add m self (on p ts) ≡ ok (a, on p (as_kind dot_dot t ∷ us))
      → self.concat (on (deeper p) us) ≡ ok (b, on (deeper p) vs)
      → parse_concat m self (on p ts) ≡ ok (Ast.bin Ast.concat a b, on p vs)
  unfolding parse_concat
  concat-chained a b t p ts us vs room left right = rw left (
      nested_here dot_dot _ (pure a) (Ast.bin Ast.concat a b) p (as_kind dot_dot t) us vs refl room
        (rw right refl))

  pub concat-alone :
      (e : Expr F) (p : Parser F (Input F)) (ts us : Input F)
      → is_kind (first us).kind dot_dot ≡ false
      → parse_add m self (on p ts) ≡ ok (e, on p us)
      → parse_concat m self (on p ts) ≡ ok (e, on p us)
  unfolding parse_concat
  concat-alone e p ts us other h = rw h (nested_there dot_dot _ (pure e) p us other)
