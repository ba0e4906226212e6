-- ===== src/Frontend/Parser/Levels.antt =====
-- What levels, functions, loops and choices of operators do to the tokens that are left and to the
-- counters.
use luajit.Common.{
  ℕ, zero, suc, ◌+◌, ◌≤◌, ◌<◌, ◌≡◌, refl, sym, ap, ◌∙◌, arith, Bool-cases, inl, inr, List, [], ◌∷◌,
  ltb, if◌then◌else◌, Option, none, some,
}
use luajit.Common.Result.{Result, ok, err}
use luajit.Frontend.Lexer.Token.{Token, TokenKind}
use luajit.Frontend.Lexer.State.{Round, again, stop}
use luajit.Frontend.Ast.{BinOp}
use luajit.Frontend.Parser.State.{
  is_kind, Tokens, ParseError, too_many_levels, too_many_locals, Parser, Parsing, max_c_calls,
  max_vars, pure, continue, ◌>>=◌, loop, enterfunc, leavefunc, leavelevel, peek, next, check,
  enterlevel, level, if_nested, new_localvar, first_match,
}
use luajit.Frontend.Parser.Measure.{
  weight, TokenLaws, stays, round_takes, found_takes, size, Ends, Keeps, Ends-after, pure-Keeps,
  Looked, peek-Looked,
}
use luajit.Frontend.Parser.State.{in_function, popped}
use luajit.Frontend.Parser.Steps.{kind_weight, fail_own, if_token_ends}

module _ {F S : Type 0} ⦃tokens : Tokens F S⦄ ⦃laws : TokenLaws F S tokens⦄ where
  abbrev deeper : Parser F S → Parser F S
  deeper p = record p { c_calls = suc p.c_calls }

  module _ {A : Type 0} where
    -- What is read one level deeper ends as it does there, with the level given back.
    level-Ends :
        (w : A → ℕ) (m : Parsing F S A) (p : Parser F S)
        → Ends w (deeper p) (m (deeper p))
        → Ends w p (level m p)
    unfolding level enterlevel leavelevel
    level-Ends w m p h = elim (Bool-cases (ltb max_c_calls (suc p.c_calls))) [
      | inl full ↦ rw full (
          fail_own too_many_levels (deeper p)
            (λ x. Ends w p (continue x (λ _ q. continue (m q) (λ a. leavelevel >>= (λ _. pure a)))))
            (λ e own. own) tt)
      | inr free ↦ rw free (go (m (deeper p)) h)
    ]
      where
        go :
            (x : Result ParseError (A × Parser F S))
            → Ends w (deeper p) x
            → Ends w p (continue x (λ a. leavelevel >>= (λ _. pure a)))
        go (ok (a, q)) (le, (c, s)) = (le, (omega (arith, c), s))
        go (err e) own = own

    pub level-Keeps : {n : ℕ} {m : Parsing F S A} (w : A → ℕ) → Keeps w n m → Keeps w n (level m)
    level-Keeps {m = m} w h = record { ends = λ p l. level-Ends w m p (h.ends (deeper p) l) }

    pub nested-Keeps :
        {n : ℕ} {m other : Parsing F S A} (k : TokenKind) (w : A → ℕ)
        → ((a : A) → w a ≤ 1)
        → weight k ≡ 1
        → Keeps stays n m
        → Keeps w (suc n) other
        → Keeps w (suc n) (if_nested k m other)
    unfolding if_nested check
    nested-Keeps {n = n} {m = m} {other = other} k w one heavy here there = record {
      ends = λ p l. go p l (peek p) (peek-Looked p);
    }
      where
        go :
            (p : Parser F S)
            → size p < suc n
            → (x : Result ParseError (Token F × Parser F S)) → Looked p x
            → Ends w p (
                continue
                  (continue x (λ t. pure (is_kind t.kind k)))
                  (λ b. if b then level (next >>= (λ _. m)) else other))
        go p l (ok (t, q)) (le, (frame, (free, h))) = elim (Bool-cases (is_kind t.kind k)) [
          | inl same ↦
              let (r, (taken, (less, (rc, (rs, ru))))) = h (suc q.c_calls) in
              let fewer : size r + 1 ≤ size q =
                omega (arith, less, kind_weight t.kind k same heavy) in
              rw same (
                Ends-after w w 0 p q (level (next >>= (λ _. m)) q) (omega (arith, le)) frame
                  (λ a. omega arith)
                  (level-Ends w (next >>= (λ _. m)) q (
                    rw taken (
                      Ends-after w stays 1 (deeper q) r (m r) fewer (rc, rs ∙ sym frame.1)
                        (λ a. omega (arith, one a)) (here.ends r (omega (arith, fewer, le, l)))))))
          | inr other_kind ↦ rw other_kind (
              Ends-after w w 0 p q (other q) (omega (arith, le)) frame (λ a. omega arith)
                (there.ends q (omega (arith, le, l))))
        ]
        go p l (err e) own = own

    pub function-Keeps :
        {n : ℕ} {m : Parsing F S A} (w : A → ℕ) → Keeps w n m → Keeps w n (in_function m)
    unfolding in_function enterfunc leavefunc
    function-Keeps {m = m} w h = record { ends = λ p l. go p (m (inside p)) (h.ends (inside p) l) }
      where
        inside : Parser F S → Parser F S
        inside p = record p { nactvar_stack = p.nactvar ∷ p.nactvar_stack; nactvar = 0 }

        go :
            (p : Parser F S) (x : Result ParseError (A × Parser F S))
            → Ends w (inside p) x
            → Ends w p (continue x (λ a. leavefunc >>= (λ _. pure a)))
        go p (ok (a, q)) (le, (c, s)) = (le, (c, ap (λ ns. (popped ns).1) s))
        go p (err e) own = own

  pub new_localvar-Keeps : {n : ℕ} → Keeps {F = F} {S = S} stays n new_localvar
  unfolding new_localvar
  new_localvar-Keeps = record {
    ends = λ p l. elim (Bool-cases (ltb max_vars (suc p.nactvar))) [
      | inl full ↦ rw full (fail_own too_many_locals _ (Ends stays p) (λ e own. own) tt)
      | inr free ↦ rw free (omega arith, (refl, refl))
    ];
  }

  -- Fuel for as many rounds as there are tokens is enough for a loop that takes one in each round.
  pub loop-Keeps :
      {A B : Type 0} {round : A → Parsing F S (Round A B)} {fuel n : ℕ} (a : A)
      → n ≤ fuel
      → ((a : A) → Keeps round_takes n (round a))
      → Keeps stays n (loop round fuel a)
  unfolding loop
  loop-Keeps {A = A} {B = B} {round = round} {fuel = fuel} {n = n} a enough h = record {
    ends = λ p l. go fuel a p (omega (arith, l, enough)) l;
  }
    where
      go :
          (fuel : ℕ) (a : A) (p : Parser F S)
          → size p < fuel
          → size p < n
          → Ends stays p (loop round fuel a p)
      go zero a p short l = absurd (omega (arith, short))
      go (suc fuel) a p short l = behind (go fuel) (round a p) ((h a).ends p l)
        where
          behind :
              ((a : A) (p : Parser F S)
                → size p < fuel
                → size p < n
                → Ends stays p (loop round fuel a p))
              → (x : Result ParseError (Round A B × Parser F S)) → Ends round_takes p x
              → Ends stays p
                  (continue x (λ r. elim r [ again next ↦ loop round fuel next | stop b ↦ pure b ]))
          behind ih (ok (again next, q)) (le, frame) =
              Ends-after stays stays 0 p q (loop round fuel next q) (omega (arith, le)) frame
                (λ b. omega arith) (ih next q (omega (arith, le, short)) (omega (arith, le, l)))
          behind ih (ok (stop b, q)) (le, frame) = (le, frame)
          behind ih (err e) own = own

-- Operators that are tokens to take.
abbrev pub Heavy : List (TokenKind × BinOp) → Type 0
Heavy [] = Unit
Heavy ((k, op) ∷ ops) = (weight k ≡ 1) × Heavy ops

module _ {F S : Type 0} ⦃tokens : Tokens F S⦄ ⦃laws : TokenLaws F S tokens⦄ where
  pub first_match-Keeps :
      {n : ℕ} (ops : List (TokenKind × BinOp))
      → Heavy ops
      → Keeps {F = F} {S = S} found_takes n (first_match ops)
  unfolding first_match
  first_match-Keeps [] h = pure-Keeps found_takes none (omega arith)
  first_match-Keeps {n = n} ((k, op) ∷ ops) (heavy, h) = record {
    ends = λ p l.
        if_token_ends (Ends found_takes p) k (λ _. pure (some op)) (first_match ops) p
          (λ e own. own)
          (λ t r same le frame free. (omega (arith, le, kind_weight t.kind k same heavy), frame))
          (λ q le frame free.
            Ends-after found_takes found_takes 0 p q (first_match ops q) (omega (arith, le)) frame
              (λ a. omega arith) ((first_match-Keeps {n = n} ops h).ends q (omega (arith, le, l))));
  }

  pub found-Keeps :
      {A : Type 0} {n : ℕ} (ops : List (TokenKind × BinOp)) (f : Option BinOp → Parsing F S A)
      (w : A → ℕ)
      → ((a : A) → w a ≤ 1)
      → Heavy ops
      → ((op : BinOp) → Keeps stays n (f (some op)))
      → Keeps w n (f none)
      → Keeps w n (first_match ops >>= f)
  found-Keeps {n = n} ops f w one heavy here there = record {
    ends = λ p l. go p l (first_match ops p) ((first_match-Keeps ops heavy).ends p l);
  }
    where
      go :
          (p : Parser F S)
          → size p < n
          → (x : Result ParseError (Option BinOp × Parser F S)) → Ends found_takes p x
          → Ends w p (continue x f)
      go p l (ok (some op, q)) (le, frame) =
          Ends-after w stays 1 p q (f (some op) q) le frame (λ a. omega (arith, one a))
            ((here op).ends q (omega (arith, le, l)))
      go p l (ok (none, q)) (le, frame) =
          Ends-after w w 0 p q (f none q) le frame (λ a. omega arith)
            (there.ends q (omega (arith, le, l)))
      go p l (err e) own = own
