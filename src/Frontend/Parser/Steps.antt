-- ===== src/Frontend/Parser/Steps.antt =====
-- What the parser's basic steps do to the tokens that are left and to its counters.
use luajit.Common.{
  ℕ, suc, ◌+◌, ◌≤◌, ◌≡◌, ap, ◌∙◌, arith, Bool, true, false, Bool-cases, inl, inr, List, [], ◌∷◌,
  ◌==◌, ==_iff, if◌then◌else◌, none, some,
}
use luajit.Common.Result.{Result, ok, err}
use luajit.Frontend.Lexer.Token.{Token, TokenKind, end}
use luajit.Frontend.Lexer.State.{Round, again, stop}
use luajit.Frontend.Parser.State.{
  kind_code, is_kind, Tokens, ParseError, expected, Parser, Parsing, pure, panic, continue, ◌>>=◌,
  peek, next, fail, check, check_any, accept, if_token, expect,
}
use luajit.Frontend.Parser.Measure.{
  weight, TokenLaws, Own, stays, takes, round_takes, size, Frame, Ends, Keeps, Ends-after,
  pure-Keeps, then-Keeps, Looked, peek-Looked,
}

pub kind_weight : (j k : TokenKind) → is_kind j k ≡ true → weight k ≡ 1 → weight j ≡ 1
kind_weight j k h one =
    ap (λ (c : ℕ). if c == kind_code end then 0 else 1) ((==_iff (kind_code j) (kind_code k)).0 h)
    ∙ one

abbrev pub stays_le : {A : Type 0} (a : A) → stays a ≤ 1
stays_le a = omega arith

abbrev pub takes_le : {A : Type 0} (a : A) → takes a ≤ 1
takes_le a = omega arith

pub round_le : {A B : Type 0} (r : Round A B) → round_takes r ≤ 1
round_le (again a) = omega arith
round_le (stop b) = omega arith

module _ {F S : Type 0} ⦃tokens : Tokens F S⦄ ⦃laws : TokenLaws F S tokens⦄ where
  pub fail_own :
      {A : Type 0} (e : ParseError) (p : Parser F S)
      (P : Result ParseError (A × Parser F S) → Type 0)
      → ((e : ParseError) → Own e → P (err e))
      → Own e
      → P (fail e p)
  unfolding fail
  fail_own e p P bad own = go (peek p) (peek-Looked p)
    where
      go :
          (x : Result ParseError (Token F × Parser F S))
          → Looked p x
          → P (continue x (λ t. panic e))
      go (ok (t, q)) h = bad e own
      go (err e) own = bad e own

  pub fail-Keeps :
      {A : Type 0} {n : ℕ} (w : A → ℕ) (e : ParseError) → Own e → Keeps {F = F} {S = S} w n (fail e)
  fail-Keeps w e own = record { ends = λ p l. fail_own e p (Ends w p) (λ e own. own) own }

  pub check-Keeps : {n : ℕ} (k : TokenKind) → Keeps {F = F} {S = S} stays n (check k)
  unfolding check
  check-Keeps k = record { ends = λ p l. go p (peek p) (peek-Looked p) }
    where
      go :
          (p : Parser F S) (x : Result ParseError (Token F × Parser F S))
          → Looked p x
          → Ends stays p (continue x (λ t. pure (is_kind t.kind k)))
      go p (ok (t, q)) (le, (frame, (free, h))) = (omega (arith, le), frame)
      go p (err e) own = own

  pub if-Keeps :
      {A : Type 0} {n : ℕ} {x y : Parsing F S A} (w : A → ℕ) (b : Bool)
      → Keeps w n x
      → Keeps w n y
      → Keeps w n (if b then x else y)
  if-Keeps w true h g = h
  if-Keeps w false h g = g

  pub check_any-Keeps : {n : ℕ} (ks : List TokenKind) → Keeps {F = F} {S = S} stays n (check_any ks)
  unfolding check_any
  check_any-Keeps [] = pure-Keeps stays false (omega arith)
  check_any-Keeps (k ∷ ks) =
      then-Keeps stays (check-Keeps k)
        (λ b. if-Keeps stays b (pure-Keeps stays true (omega arith)) (check_any-Keeps ks))

  module _ {A : Type 0} where
    -- The ends of `if_token`: an error of the source, the branch behind the token, or the other one.
    pub if_token_ends :
        (P : Result ParseError (A × Parser F S) → Type 0) (k : TokenKind)
        (f : Token F → Parsing F S A) (other : Parsing F S A) (p : Parser F S)
        → ((e : ParseError) → Own e → P (err e))
        → ((t : Token F) (r : Parser F S)
            → is_kind t.kind k ≡ true
            → size r + weight t.kind ≤ size p
            → Frame p r
            → r.ungot ≡ none
            → P (f t r))
        → ((q : Parser F S) → size q ≤ size p → Frame p q → q.ungot ≡ p.ungot → P (other q))
        → P (if_token k f other p)
    unfolding if_token accept check
    if_token_ends P k f other p bad here there = go (peek p) (peek-Looked p)
      where
        go :
            (x : Result ParseError (Token F × Parser F S))
            → Looked p x
            → P (
                continue
                  (continue
                    (continue x (λ t. pure (is_kind t.kind k)))
                    (λ b. if b then next >>= (λ t. pure (some t)) else pure none))
                  (λ o. elim o [ some t ↦ f t | none ↦ other ]))
        go (ok (t, q)) (le, ((c, s), (free, h))) = elim (Bool-cases (is_kind t.kind k)) [
          | inl same ↦
              let (r, (taken, (less, (rc, (rs, ru))))) = h q.c_calls in
              rw (same, taken) (here t r same (omega (arith, less, le)) (rc ∙ c, rs) ru)
          | inr other_kind ↦ rw other_kind (there q le (c, s) free)
        ]
        go (err e) own = bad e own

    pub token-Keeps :
        {n : ℕ} {f : Token F → Parsing F S A} {other : Parsing F S A} (k : TokenKind) (w : A → ℕ)
        → ((t : Token F) → Keeps w n (f t))
        → Keeps w n other
        → Keeps w n (if_token k f other)
    token-Keeps {f = f} {other = other} k w here there = record {
      ends = λ p l.
          if_token_ends (Ends w p) k f other p (λ e own. own)
            (λ t r same le frame free.
              Ends-after w w 0 p r (f t r) (omega (arith, le)) frame (λ a. omega arith)
                ((here t).ends r (omega (arith, le, l))))
            (λ q le frame free.
              Ends-after w w 0 p q (other q) (omega (arith, le)) frame (λ a. omega arith)
                (there.ends q (omega (arith, le, l))));
    }

    -- The branch behind the token has one token less.
    behind_token :
        (n m : ℕ) (f : Token F → Parsing F S A) (other : Parsing F S A) (k : TokenKind) (w : A → ℕ)
        → n ≤ suc m
        → ((a : A) → w a ≤ 1)
        → weight k ≡ 1
        → ((t : Token F) → Keeps stays m (f t))
        → Keeps w n other
        → Keeps w n (if_token k f other)
    behind_token n m f other k w near one heavy here there = record {
      ends = λ p l.
          if_token_ends (Ends w p) k f other p (λ e own. own)
            (λ t r same le frame free.
              let less : size r + 1 ≤ size p = omega (arith, le, kind_weight t.kind k same heavy) in
              Ends-after w stays 1 p r (f t r) less frame (λ a. omega (arith, one a))
                ((here t).ends r (omega (arith, less, l, near))))
            (λ q le frame free.
              Ends-after w w 0 p q (other q) (omega (arith, le)) frame (λ a. omega arith)
                (there.ends q (omega (arith, le, l))));
    }

    pub token_first-Keeps :
        {n : ℕ} {f : Token F → Parsing F S A} {other : Parsing F S A} (k : TokenKind) (w : A → ℕ)
        → ((a : A) → w a ≤ 1)
        → weight k ≡ 1
        → ((t : Token F) → Keeps stays n (f t))
        → Keeps w (suc n) other
        → Keeps w (suc n) (if_token k f other)
    token_first-Keeps {n = n} {f = f} {other = other} k w =
        behind_token (suc n) n f other k w (omega arith)

    -- It has the same fuel here.
    pub token_taken-Keeps :
        {n : ℕ} {f : Token F → Parsing F S A} {other : Parsing F S A} (k : TokenKind) (w : A → ℕ)
        → ((a : A) → w a ≤ 1)
        → weight k ≡ 1
        → ((t : Token F) → Keeps stays n (f t))
        → Keeps w n other
        → Keeps w n (if_token k f other)
    token_taken-Keeps {n = n} {f = f} {other = other} k w =
        behind_token n n f other k w (omega arith)

  pub expect-Keeps : {n : ℕ} (k : TokenKind) → Keeps {F = F} {S = S} stays n (expect k)
  unfolding expect
  expect-Keeps k =
      token-Keeps k stays (λ t. pure-Keeps stays t (omega arith)) (fail-Keeps stays (expected k) tt)

  pub expect_taken-Keeps :
      {n : ℕ} (k : TokenKind) → weight k ≡ 1 → Keeps {F = F} {S = S} takes n (expect k)
  unfolding expect
  expect_taken-Keeps k heavy = record {
    ends = λ p l.
        if_token_ends (Ends takes p) k pure (fail (expected k)) p (λ e own. own)
          (λ t r same le frame free. (omega (arith, le, kind_weight t.kind k same heavy), frame))
          (λ q le frame free. fail_own (expected k) q (Ends takes p) (λ e own. own) tt);
  }
