-- ===== src/Frontend/Parser/Measure.antt =====
-- What a step of the parser does to the tokens that are left and to its counters, and the rules by which
-- this follows for the steps' compositions.
use luajit.Common.{
  ℕ, suc, ◌+◌, ◌≤◌, ◌<◌, ◌≡◌, ◌≢◌, refl, ap, ◌∙◌, arith, if◌then◌else◌, Option, none, some,
}
use luajit.Common.Result.{Result, ok, err}
use luajit.Frontend.Lexer.Token
use luajit.Frontend.Lexer.Token.{Token, TokenKind, LexError, end}
use luajit.Frontend.Lexer.State.{Round, again, stop}
use luajit.Frontend.Parser.State.{
  is_kind, Tokens, ParseError, lexical, expected, unexpected_symbol, syntax_error, too_many_levels,
  too_many_locals, expected_method_arguments, unclosed_table, unget_overflow, out_of_fuel, Parser,
  Parsing, pure, continue, ◌>>=◌, lexed, peek, next,
}

-- A token other than the last, which can be read again and again.
abbrev pub weight : TokenKind → ℕ
weight k = if is_kind k end then 0 else 1

module _ {F S : Type 0} where
  abbrev pub NextTakes : (S → ℕ) → ℕ → Result LexError (Token F × S) → Type 0
  NextTakes left n (ok (t, s)) = left s + weight t.kind ≤ n
  NextTakes left n (err e) = e ≢ Token.out_of_fuel

  abbrev pub PeekSees :
      (S → Result LexError (Token F × S)) → (S → ℕ) → ℕ → Result LexError (Token F × S) → Type 0
  PeekSees step left n (ok (t, s)) =
      (left s ≤ n) × ((s' : S) × ((step s ≡ ok (t, s')) × (left s' + weight t.kind ≤ left s)))
  PeekSees step left n (err e) = e ≢ Token.out_of_fuel

abbrev pub pending : {F : Type 0} → Option (Token F) → ℕ
pending none = 0
pending (some t) = weight t.kind

-- What the parser relies on: each token but the last takes from what is left, and the token that was
-- looked at is the next one.
pub record TokenLaws (F S : Type 0) (tokens : Tokens F S) : Type 0 where
  pub left : S → ℕ
  pub next_takes : (s : S) → NextTakes left (left s) (tokens.next_token s)
  pub peek_sees : (s : S) → PeekSees tokens.next_token left (left s) (tokens.peek_token s)

-- An error that the source has, not one of the parser itself.
abbrev pub Own : ParseError → Type 0
Own (lexical e) = e ≢ Token.out_of_fuel
Own (expected k) = Unit
Own unexpected_symbol = Unit
Own syntax_error = Unit
Own too_many_levels = Unit
Own too_many_locals = Unit
Own expected_method_arguments = Unit
Own unclosed_table = Unit
Own unget_overflow = ⊥
Own out_of_fuel = ⊥

abbrev pub stays : {A : Type 0} → A → ℕ
stays a = 0

abbrev pub takes : {A : Type 0} → A → ℕ
takes a = 1

abbrev pub round_takes : {A B : Type 0} → Round A B → ℕ
round_takes (again a) = 1
round_takes (stop b) = 0

abbrev pub found_takes : {A : Type 0} → Option A → ℕ
found_takes (some a) = 1
found_takes none = 0

module _ {F S : Type 0} ⦃tokens : Tokens F S⦄ ⦃laws : TokenLaws F S tokens⦄ where
  abbrev pub size : Parser F S → ℕ
  size p = laws.left p.lex + pending p.ungot

  abbrev pub Frame : Parser F S → Parser F S → Type 0
  Frame p q = (q.c_calls ≡ p.c_calls) × (q.nactvar_stack ≡ p.nactvar_stack)

  abbrev pub Ends :
      {A : Type 0} → (A → ℕ) → Parser F S → Result ParseError (A × Parser F S) → Type 0
  Ends w p (ok (a, q)) = (size q + w a ≤ size p) × Frame p q
  Ends w p (err e) = Own e

  -- With fewer than n tokens left, the step ends with an error of the source or with a value for which
  -- it has taken w tokens, and the levels are as before.
  pub record Keeps {A : Type 0} (w : A → ℕ) (n : ℕ) (m : Parsing F S A) : Type 0 where
    pub ends : (p : Parser F S) → size p < n → Ends w p (m p)

  module _ {A : Type 0} where
    pub Ends-after :
        (w v : A → ℕ) (k : ℕ) (p q : Parser F S) (x : Result ParseError (A × Parser F S))
        → size q + k ≤ size p
        → Frame p q
        → ((a : A) → w a ≤ k + v a)
        → Ends v q x
        → Ends w p x
    Ends-after w v k p q (ok (a, r)) le (c, s) h (l, (d, t)) =
        (omega (arith, le, l, h a), (d ∙ c, t ∙ s))
    Ends-after w v k p q (err e) le frame h own = own

    pub pure-Keeps : {n : ℕ} (w : A → ℕ) (a : A) → w a ≤ 0 → Keeps w n (pure a)
    pure-Keeps w a h = record { ends = λ p l. (omega (arith, h), (refl, refl)) }

    pub weaken :
        {n : ℕ} {m : Parsing F S A} (w v : A → ℕ)
        → ((a : A) → w a ≤ v a)
        → Keeps v n m
        → Keeps w n m
    weaken {m = m} w v h k = record {
      ends = λ p l.
          Ends-after w v 0 p p (m p) (omega arith) (refl, refl) (λ a. omega (arith, h a))
            (k.ends p l);
    }

    pub narrow : {n : ℕ} {m : Parsing F S A} {w : A → ℕ} → Keeps w (suc n) m → Keeps w n m
    narrow k = record { ends = λ p l. k.ends p (omega (arith, l)) }

  module _ {A B : Type 0} where
    pub then-Keeps :
        {n : ℕ} {m : Parsing F S A} {f : A → Parsing F S B} (w : B → ℕ)
        → Keeps stays n m
        → ((a : A) → Keeps w n (f a))
        → Keeps w n (m >>= f)
    then-Keeps {n = n} {m = m} {f = f} w h g = record { ends = λ p l. go p l (m p) (h.ends p l) }
      where
        go :
            (p : Parser F S)
            → size p < n
            → (x : Result ParseError (A × Parser F S)) → Ends stays p x
            → Ends w p (continue x f)
        go p l (ok (a, q)) (le, frame) =
            Ends-after w w 0 p q (f a q) le frame (λ b. omega arith)
              ((g a).ends q (omega (arith, le, l)))
        go p l (err e) own = own

    -- What stands behind a token that was taken has one token less, and fuel for that.
    pub taken-Keeps :
        {n : ℕ} {m : Parsing F S A} {f : A → Parsing F S B} (w : B → ℕ)
        → ((b : B) → w b ≤ 1)
        → Keeps takes (suc n) m
        → ((a : A) → Keeps stays n (f a))
        → Keeps w (suc n) (m >>= f)
    taken-Keeps {n = n} {m = m} {f = f} w one h g = record {
      ends = λ p l. go p l (m p) (h.ends p l);
    }
      where
        go :
            (p : Parser F S)
            → size p < suc n
            → (x : Result ParseError (A × Parser F S)) → Ends takes p x
            → Ends w p (continue x f)
        go p l (ok (a, q)) (le, frame) =
            Ends-after w stays 1 p q (f a q) le frame (λ b. omega (arith, one b))
              ((g a).ends q (omega (arith, le, l)))
        go p l (err e) own = own

  -- A look at the next token: `next` gives the same one, whatever the count of levels.
  abbrev pub Looked : Parser F S → Result ParseError (Token F × Parser F S) → Type 0
  Looked p (ok (t, q)) =
      (size q ≤ size p)
      × (Frame p q
          × ((q.ungot ≡ p.ungot)
              × ((c : ℕ)
                  → (r : Parser F S) × ((next (record q { c_calls = c }) ≡ ok (t, r))
                      × ((size r + weight t.kind ≤ size q)
                          × ((r.c_calls ≡ c)
                              × ((r.nactvar_stack ≡ p.nactvar_stack) × (r.ungot ≡ none))))))))
  Looked p (err e) = Own e

  pub peek-Looked : (p : Parser F S) → Looked p (peek p)
  unfolding peek next
  peek-Looked p = go p.ungot
    where
      behind :
          (r : Result LexError (Token F × S))
          → PeekSees tokens.next_token laws.left (laws.left p.lex) r
          → Looked (record p { ungot = none }) (lexed (record p { ungot = none }) r)
      behind (ok (t, s)) (le, (s', (same, taken))) = (
        omega (arith, le),
        (
          (refl, refl),
          (
            refl,
            λ c. (
              record p { lex = s'; ungot = none; c_calls = c },
              (
                ap (lexed (record p { lex = s; ungot = none; c_calls = c })) same,
                (omega (arith, taken), (refl, (refl, refl))),
              ),
            ),
          ),
        ),
      )
      behind (err e) own = own

      go : (o : Option (Token F)) → Looked (record p { ungot = o }) (peek (record p { ungot = o }))
      go (some t) = (
        omega arith,
        (
          (refl, refl),
          (
            refl,
            λ c. (
              record p { ungot = none; c_calls = c },
              (refl, (omega arith, (refl, (refl, refl)))),
            ),
          ),
        ),
      )
      go none = behind (tokens.peek_token p.lex) (laws.peek_sees p.lex)
