-- ===== src/Frontend/Lexer/Measure.antt =====
-- How much source the steps of the scanner leave, and the loops that leave less in each round.
use luajit.Common.{
  ℕ, zero, suc, ◌≤◌, ◌<◌, ◌≡◌, ◌≢◌, refl, sym, ap, ◌∙◌, arith, Bool, true, false, not, ◌&&◌, List,
  [], ◌∷◌, length, ◌==◌, if◌then◌else◌, get_or,
}
use luajit.Common.Result.{Result, ok, err, ◌>>=◌}
use luajit.Frontend.Lexer.Token.{LexError, out_of_fuel}
use luajit.Frontend.Lexer.State.{
  Lexer, is_newline, peek_char, eos, is_end, past, curr_is_newline, advance, advance_by, taken,
  scan_while, skip_equals, incline, Round, again, stop, loop,
}

abbrev pub size : Lexer → ℕ
size l = length l.src

-- A conditional has what both of its branches have.
pub cases :
    {A : Type 0} (P : A → Type 0) (b : Bool) {x y : A}
    → (b ≡ true → P x)
    → (b ≡ false → P y)
    → P (if b then x else y)
cases P true f g = f refl
cases P false f g = g refl

-- A result that measures at most n, or an error of its own.
abbrev pub Moves : {A : Type 0} → (A → ℕ) → ℕ → Result LexError A → Type 0
Moves μ n (ok a) = μ a ≤ n
Moves μ n (err e) = e ≢ out_of_fuel

-- A round that goes on with less than n.
abbrev pub RoundMoves :
    {S A : Type 0} → (S → ℕ) → (A → ℕ) → ℕ → Result LexError (Round S A) → Type 0
RoundMoves μ ν n (ok (again s)) = suc (μ s) ≤ n
RoundMoves μ ν n (ok (stop a)) = ν a ≤ n
RoundMoves μ ν n (err e) = e ≢ out_of_fuel

pub then-Moves :
    {A B : Type 0} (μ : A → ℕ) (P : Result LexError B → Type 0) (n : ℕ) (r : Result LexError A)
    (f : A → Result LexError B)
    → ((e : LexError) → e ≢ out_of_fuel → P (err e))
    → Moves μ n r
    → ((a : A) → μ a ≤ n → P (f a))
    → P (r >>= f)
then-Moves μ P n (ok a) f bad h g = g a h
then-Moves μ P n (err e) f bad h g = bad e h

pub loop-Moves :
    {S A : Type 0} (μ : S → ℕ) (ν : A → ℕ) (round : S → Result LexError (Round S A))
    → ((s : S) → RoundMoves μ ν (μ s) (round s))
    → (fuel n : ℕ) (s : S) → μ s < fuel
    → μ s ≤ n
    → Moves ν n (loop round fuel s)
unfolding loop
loop-Moves μ ν round h zero n s l le = absurd (omega (arith, l))
loop-Moves {S = S} {A = A} μ ν round h (suc fuel) n s l le =
    go (loop-Moves μ ν round h fuel n) (round s) (h s)
  where
    go :
        ((next : S) → μ next < fuel → μ next ≤ n → Moves ν n (loop round fuel next))
        → (r : Result LexError (Round S A)) → RoundMoves μ ν (μ s) r
        → Moves ν n (r >>= (λ r. elim r [ again next ↦ loop round fuel next | stop a ↦ ok a ]))
    go ih (ok (again next)) m = ih next (omega (arith, m, l)) (omega (arith, m, le))
    go ih (ok (stop a)) m = omega (arith, m, le)
    go ih (err e) m = m

past_le : (s : List ℕ) (line col : ℕ) → length (past s line col).src ≤ length s
past_le [] line col = omega arith
past_le (c ∷ s) line col = omega arith

past_lt :
    (p : ℕ → Bool) (s : List ℕ) (line col : ℕ)
    → p 0 ≡ false
    → p (get_or s 0 0) ≡ true
    → suc (length (past s line col).src) ≤ length s
past_lt p [] line col fails here = absurd (differ (sym fails ∙ here))
  where
    differ : false ≡ true → ⊥
    differ h = cc
past_lt p (c ∷ s) line col fails here = omega arith

pub advance_le : (l : Lexer) → size (advance l) ≤ size l
unfolding advance
advance_le l = past_le l.src l.line l.col

-- Where the next character passes a test that the end of the source fails.
pub advance_lt :
    (p : ℕ → Bool) (l : Lexer)
    → p 0 ≡ false
    → p (peek_char l) ≡ true
    → suc (size (advance l)) ≤ size l
unfolding advance
advance_lt p l fails here = past_lt p l.src l.line l.col fails here

pub advance_inside : (l : Lexer) → eos l ≡ false → suc (size (advance l)) ≤ size l
unfolding advance
advance_inside l h = go l.src h
  where
    go : (s : List ℕ) → is_end s ≡ false → suc (length (past s l.line l.col).src) ≤ length s
    go [] h = absurd (differ h)
      where
        differ : true ≡ false → ⊥
        differ h = cc
    go (c ∷ s) h = omega arith

pub advance_by_le : (n : ℕ) (l : Lexer) → size (advance_by n l) ≤ size l
unfolding advance_by
advance_by_le zero l = omega arith
advance_by_le (suc n) l = omega (arith, advance_by_le n (advance l), advance_le l)

pub scan_while_lt :
    (p : ℕ → Bool) (l : Lexer)
    → p 0 ≡ false
    → p (peek_char l) ≡ true
    → suc (size (scan_while p l).1) ≤ size l
unfolding advance_by
scan_while_lt p l fails here = go l.src refl here
  where
    go :
        (s : List ℕ)
        → l.src ≡ s
        → p (get_or s 0 0) ≡ true
        → suc (size (advance_by (length (taken p s)) l)) ≤ size l
    go [] e here = absurd (differ (sym fails ∙ here))
      where
        differ : false ≡ true → ⊥
        differ h = cc
    go (c ∷ s) e here = rw here (
        omega
          (arith, advance_by_le (length (taken p s)) (advance l), advance_inside l (ap is_end e)))

pub incline_lt : (l : Lexer) → curr_is_newline l ≡ true → suc (size (incline l)) ≤ size l
unfolding incline
incline_lt l h =
    let next = advance l in
    cases (λ (x : Lexer). suc (size x) ≤ size l)
      (curr_is_newline next && not (peek_char next == peek_char l))
      (λ _. omega (arith, advance_le next, advance_lt is_newline l refl h))
      (λ _. omega (arith, advance_lt is_newline l refl h))

pub scan_while_le : (p : ℕ → Bool) (l : Lexer) → size (scan_while p l).1 ≤ size l
scan_while_le p l = advance_by_le (length (taken p l.src)) l

pub skip_equals_le : (l : Lexer) → size (skip_equals l).1 ≤ size l
skip_equals_le l = scan_while_le (λ c. c == b'=') l
