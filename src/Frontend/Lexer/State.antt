-- ===== src/Frontend/Lexer/State.antt =====
-- The scanner's state and the reading of characters, src/frontend/lexer.cpp. `src` is the source from
-- `pos_` on. `get` is `peek_char` and `advance`.
use luajit.Common.{
  ℕ, zero, suc, Bool, true, false, not, ◌&&◌, ◌||◌, List, [], ◌∷◌, length, leb, ◌==◌, if◌then◌else◌,
  get_or,
}
use luajit.Common.Result.{Result, ok, err, ◌>>=◌}
use luajit.Frontend.Lexer.Token.{LexError, out_of_fuel}

pub record Lexer : Type 0 where
  pub src : List ℕ
  pub line : ℕ
  pub col : ℕ

abbrev pub is_newline : ℕ → Bool
is_newline c = c == b'\n' || c == b'\r'

abbrev pub between : ℕ → ℕ → ℕ → Bool
between a b c = leb a c && leb c b

abbrev pub is_digit : ℕ → Bool
is_digit c = between b'0' b'9' c

abbrev pub is_xdigit : ℕ → Bool
is_xdigit c = is_digit c || (between b'a' b'f' c || between b'A' b'F' c)

abbrev pub is_alpha : ℕ → Bool
is_alpha c = between b'a' b'z' c || between b'A' b'Z' c

-- ' ', tab, form feed and vertical tab
abbrev pub is_blank : ℕ → Bool
is_blank c = c == 32 || (c == 9 || (c == 12 || c == 11))

abbrev pub peek_at : ℕ → Lexer → ℕ
peek_at n l = get_or l.src n 0

abbrev pub peek_char : Lexer → ℕ
peek_char l = peek_at 0 l

abbrev pub is_end : List ℕ → Bool
is_end [] = true
is_end (c ∷ s) = false

abbrev pub eos : Lexer → Bool
eos l = is_end l.src

abbrev pub curr_is_newline : Lexer → Bool
curr_is_newline l = is_newline (peek_char l)

abbrev pub past : List ℕ → ℕ → ℕ → Lexer
past [] line col = record { src = []; line = line; col = col }
past (c ∷ s) line col = record { src = s; line = line; col = if is_newline c then col else suc col }

unfoldable pub advance : Lexer → Lexer
advance l = past l.src l.line l.col

unfoldable pub advance_by : ℕ → Lexer → Lexer
unfolding advance
advance_by zero l = l
advance_by (suc n) l = advance_by n (advance l)

-- `while (p(peek_char())) get()`, for a test that '\0' fails or that asks for more source: the
-- characters and the state behind them.
abbrev pub taken : (ℕ → Bool) → List ℕ → List ℕ
taken p [] = []
taken p (c ∷ s) = if p c then c ∷ taken p s else []

abbrev pub scan_while : (ℕ → Bool) → Lexer → List ℕ × Lexer
scan_while p l = (taken p l.src, advance_by (length (taken p l.src)) l)

-- The number of '=' signs, and the state behind them.
abbrev pub skip_equals : Lexer → ℕ × Lexer
skip_equals l = (length (taken (λ c. c == b'=') l.src), (scan_while (λ c. c == b'=') l).1)

unfoldable pub incline : Lexer → Lexer
unfolding advance
incline l =
    let next = advance l in
    let behind =
      if curr_is_newline next && not (peek_char next == peek_char l) then advance next else next in
    record behind { line = suc behind.line; col = 1 }

-- One round of a loop ends it or goes on.
pub data Round (S A : Type 0) : Type 0 where
  again : S → Round S A
  stop : A → Round S A

-- `for (;;)`
unfoldable pub loop : {S A : Type 0} → (S → Result LexError (Round S A)) → ℕ → S → Result LexError A
loop round zero s = err out_of_fuel
loop round (suc fuel) s =
    round s >>= (λ r. elim r [ again next ↦ loop round fuel next | stop a ↦ ok a ])

-- Fuel for a loop that reads at least one character in each round.
abbrev pub fuel_for : Lexer → ℕ
fuel_for l = suc (length l.src)
