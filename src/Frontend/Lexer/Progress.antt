-- ===== src/Frontend/Lexer/Progress.antt =====
-- The scanner moves forward: each token but the last takes source away, and no loop runs out of fuel.
use luajit.Common.{
  ℕ, suc, ◌+◌, ◌-◌, ◌*◌, ◌≤◌, refl, arith, not, ◌&&◌, ◌||◌, List, [], ◌∷◌, ◌++◌, length, take, ◌==◌,
  if◌then◌else◌, Option, none, some, ltb,
}
use luajit.Common.Result.{Result, ok, err}
use luajit.Frontend.Lexer.Token.{LexError}
use luajit.Frontend.Lexer.State.{
  Lexer, is_newline, is_digit, is_xdigit, is_blank, peek_at, peek_char, eos, curr_is_newline,
  advance, taken, scan_while, skip_equals, incline, Round, again, stop, loop, fuel_for,
}
use luajit.Frontend.Lexer.Skip.{
  comment_round, skip_comment, skip_round, skip_whitespace_and_comments,
}
use luajit.Frontend.Lexer.Number.{hexval, decimal}
use luajit.Frontend.Lexer.Strings.{
  Reading, simple_escape, hex_escape, code_point, unicode_escape, z_round, decimal_escape,
  other_escape, escape, string_round, lex_string, long_round, lex_long_string,
}
use luajit.Frontend.Lexer.Measure.{
  size, cases, Moves, RoundMoves, then-Moves, loop-Moves, advance_le, advance_lt, advance_inside,
  advance_by_le, scan_while_le, skip_equals_le, incline_lt,
}

abbrev Steps : ℕ → Result LexError (Round Lexer Lexer) → Type 0
Steps = RoundMoves size size

comment_round-Steps : (level : ℕ) (l : Lexer) → Steps (size l) (comment_round level l)
unfolding comment_round
comment_round-Steps level l =
    cases (Steps (size l)) (eos l) (λ _ e. cc)
      (λ more.
        cases (Steps (size l)) (curr_is_newline l) (λ newline. incline_lt l newline)
          (λ _.
            cases (Steps (size l)) (peek_char l == b']')
              (λ _.
                let (lvl, behind) = skip_equals (advance l) in
                let left : size behind ≤ size (advance l) = skip_equals_le (advance l) in
                cases (Steps (size l)) (lvl == level && peek_char behind == b']')
                  (λ _. omega (arith, advance_le behind, left, advance_le l))
                  (λ _. omega (arith, left, advance_inside l more)))
              (λ _. advance_inside l more)))

skip_comment-Moves : (l : Lexer) → Moves size (size l) (skip_comment l)
unfolding skip_comment
skip_comment-Moves l =
    cases (Moves size (size l)) (peek_char l == b'[')
      (λ _.
        let (level, behind) = skip_equals (advance l) in
        let left : size behind ≤ size (advance l) = skip_equals_le (advance l) in
        cases (Moves size (size l)) (peek_char behind == b'[')
          (λ _.
            loop-Moves size size (comment_round level) (comment_round-Steps level)
              (fuel_for (advance behind)) (size l) (advance behind) (omega arith)
              (omega (arith, advance_le behind, left, advance_le l)))
          (λ _. omega (arith, scan_while_le (λ c. not (is_newline c)) behind, left, advance_le l)))
      (λ _. scan_while_le (λ c. not (is_newline c)) l)

skip_round-Steps : (l : Lexer) → Steps (size l) (skip_round l)
unfolding skip_round
skip_round-Steps l =
    cases (Steps (size l)) (is_blank (peek_char l)) (λ blank. advance_lt is_blank l refl blank)
      (λ _.
        cases (Steps (size l)) (curr_is_newline l) (λ newline. incline_lt l newline)
          (λ _.
            cases (Steps (size l)) (peek_char l == b'-' && peek_at 1 l == b'-')
              (λ dashes.
                then-Moves size (Steps (size l)) _ (skip_comment (advance (advance l))) _ (λ e h. h)
                  (skip_comment-Moves (advance (advance l)))
                  (λ behind left. omega (
                    arith,
                    left,
                    advance_le (advance l),
                    advance_lt (λ c. c == b'-' && peek_at 1 l == b'-') l refl dashes,
                  )))
              (λ _. omega arith)))

pub skip-Moves : (l : Lexer) → Moves size (size l) (skip_whitespace_and_comments l)
unfolding skip_whitespace_and_comments
skip-Moves l =
    loop-Moves size size skip_round skip_round-Steps (fuel_for l) (size l) l (omega arith)
      (omega arith)

abbrev pub read_size : Reading → ℕ
read_size r = size r.1

abbrev Reads : ℕ → Result LexError (Round Reading Reading) → Type 0
Reads = RoundMoves read_size read_size

-- An escape behind a backslash and one more character leaves no more than there was.
abbrev Kept : ℕ → Result LexError (Round Reading Reading) → Type 0
Kept n r = Reads (suc n) r

hex_escape-Kept : (out : List ℕ) (l : Lexer) → Kept (size l) (hex_escape out l)
unfolding hex_escape
hex_escape-Kept out l =
    cases (Kept (size l)) (eos l || not (is_xdigit (peek_char l))) (λ _ e. cc)
      (λ _.
        cases (Kept (size l)) (eos (advance l) || not (is_xdigit (peek_char (advance l))))
          (λ _ e. cc) (λ _. omega (arith, advance_le l, advance_le (advance l))))

code_point-Moves : (cp : ℕ) (hs : List ℕ) → Moves (λ _. 0) 0 (code_point cp hs)
unfolding code_point
code_point-Moves cp [] = omega arith
code_point-Moves cp (h ∷ hs) =
    cases (Moves (λ _. 0) 0) (ltb 0x10FFFF (cp * 16 + hexval h)) (λ _ e. cc)
      (λ _. code_point-Moves (cp * 16 + hexval h) hs)

unicode_escape-Kept : (out : List ℕ) (l : Lexer) → Kept (size l) (unicode_escape out l)
unfolding unicode_escape
unicode_escape-Kept out l =
    let inside = advance l in
    let (digits, behind) = scan_while is_xdigit inside in
    cases (Kept (size l)) (not (peek_char l == b'{')) (λ _ e. cc)
      (λ _.
        cases (Kept (size l)) (eos inside || not (is_xdigit (peek_char inside))) (λ _ e. cc)
          (λ _.
            then-Moves (λ _. 0) (Kept (size l)) 0 (code_point 0 digits) _ (λ e h. h)
              (code_point-Moves 0 digits)
              (λ cp _.
                cases (Kept (size l)) (not (peek_char behind == b'}')) (λ _ e. cc)
                  (λ _.
                    omega
                      (arith, advance_le l, advance_le behind, scan_while_le is_xdigit inside)))))

z_round-Steps : (l : Lexer) → Steps (size l) (z_round l)
unfolding z_round
z_round-Steps l =
    cases (Steps (size l)) (is_blank (peek_char l)) (λ blank. advance_lt is_blank l refl blank)
      (λ _.
        cases (Steps (size l)) (curr_is_newline l) (λ newline. incline_lt l newline)
          (λ _. omega arith))

other_escape-Kept : (e : ℕ) (out : List ℕ) (l : Lexer) → Kept (size l) (other_escape e out l)
unfolding other_escape decimal_escape
other_escape-Kept e out l =
    cases (Kept (size l)) (e == b'x') (λ _. hex_escape-Kept out l)
      (λ _.
        cases (Kept (size l)) (e == b'u') (λ _. unicode_escape-Kept out l)
          (λ _.
            cases (Kept (size l)) (e == b'z')
              (λ _.
                then-Moves size (Kept (size l)) (size l) (loop z_round (fuel_for l) l) _ (λ e h. h)
                  (loop-Moves size size z_round z_round-Steps (fuel_for l) (size l) l (omega arith)
                    (omega arith))
                  (λ behind left. omega (arith, left)))
              (λ _.
                cases (Kept (size l)) (is_digit e)
                  (λ _.
                    let more_digits = take 2 (taken is_digit l.src) in
                    cases (Kept (size l)) (ltb 255 (decimal (e - b'0') more_digits)) (λ _ e. cc)
                      (λ _. omega (arith, advance_by_le (length more_digits) l)))
                  (λ _ e. cc))))

escape-Kept : (e : ℕ) (out : List ℕ) (l : Lexer) → Kept (size l) (escape e out l)
unfolding escape
escape-Kept e out l = go (simple_escape e)
  where
    go :
        (o : Option ℕ)
        → Kept
            (size l)
            (elim o [ some c ↦ ok (again (out ++ (c ∷ []), l)) | none ↦ other_escape e out l ])
    go (some c) = omega arith
    go none = other_escape-Kept e out l

string_round-Reads : (quote : ℕ) (r : Reading) → Reads (read_size r) (string_round quote r)
unfolding string_round
string_round-Reads quote (out, l) =
    let behind = advance l in
    cases (Reads (size l)) (eos l) (λ _ e. cc)
      (λ more.
        cases (Reads (size l)) (curr_is_newline l) (λ _ e. cc)
          (λ _.
            cases (Reads (size l)) (peek_char l == quote) (λ _. advance_le l)
              (λ _.
                cases (Reads (size l)) (not (peek_char l == b'\\')) (λ _. advance_inside l more)
                  (λ _.
                    cases (Reads (size l)) (eos behind) (λ _ e. cc)
                      (λ inside.
                        cases (Reads (size l)) (curr_is_newline behind)
                          (λ newline. omega (arith, incline_lt behind newline, advance_le l))
                          (λ _.
                            widened (size (advance behind)) (size l)
                              (escape (peek_char behind) out (advance behind))
                              (omega (arith, advance_inside behind inside, advance_inside l more))
                              (escape-Kept (peek_char behind) out (advance behind))))))))
  where
    widened :
        (m n : ℕ) (r : Result LexError (Round Reading Reading)) → suc m ≤ n → Kept m r → Reads n r
    widened m n (ok (again r)) le h = omega (arith, le, h)
    widened m n (ok (stop r)) le h = omega (arith, le, h)
    widened m n (err e) le h = h

pub lex_string-Moves :
    (quote : ℕ) (l : Lexer) → Moves read_size (size (advance l)) (lex_string quote l)
unfolding lex_string
lex_string-Moves quote l =
    loop-Moves read_size read_size (string_round quote) (string_round-Reads quote) (fuel_for l)
      (size (advance l)) ([], advance l) (omega (arith, advance_le l)) (omega arith)

long_round-Reads : (level : ℕ) (r : Reading) → Reads (read_size r) (long_round level r)
unfolding long_round
long_round-Reads level (out, l) =
    let (lvl, last) = skip_equals (advance l) in
    cases (Reads (size l)) (eos l) (λ _ e. cc)
      (λ more.
        cases (Reads (size l)) (curr_is_newline l) (λ newline. incline_lt l newline)
          (λ _.
            cases (Reads (size l)) (not (peek_char l == b']')) (λ _. advance_inside l more)
              (λ _.
                cases (Reads (size l)) (lvl == level && peek_char last == b']')
                  (λ _. omega (arith, advance_le last, skip_equals_le (advance l), advance_le l))
                  (λ _. advance_inside l more))))

pub lex_long_string-Moves :
    (level : ℕ) (l : Lexer) → Moves read_size (size l) (lex_long_string level l)
unfolding lex_long_string
lex_long_string-Moves level l =
    let start = if curr_is_newline l then incline l else l in
    loop-Moves read_size read_size (long_round level) (long_round-Reads level) (fuel_for start)
      (size l) ([], start) (omega arith)
      (cases (λ (x : Lexer). size x ≤ size l) (curr_is_newline l)
        (λ newline. omega (arith, incline_lt l newline)) (λ _. omega arith))
