-- ===== src/Frontend/Lexer/Skip.antt =====
-- White space and comments: `skip_whitespace_and_comments` of src/frontend/lexer.cpp.
use luajit.Common.{ℕ, not, ◌&&◌, ◌==◌, if◌then◌else◌}
use luajit.Common.Result.{Result, ok, err, ◌>>=◌}
use luajit.Frontend.Lexer.Token.{LexError, unfinished_long_comment}
use luajit.Frontend.Lexer.State.{
  Lexer, is_newline, is_blank, peek_at, peek_char, eos, curr_is_newline, advance, advance_by,
  scan_while, skip_equals, incline, Round, again, stop, loop, fuel_for,
}

-- One round inside a long comment.
unfoldable pub comment_round : ℕ → Lexer → Result LexError (Round Lexer Lexer)
unfolding incline advance_by
comment_round level l =
    if eos l
    then err unfinished_long_comment
    else if curr_is_newline l
    then ok (again (incline l))
    else if peek_char l == b']'
    then (let (lvl, behind) = skip_equals (advance l) in
        if lvl == level && peek_char behind == b']'
        then ok (stop (advance behind))
        else ok (again behind))
    else ok (again (advance l))

abbrev pub skip_line : Lexer → Lexer
skip_line l = (scan_while (λ c. not (is_newline c)) l).1

-- Behind the two dashes.
unfoldable pub skip_comment : Lexer → Result LexError Lexer
unfolding comment_round loop
skip_comment l =
    if peek_char l == b'['
    then (let (level, behind) = skip_equals (advance l) in
        if peek_char behind == b'['
        then loop (comment_round level) (fuel_for (advance behind)) (advance behind)
        else ok (skip_line behind))
    else ok (skip_line l)

unfoldable pub skip_round : Lexer → Result LexError (Round Lexer Lexer)
unfolding skip_comment
skip_round l =
    if is_blank (peek_char l)
    then ok (again (advance l))
    else if curr_is_newline l
    then ok (again (incline l))
    else if peek_char l == b'-' && peek_at 1 l == b'-'
    then skip_comment (advance (advance l)) >>= (λ behind. ok (again behind))
    else ok (stop l)

unfoldable pub skip_whitespace_and_comments : Lexer → Result LexError Lexer
unfolding skip_round
skip_whitespace_and_comments l = loop skip_round (fuel_for l) l
