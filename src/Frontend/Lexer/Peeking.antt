-- ===== src/Frontend/Lexer/Peeking.antt =====
-- `peek` and `next` of src/frontend/lexer.cpp.
use luajit.Common.{◌≡◌, refl, Option, none, some}
use luajit.Common.Result.{Result, ok, err, ◌>>=◌}
use luajit.Frontend.Lexer.Token.{Numerals, Token, LexError}
use luajit.Frontend.Lexer.State.{Lexer}
use luajit.Frontend.Lexer.Scan.{Scanner, next, peek, lex_one}

module _ (F : Type 0) ⦃numerals : Numerals F⦄ where
  -- A token that was looked at is the next one: `next` after `peek` gives the same token or error, and
  -- leaves the scanner in the same state, as `next` alone. A second `peek` changes nothing.
  pub next-peek :
      (s : Scanner F)
      → ((peek s >>= (λ r. next r.1)) ≡ next s) × ((peek s >>= (λ r. peek r.1)) ≡ peek s)
  unfolding next peek
  next-peek s = split s.lexer s.peeked
    where
      scanned :
          (r : Result LexError (Token F × Lexer))
          → ((r >>= (λ (t, behind). ok (t, record { lexer = behind; peeked = some t })))
                >>= (λ (x : Token F × Scanner F). next x.1)
              ≡ (r >>= (λ (t, behind). ok (t, record { lexer = behind; peeked = none }))))
            × ((r >>= (λ (t, behind). ok (t, record { lexer = behind; peeked = some t })))
                  >>= (λ (x : Token F × Scanner F). peek x.1)
                ≡ (r >>= (λ (t, behind). ok (t, record { lexer = behind; peeked = some t }))))
      scanned (ok (t, behind)) = (refl, refl)
      scanned (err e) = (refl, refl)

      split :
          (l : Lexer) (o : Option (Token F))
          → ((peek (record { lexer = l; peeked = o }) >>= (λ r. next r.1))
              ≡ next (record { lexer = l; peeked = o }))
            × ((peek (record { lexer = l; peeked = o }) >>= (λ r. peek r.1))
                ≡ peek (record { lexer = l; peeked = o }))
      split l (some t) = (refl, refl)
      split l none = scanned (lex_one l)
