-- ===== src/Frontend/Parser/Reading.antt =====
-- What the grammar's readings have: fewer tokens behind them, and no sign in front of what binds tighter
-- than one.
use luajit.Common.{ℕ, ◌<◌, refl, arith, [], ◌∷◌, length}
use luajit.Frontend.Lexer.Token.{Token, TokenKind, Numerals, kw_not, hash, minus, tilde}
use luajit.Frontend.Ast.{Expr}
use luajit.Frontend.Parser.Grammar.{
  listed, Level, or_level, and_level, compare_level, bor_level, bxor_level, band_level, shift_level,
  concat_level, add_level, mul_level, unary_level, power_level, simple_level, tighter, level_of,
  IsLeft, as_kind, Atom, a_nil, a_true, a_false, an_integer, a_number, a_string, a_vararg, a_name,
  Reads, atom, parens, power, unary, chained, binary, lift, Input, first,
}
use luajit.Frontend.Parser.Listed.{NoneOf}

-- The levels above those of unary operators.
abbrev IsHigh : Level → Type 0
IsHigh power_level = Unit
IsHigh simple_level = Unit
IsHigh _ = ⊥

IsHigh-tighter : (l : Level) → IsHigh l → IsHigh (tighter l)
IsHigh-tighter or_level h = absurd h
IsHigh-tighter and_level h = absurd h
IsHigh-tighter compare_level h = absurd h
IsHigh-tighter bor_level h = absurd h
IsHigh-tighter bxor_level h = absurd h
IsHigh-tighter band_level h = absurd h
IsHigh-tighter shift_level h = absurd h
IsHigh-tighter concat_level h = absurd h
IsHigh-tighter add_level h = absurd h
IsHigh-tighter mul_level h = absurd h
IsHigh-tighter unary_level h = absurd h
IsHigh-tighter power_level h = tt
IsHigh-tighter simple_level h = tt

not_both : (l : Level) → IsLeft l → IsHigh l → ⊥
not_both or_level a b = b
not_both and_level a b = b
not_both compare_level a b = b
not_both bor_level a b = b
not_both bxor_level a b = b
not_both band_level a b = b
not_both shift_level a b = b
not_both concat_level a b = b
not_both add_level a b = b
not_both mul_level a b = b
not_both unary_level a b = b
not_both power_level a b = a
not_both simple_level a b = a

module _ {F : Type 0} ⦃numerals : Numerals F⦄ where
  abbrev Unsigned : Input F → Type 0
  Unsigned ts = NoneOf (first ts).kind (kw_not ∷ hash ∷ minus ∷ tilde ∷ [])

  Atom-Unsigned :
      (k : TokenKind) (t : Token F) (e : Expr F) (us : Input F)
      → Atom k t e
      → Unsigned (as_kind k t ∷ us)
  Atom-Unsigned k t e us (a_nil _) = (refl, (refl, (refl, (refl, tt))))
  Atom-Unsigned k t e us (a_true _) = (refl, (refl, (refl, (refl, tt))))
  Atom-Unsigned k t e us (a_false _) = (refl, (refl, (refl, (refl, tt))))
  Atom-Unsigned k t e us (an_integer _) = (refl, (refl, (refl, (refl, tt))))
  Atom-Unsigned k t e us (a_number _) = (refl, (refl, (refl, (refl, tt))))
  Atom-Unsigned k t e us (a_string _) = (refl, (refl, (refl, (refl, tt))))
  Atom-Unsigned k t e us (a_vararg _) = (refl, (refl, (refl, (refl, tt))))
  Atom-Unsigned k t e us (a_name _) = (refl, (refl, (refl, (refl, tt))))

  -- What binds tighter than a unary operator does not begin with one.
  pub Reads-Unsigned :
      (d : ℕ) (l : Level) (e : Expr F) (ts us : Input F)
      → Reads d l e ts us
      → IsHigh l
      → Unsigned ts
  Reads-Unsigned d l e ts us (atom {t = t} a) h = Atom-Unsigned _ t _ us a
  Reads-Unsigned d l e ts us (parens _ _ r) h = (refl, (refl, (refl, (refl, tt))))
  Reads-Unsigned d l e ts us (power _ r s) h = Reads-Unsigned _ _ _ _ _ r tt
  Reads-Unsigned d l e ts us (unary _ _ r) h = absurd h
  Reads-Unsigned d l e ts us (chained _ r s) h = absurd h
  Reads-Unsigned d l e ts us (binary op _ left r s) h = absurd (not_both (level_of op) left h)
  Reads-Unsigned d l e ts us (lift m r) h = Reads-Unsigned _ _ _ _ _ r (IsHigh-tighter m h)

  pub Reads-shorter :
      (d : ℕ) (l : Level) (e : Expr F) (ts us : Input F) → Reads d l e ts us → length us < length ts
  Reads-shorter d l e ts us (atom a) = omega arith
  Reads-shorter d l e ts us (parens _ _ r) = omega (arith, Reads-shorter _ _ _ _ _ r)
  Reads-shorter d l e ts us (power _ r s) =
      omega (arith, Reads-shorter _ _ _ _ _ r, Reads-shorter _ _ _ _ _ s)
  Reads-shorter d l e ts us (unary _ _ r) = omega (arith, Reads-shorter _ _ _ _ _ r)
  Reads-shorter d l e ts us (chained _ r s) =
      omega (arith, Reads-shorter _ _ _ _ _ r, Reads-shorter _ _ _ _ _ s)
  Reads-shorter d l e ts us (binary _ _ _ r s) =
      omega (arith, Reads-shorter _ _ _ _ _ r, Reads-shorter _ _ _ _ _ s)
  Reads-shorter d l e ts us (lift _ r) = Reads-shorter _ _ _ _ _ r
