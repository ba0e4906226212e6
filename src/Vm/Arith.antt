-- ===== src/Vm/Arith.antt =====
-- Integer arithmetic of the interpreter (src/vm/interpreter.cpp): `int64_t` is an integer in range,
-- and a cast to `uint64_t` and back is `to_word` and `of_word`.
use luajit.Common.{
  ℕ, zero, suc, ◌+◌, ◌-◌, ◌*◌, ◌/◌, ◌%◌, ◌^◌, Bool, true, false, not, ◌&&◌, leb, ◌==◌,
  if◌then◌else◌,
}
use luajit.Common.Int.{ℤ, pos, negsuc, ◌+ℤ◌, to_word, of_word, word_mod}
pub mod Floor
pub mod Wrap

unfoldable pub intop_add : ℤ → ℤ → ℤ
intop_add x y = of_word ((to_word x + to_word y) % word_mod)

unfoldable pub intop_sub : ℤ → ℤ → ℤ
intop_sub x y = of_word ((to_word x + word_mod - to_word y) % word_mod)

unfoldable pub intop_mul : ℤ → ℤ → ℤ
intop_mul x y = of_word (to_word x * to_word y % word_mod)

unfoldable pub intop_unm : ℤ → ℤ
intop_unm x = of_word ((word_mod - to_word x) % word_mod)

-- |disp| >= 64 gives 0; a negative displacement shifts to the right.
unfoldable pub shiftl : ℤ → ℤ → ℤ
shiftl v (negsuc d) = if leb 64 (suc d) then pos 0 else of_word (to_word v / 2 ^ suc d)
shiftl v (pos d) = if leb 64 d then pos 0 else of_word (to_word v * 2 ^ d % word_mod)

-- `m / n` and `m % n` of the source language, which truncate towards 0.
abbrev pub mag : ℤ → ℕ
mag (pos n) = n
mag (negsuc n) = suc n

abbrev pub is_neg : ℤ → Bool
is_neg (pos n) = false
is_neg (negsuc n) = true

abbrev pub signed : Bool → ℕ → ℤ
signed false n = pos n
signed true zero = pos 0
signed true (suc n) = negsuc n

-- `n != 0`
abbrev pub nonzero : ℕ → Bool
nonzero zero = false
nonzero (suc n) = true

-- `(m ^ n) < 0`: the sign bits differ.
abbrev pub signs_differ : ℤ → ℤ → Bool
signs_differ m n = if is_neg m then not (is_neg n) else is_neg n

abbrev pub quot : ℤ → ℤ → ℤ
quot m n = signed (signs_differ m n) (mag m / mag n)

-- `q -= 1`
abbrev pub pred_ℤ : ℤ → ℤ
pred_ℤ (pos zero) = negsuc 0
pred_ℤ (pos (suc n)) = pos n
pred_ℤ (negsuc n) = negsuc (suc n)

abbrev pub rem : ℤ → ℤ → ℤ
rem m n = signed (is_neg m) (mag m % mag n)

pub data Arith : Type 0 where
  result : ℤ → Arith
  divide_by_zero modulo_by_zero : Arith

-- `int_idiv_mod` at OpCode::IDIV. The first test is `(uint64_t)n + 1 <= 1`.
unfoldable pub int_idiv : ℤ → ℤ → Arith
int_idiv m n =
    if leb ((to_word n + 1) % word_mod) 1
    then (if mag n == 0 then divide_by_zero else result (intop_unm m))
    else (let q = quot m n in
        result (if signs_differ m n && nonzero (mag (rem m n)) then pred_ℤ q else q))

-- `int_idiv_mod` at OpCode::MOD
unfoldable pub int_mod : ℤ → ℤ → Arith
int_mod m n =
    if leb ((to_word n + 1) % word_mod) 1
    then (if mag n == 0 then modulo_by_zero else result (pos 0))
    else (let r = rem m n in result (if nonzero (mag r) && signs_differ m n then r +ℤ n else r))
