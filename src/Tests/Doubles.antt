-- ===== src/Tests/Doubles.antt =====
-- Doubles for the tests: integers, the two halves 0.5 and -0.5, and a NaN.
use luajit.Common.{
  ℕ, zero, suc, ltb, ◌+◌, ◌*◌, ◌-◌, Bool, true, false, not, Option, none, some, ◌≡◌, refl, ap, sym,
  ◌∙◌, arith, if◌then◌else◌,
}
use luajit.Common.Int.{ℤ, pos, negsuc, ltb_ℤ, int_max, to_word}
use luajit.Runtime.Value.Equality.{DoubleLaws}
use luajit.Runtime.Value.{Double, int_eq}

pub data Sample : Type 0 where
  exact : ℤ → Sample
  half : Bool → Sample
  not_a_number : Sample

-- The integer that `exact (pos n)` stands for: `math.maxinteger` is no double.
abbrev whole : ℕ → ℕ
whole n = if ltb n int_max then n else suc n

-- Twice the number, an integer.
abbrev twice : Sample → Option ℤ
twice (exact (pos n)) = some (pos (2 * whole n))
twice (exact (negsuc n)) = some (negsuc (2 * n + 1))
twice (half true) = some (pos 1)
twice (half false) = some (negsuc 0)
twice not_a_number = none

abbrev on_both : (ℤ → ℤ → Bool) → Option ℤ → Option ℤ → Bool
on_both f (some a) (some b) = f a b
on_both f _ _ = false

-- The double next to an integer: `math.maxinteger` is rounded up.
abbrev rounded : ℤ → Sample
rounded (pos n) = exact (pos (if ltb int_max n then n - 1 else n))
rounded (negsuc n) = exact (negsuc n)

abbrev opposite : ℕ → Sample
opposite zero = exact (pos 0)
opposite (suc n) = exact (negsuc n)

abbrev negative : Sample → Sample
negative (exact (pos n)) = opposite (whole n)
negative (exact (negsuc n)) = rounded (pos (suc n))
negative (half b) = half (not b)
negative not_a_number = not_a_number

abbrev floored : Sample → Sample
floored (exact i) = exact i
floored (half true) = exact (pos 0)
floored (half false) = exact (negsuc 0)
floored not_a_number = not_a_number

abbrev truncated : Sample → ℤ
truncated (exact (pos n)) = pos (whole n)
truncated (exact (negsuc n)) = negsuc n
truncated _ = pos 0

abbrev bits : Sample → ℕ
bits (exact i) = to_word i
bits (half true) = 1
bits (half false) = 2
bits not_a_number = 3

instance abbrev pub samples : Double Sample
samples = record {
  lt = λ a b. on_both ltb_ℤ (twice a) (twice b);
  le = λ a b. on_both (λ x y. not (ltb_ℤ y x)) (twice a) (twice b);
  eq = λ a b. on_both int_eq (twice a) (twice b);
  floor = floored;
  neg = negative;
  of_int = rounded;
  to_int = truncated;
  payload = bits;
}

eq_same : (x y : Sample) → samples.eq x y ≡ true → x ≡ y
eq_same (exact (pos m)) y e = ground arith
eq_same (exact (negsuc m)) y e = ground arith
eq_same (half b) y e = ground arith
eq_same not_a_number y e = ground arith

lt_left : (x y z : Sample) → samples.eq x y ≡ true → samples.lt x z ≡ samples.lt y z
lt_left x y z e = ap (λ (d : Sample). samples.lt d z) (eq_same x y e)

self_equal : (x y : Sample) → samples.eq x y ≡ true → samples.eq x x ≡ true
self_equal x y e = ap (samples.eq x) (eq_same x y e) ∙ e

floor_self : (x : Sample) → samples.eq x x ≡ true → samples.eq (floored x) (floored x) ≡ true
floor_self x e = ground arith

cast_exact :
    (x : Sample)
    → samples.le (samples.of_int (negsuc int_max)) x ≡ true
    → samples.lt x (samples.neg (samples.of_int (negsuc int_max))) ≡ true
    → samples.eq (samples.floor x) x ≡ true
    → samples.eq (samples.of_int (samples.to_int x)) x ≡ true
cast_exact (exact (pos n)) low high e = ground arith
cast_exact (exact (negsuc n)) low high e = ground arith
cast_exact (half true) low high e = ground arith
cast_exact (half false) low high e = ground arith
cast_exact not_a_number low high e = ground arith

pub sample_laws : DoubleLaws Sample
sample_laws = record {
  eq_symm = λ x y. ground arith;
  eq_trans = λ x y z p q. ap (samples.eq x) (sym (eq_same y z q)) ∙ p;
  lt_left = lt_left;
  lt_right = λ x y z e. ap (samples.lt z) (eq_same x y e);
  le_split = λ x y. ground arith;
  le_nan = λ x y e. ground arith;
  floor_congr = λ x y e.
      ap (λ (d : Sample). samples.eq (floored x) (floored d)) (sym (eq_same x y e))
      ∙ floor_self x (self_equal x y e);
  cast_congr = λ x y low high e. ap truncated (eq_same x y e);
  cast_exact = cast_exact;
  max_rounded = refl;
  zero_low = refl;
  zero_high = refl;
  zero_whole = refl;
  eq_payload = λ x y e other. ap bits (eq_same x y e);
}
