-- ===== src/Vm/Arith/Floor.antt =====
-- Floored division.
use native.Mathlib.Nat.{div-add-mod, mod-lt}
use luajit.Common.{
  ℕ, zero, suc, ◌+◌, ◌*◌, ◌/◌, ◌%◌, ◌<◌, ◌≡◌, ◌≢◌, ◌⊎◌, refl, arith, Bool, true, false, ◌&&◌, leb,
  if◌then◌else◌,
}
use luajit.Common.Int.{ℤ, pos, negsuc, ◌+ℤ◌, ◌*ℤ◌, to_word, word_mod, IsInt64}
use luajit.Vm.Arith.{
  mag, is_neg, signed, nonzero, pred_ℤ, signs_differ, Arith, result, int_idiv, int_mod,
}

-- Floored division as arithmetic defines it: the remainder has the divisor's sign.
abbrev pub IsFloor : ℤ → ℤ → ℤ → ℤ → Type 0
IsFloor m n q r = (m ≡ q *ℤ n +ℤ r) × (mag r < mag n) × ((mag r ≡ 0) ⊎ (is_neg r ≡ is_neg n))

abbrev pub Divides : ℤ → ℤ → Arith → Arith → Type 0
Divides m n (result q) (result r) = IsFloor m n q r
Divides m n _ _ = ⊥

-- The last lines of `int_idiv_mod`, on the magnitudes of quotient and remainder.
abbrev floor_quot : Bool → ℕ → ℕ → ℤ
floor_quot differ k r = if differ && nonzero r then pred_ℤ (signed differ k) else signed differ k

abbrev floor_rem : Bool → Bool → ℤ → ℕ → ℤ
floor_rem differ neg n r = if nonzero r && differ then signed neg r +ℤ n else signed neg r

pos_negsuc :
    (m n k r : ℕ)
    → suc n * k + r ≡ m
    → r < suc n
    → IsFloor (pos m) (negsuc n) (floor_quot true k r) (floor_rem true false (negsuc n) r)
unfolding ◌+ℤ◌ ◌*ℤ◌
pos_negsuc m n zero zero e h = ground arith
pos_negsuc m n zero (suc r) e h = ground arith
pos_negsuc m n (suc k) zero e h = ground arith
pos_negsuc m n (suc k) (suc r) e h = ground arith

negsuc_pos :
    (m n k r : ℕ)
    → n * k + r ≡ suc m
    → r < n
    → IsFloor (negsuc m) (pos n) (floor_quot true k r) (floor_rem true true (pos n) r)
unfolding ◌+ℤ◌ ◌*ℤ◌
negsuc_pos m n zero zero e h = ground arith
negsuc_pos m n zero (suc r) e h = ground arith
negsuc_pos m n (suc k) zero e h = ground arith
negsuc_pos m n (suc k) (suc r) e h = ground arith

negsuc_negsuc :
    (m n k r : ℕ)
    → suc n * k + r ≡ suc m
    → r < suc n
    → IsFloor (negsuc m) (negsuc n) (floor_quot false k r) (floor_rem false true (negsuc n) r)
unfolding ◌+ℤ◌ ◌*ℤ◌
negsuc_negsuc m n zero zero e h = ground arith
negsuc_negsuc m n zero (suc r) e h = ground arith
negsuc_negsuc m n (suc k) zero e h = ground arith
negsuc_negsuc m n (suc k) (suc r) e h = ground arith

pos_pos :
    (m n k r : ℕ)
    → n * k + r ≡ m
    → r < n
    → IsFloor (pos m) (pos n) (floor_quot false k r) (floor_rem false false (pos n) r)
unfolding ◌+ℤ◌ ◌*ℤ◌
pos_pos m n zero zero e h = ground arith
pos_pos m n zero (suc r) e h = ground arith
pos_pos m n (suc k) zero e h = ground arith
pos_pos m n (suc k) (suc r) e h = ground arith

mag-signed : (b : Bool) (r : ℕ) → mag (signed b r) ≡ r
mag-signed false r = refl
mag-signed true zero = refl
mag-signed true (suc r) = refl

test_divisor :
    (n : ℤ) → IsInt64 n → mag n ≢ 0 → n ≢ negsuc 0 → leb ((to_word n + 1) % word_mod) 1 ≡ false
unfolding to_word
test_divisor (pos n) h z o = ground arith
test_divisor (negsuc zero) h z o = absurd (o refl)
test_divisor (negsuc (suc n)) h z o = ground arith

module _ (m n : ℤ) (hn : IsInt64 n) (z : mag n ≢ 0) (o : n ≢ negsuc 0) where
  pub int_idiv-floor_quot :
      int_idiv m n ≡ result (floor_quot (signs_differ m n) (mag m / mag n) (mag m % mag n))
  unfolding int_idiv
  int_idiv-floor_quot = rw (test_divisor n hn z o) (rw mag-signed)

  pub int_mod-floor_rem :
      int_mod m n ≡ result (floor_rem (signs_differ m n) (is_neg m) n (mag m % mag n))
  unfolding int_mod
  int_mod-floor_rem = rw (test_divisor n hn z o) (rw mag-signed)

magnitudes-IsFloor :
    (m n : ℤ)
    → mag n ≢ 0
    → IsFloor m n
        (floor_quot (signs_differ m n) (mag m / mag n) (mag m % mag n))
        (floor_rem (signs_differ m n) (is_neg m) n (mag m % mag n))
magnitudes-IsFloor (pos m) (pos n) z =
    pos_pos m n (m / n) (m % n) (div-add-mod m n) (mod-lt m (omega arith))
magnitudes-IsFloor (pos m) (negsuc n) z =
    pos_negsuc m n (m / suc n) (m % suc n) (div-add-mod m (suc n)) (mod-lt m (omega arith))
magnitudes-IsFloor (negsuc m) (pos n) z =
    negsuc_pos m n (suc m / n) (suc m % n) (div-add-mod (suc m) n) (mod-lt (suc m) (omega arith))
magnitudes-IsFloor (negsuc m) (negsuc n) z =
    negsuc_negsuc m n (suc m / suc n) (suc m % suc n) (div-add-mod (suc m) (suc n))
      (mod-lt (suc m) (omega arith))

-- Away from a divisor 0 or -1, `//` and `%` return quotient and remainder of floored division:
-- m = q * n + r with |r| < |n|, and r is 0 or has the sign of n.
pub idiv_mod-IsFloor :
    (m n : ℤ) → IsInt64 n → mag n ≢ 0 → n ≢ negsuc 0 → Divides m n (int_idiv m n) (int_mod m n)
idiv_mod-IsFloor m n hn z o =
    rw (int_idiv-floor_quot m n hn z o, int_mod-floor_rem m n hn z o) (magnitudes-IsFloor m n z)
