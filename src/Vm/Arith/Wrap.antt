-- ===== src/Vm/Arith/Wrap.antt =====
-- Wrap-around and shifts.
use native.Mathlib.Nat.{
  pow-suc, mul_assoc, mod-lt, mul-mod_left, div-eq_of_lt, pow-le-pow_right, div-le_self,
}
use luajit.Common.{
  ℕ, zero, suc, ◌+◌, ◌-◌, ◌*◌, ◌/◌, ◌%◌, ◌^◌, ◌≤◌, ◌<◌, ◌≡◌, refl, sym, ap, ◌∙◌, arith, leb,
  if◌then◌else◌, Bool-cases, leb→le, inl, inr,
}
use luajit.Common.Int.{
  ℤ, pos, negsuc, ◌+ℤ◌, to_word, of_word, word_mod, IsInt64, of_word-to_word, to_word-of_word,
  to_word-lt,
}
use luajit.Vm.Arith.{intop_add, intop_sub, shiftl}

-- Where two int64_t and their true sum are in range, the wrapping sum is the true one.
pub intop_add-exact : (x y : ℤ) → IsInt64 x → IsInt64 y → IsInt64 (x +ℤ y) → intop_add x y ≡ x +ℤ y
unfolding intop_add to_word of_word ◌+ℤ◌
intop_add-exact (pos x) (pos y) hx hy h = ground arith
intop_add-exact (pos x) (negsuc y) hx hy h = ground arith
intop_add-exact (negsuc x) (pos y) hx hy h = ground arith
intop_add-exact (negsuc x) (negsuc y) hx hy h = ground arith

unwrapped :
    (x y : ℕ) → x < word_mod → y < word_mod → ((x + y) % word_mod + word_mod - y) % word_mod ≡ x
unwrapped x y hx hy = omega arith

-- Subtraction of any integer undoes its addition to an int64_t, also where both wrap.
intop_sub-intop_add : (x y : ℤ) → IsInt64 x → intop_sub (intop_add x y) y ≡ x
unfolding intop_add intop_sub
intop_sub-intop_add x y hx =
    let e = to_word-of_word ((to_word x + to_word y) % word_mod) (mod-lt _ (omega arith)) in
    rw e
      (rw (unwrapped (to_word x) (to_word y) (to_word-lt x) (to_word-lt y)) (of_word-to_word x hx))

pow_word : (k : ℕ) → 2 ^ (k + 64) ≡ 2 ^ k * word_mod
pow_word zero = refl
pow_word (suc k) =
    let e : suc k + 64 ≡ suc (k + 64) = omega arith in
    rw (e, pow-suc 2 (k + 64), pow-suc 2 k, pow_word k) (omega arith)

quotient_lt : (a b : ℕ) → a < word_mod → a / b < word_mod
quotient_lt a b h = omega (arith, div-le_self a b)

left_overflow : (a d : ℕ) → 64 ≤ d → a * 2 ^ d % word_mod ≡ 0
left_overflow a d h =
    let e : d ≡ (d - 64) + 64 = omega arith in
    let p : 2 ^ d ≡ 2 ^ (d - 64) * word_mod = ap (λ k. 2 ^ k) e ∙ pow_word (d - 64) in
    rw (p, ← mul_assoc a (2 ^ (d - 64)) word_mod) (mul-mod_left (a * 2 ^ (d - 64)) word_mod)

right_overflow : (a d : ℕ) → a < word_mod → 64 ≤ d → a / 2 ^ d ≡ 0
right_overflow a d h le = div-eq_of_lt (omega (arith, pow-le-pow_right {n = 2} (omega arith) le))

-- A shift is a multiplication or a division by the power of two for every displacement: the
-- guards at 64 only say what the power gives.
pub to_word-shiftl :
    (v : ℤ) (d : ℕ)
    → (to_word (shiftl v (pos d)) ≡ to_word v * 2 ^ d % word_mod)
      × (to_word (shiftl v (negsuc d)) ≡ to_word v / 2 ^ suc d)
unfolding shiftl to_word
to_word-shiftl v d = (left, right)
  where
    left :
        to_word (if leb 64 d then pos 0 else of_word (to_word v * 2 ^ d % word_mod))
        ≡ to_word v * 2 ^ d % word_mod
    left = elim (Bool-cases (leb 64 d)) [
      | inl e ↦ rw e (sym (left_overflow (to_word v) d (leb→le 64 d e)))
      | inr e ↦ rw e (to_word-of_word _ (mod-lt _ (omega arith)))
    ]

    right :
        to_word (if leb 64 (suc d) then pos 0 else of_word (to_word v / 2 ^ suc d))
        ≡ to_word v / 2 ^ suc d
    right = elim (Bool-cases (leb 64 (suc d))) [
      | inl e ↦ rw e (sym (right_overflow (to_word v) (suc d) (to_word-lt v) (leb→le 64 (suc d) e)))
      | inr e ↦ rw e (to_word-of_word _ (quotient_lt (to_word v) (2 ^ suc d) (to_word-lt v)))
    ]
