-- ===== src/Runtime/Value/Equality.antt =====
-- `values_equal` is an equivalence on the values that can be keys.
use luajit.Common.{
  ◌≡◌, ◌↔◌, refl, ap, sym, ◌∙◌, ◌||◌, Bool-cases, arith, Bool, true, false, none, some,
  Option-cases, inl, inr, not,
}
use luajit.Common.Int.{ℤ, pos, int_max}
use luajit.Runtime.Value.{
  Double, TValue, nil, boolean, integer, number, obj, values_equal, float_to_integer, is_nil,
  both_ints, int_eq, min_int,
}

-- What IEEE arithmetic gives: `==` on doubles is symmetric and transitive, and `<`, `floor` and the
-- cast agree on equal doubles; `<=` is `<` or `==`; nothing is `<=` a NaN. In the range of
-- int64_t a double that is equal to its floor is equal to its cast there and back. Equal doubles differ
-- in their bits at zero only.
pub record DoubleLaws (F : Type 0) ⦃dbl : Double F⦄ : Type 0 where
  pub eq_symm : (x y : F) → dbl.eq x y ≡ dbl.eq y x
  pub eq_trans : (x y z : F) → dbl.eq x y ≡ true → dbl.eq y z ≡ true → dbl.eq x z ≡ true
  pub lt_left : (x y z : F) → dbl.eq x y ≡ true → dbl.lt x z ≡ dbl.lt y z
  pub lt_right : (x y z : F) → dbl.eq x y ≡ true → dbl.lt z x ≡ dbl.lt z y
  pub le_split : (x y : F) → dbl.le x y ≡ (dbl.lt x y || dbl.eq x y)
  pub le_nan : (x y : F) → dbl.eq y y ≡ false → dbl.le x y ≡ false
  pub floor_congr : (x y : F) → dbl.eq x y ≡ true → dbl.eq (dbl.floor x) (dbl.floor y) ≡ true
  pub cast_congr :
      (x y : F)
      → dbl.le min_int x ≡ true
      → dbl.lt x (dbl.neg min_int) ≡ true
      → dbl.eq x y ≡ true
      → dbl.to_int x ≡ dbl.to_int y
  pub cast_exact :
      (x : F)
      → dbl.le min_int x ≡ true
      → dbl.lt x (dbl.neg min_int) ≡ true
      → dbl.eq (dbl.floor x) x ≡ true
      → dbl.eq (dbl.of_int (dbl.to_int x)) x ≡ true
  -- `(double)INT64_MAX` is rounded up to 2 ^ 63.
  pub max_rounded : dbl.eq (dbl.of_int (pos int_max)) (dbl.neg min_int) ≡ true
  pub zero_low : dbl.le min_int (dbl.of_int (pos 0)) ≡ true
  pub zero_high : dbl.lt (dbl.of_int (pos 0)) (dbl.neg min_int) ≡ true
  pub zero_whole : dbl.eq (dbl.floor (dbl.of_int (pos 0))) (dbl.of_int (pos 0)) ≡ true
  pub eq_payload :
      (x y : F)
      → dbl.eq x y ≡ true
      → dbl.eq x (dbl.of_int (pos 0)) ≡ false
      → dbl.payload x ≡ dbl.payload y

pub int_eq_iff : (i j : ℤ) → (int_eq i j ≡ true) ↔ (i ≡ j)
int_eq_iff i j = ground arith

module _ {F : Type 0} where
  abbrev pub is_live : TValue F → Bool
  is_live v = not (is_nil v)

module _ {F : Type 0} ⦃dbl : Double F⦄ (laws : DoubleLaws F) where
  abbrev InRange : F → Type 0
  InRange x =
      (dbl.le min_int x ≡ true)
      × (dbl.lt x (dbl.neg min_int) ≡ true)
      × (dbl.eq (dbl.floor x) x ≡ true)

  float_to_integer-some :
      (x : F) (i : ℤ) → float_to_integer x ≡ some i → InRange x × (dbl.to_int x ≡ i)
  unfolding float_to_integer
  float_to_integer-some x i e = ground arith

  float_to_integer-InRange : (x : F) → InRange x → float_to_integer x ≡ some (dbl.to_int x)
  unfolding float_to_integer
  float_to_integer-InRange x (a, b, c) = rw (a, b, c) refl

  le_right : (x y z : F) → dbl.eq x y ≡ true → dbl.le z x ≡ true → dbl.le z y ≡ true
  le_right x y z e h =
      ground
        (arith, laws.le_split z x, laws.le_split z y, laws.lt_right x y z e, laws.eq_trans z x y)

  integral_congr : (x y : F) → dbl.eq x y ≡ true → InRange x → InRange y
  integral_congr x y e (a, b, c) = (
    le_right x y min_int e a,
    sym (laws.lt_left x y (dbl.neg min_int) e) ∙ b,
    laws.eq_trans (dbl.floor y) x y
        (laws.eq_trans (dbl.floor y) (dbl.floor x) x
          (laws.eq_symm (dbl.floor y) (dbl.floor x) ∙ laws.floor_congr x y e) c)
        e,
  )

  -- Equal doubles have equal integer forms.
  pub eq_integer : (x y : F) → dbl.eq x y ≡ true → float_to_integer x ≡ float_to_integer y
  eq_integer x y e = elim (Option-cases (float_to_integer x)) [
    | inr (i, f) ↦
        let (r, n) = float_to_integer-some x i f in
        f
        ∙ ap some (sym n ∙ laws.cast_congr x y r.0 r.1 e)
        ∙ sym (float_to_integer-InRange y (integral_congr x y e r))
    | inl f ↦ elim (Option-cases (float_to_integer y)) [
      | inl g ↦ f ∙ sym g
      | inr (j, g) ↦
          let r = integral_congr y x (laws.eq_symm y x ∙ e) (float_to_integer-some y j g).0 in
          cc (f, float_to_integer-InRange x r)
    ]
  ]

  pub integer_exact : (x : F) (i : ℤ) → float_to_integer x ≡ some i → dbl.eq (dbl.of_int i) x ≡ true
  integer_exact x i e =
      let ((a, b, c), n) = float_to_integer-some x i e in rw (← n) (laws.cast_exact x a b c)

  -- Doubles with the same integer form are equal.
  pub integer_eq :
      (x y : F) (i : ℤ)
      → float_to_integer x ≡ some i
      → float_to_integer y ≡ some i
      → dbl.eq x y ≡ true
  integer_eq x y i e f =
      laws.eq_trans x (dbl.of_int i) y (laws.eq_symm x (dbl.of_int i) ∙ integer_exact x i e)
        (integer_exact y i f)

  max_high : (x : F) → dbl.lt x (dbl.neg min_int) ≡ dbl.lt x (dbl.of_int (pos int_max))
  max_high x = sym (laws.lt_right (dbl.of_int (pos int_max)) (dbl.neg min_int) x laws.max_rounded)

  pub le_max :
      (x : F) → dbl.lt x (dbl.neg min_int) ≡ true → dbl.le x (dbl.of_int (pos int_max)) ≡ true
  le_max x e = ground (arith, laws.le_split x (dbl.of_int (pos int_max)), max_high x)

  -- At or below `(double)INT64_MAX` and not equal to it is below 2 ^ 63.
  pub lt_max :
      (x : F)
      → dbl.le x (dbl.of_int (pos int_max)) ≡ true
      → dbl.eq x (dbl.neg min_int) ≡ false
      → dbl.lt x (dbl.neg min_int) ≡ true
  lt_max x e other = ground (
    arith,
    laws.le_split x (dbl.of_int (pos int_max)),
    max_high x,
    laws.max_rounded,
    laws.eq_trans x (dbl.of_int (pos int_max)) (dbl.neg min_int),
  )

  pub payload_congr :
      (x y : F) → dbl.eq x y ≡ true → float_to_integer x ≡ none → dbl.payload x ≡ dbl.payload y
  payload_congr x y e f = elim (Bool-cases (dbl.eq x (dbl.of_int (pos 0)))) [
    | inr other ↦ laws.eq_payload x y e other
    | inl zero ↦ cc (
      f,
      eq_integer x (dbl.of_int (pos 0)) zero,
      float_to_integer-InRange (dbl.of_int (pos 0))
          (laws.zero_low, laws.zero_high, laws.zero_whole),
    )
  ]

  -- Equality of values is symmetric, given the laws of doubles.
  pub values_equal_symm : (a b : TValue F) → values_equal a b ≡ values_equal b a
  unfolding values_equal
  values_equal_symm (number x) (number y) = laws.eq_symm x y
  values_equal_symm (number x) (integer j) = ground arith
  values_equal_symm (integer j) (number x) = ground arith
  values_equal_symm nil b = ground arith
  values_equal_symm (boolean x) b = ground arith
  values_equal_symm (integer x) b = ground arith
  values_equal_symm (obj t x) b = ground arith
  values_equal_symm (number x) b = ground arith

  -- Equality of values is transitive, also through integers that equal floats, given the laws of
  -- doubles.
  pub values_equal_trans :
      (a b c : TValue F)
      → values_equal a b ≡ true
      → values_equal b c ≡ true
      → values_equal a c ≡ true
  unfolding values_equal
  values_equal_trans (number x) (number y) (number z) p q = laws.eq_trans x y z p q
  values_equal_trans (number x) (number y) (integer k) p q = ground (arith, eq_integer x y)
  values_equal_trans (number x) (integer j) (number z) p q =
      elim (Option-cases (float_to_integer x)) [
        | inl e ↦ cc (rw (e, both_ints) at p)
        | inr (i, e) ↦ elim (Option-cases (float_to_integer z)) [
          | inl f ↦ cc (rw (f, both_ints) at q)
          | inr (k, f) ↦
              let same : i ≡ k = ground (arith, e, f, int_eq_iff i j, int_eq_iff j k) in
              integer_eq x z i e (f ∙ ap some (sym same))
        ]
      ]
  values_equal_trans (integer i) (number y) (number z) p q = ground (arith, eq_integer y z)
  values_equal_trans (number x) (integer j) (integer k) p q = ground (arith)
  values_equal_trans (integer i) (number y) (integer k) p q = ground (arith)
  values_equal_trans (integer i) (integer j) (number z) p q = ground (arith)
  values_equal_trans nil b c p q = ground arith
  values_equal_trans (boolean x) b c p q = ground arith
  values_equal_trans (integer x) b c p q = ground arith
  values_equal_trans (obj t x) b c p q = ground arith
  values_equal_trans (number x) b c p q = ground arith

  pub values_equal-is_live : (a b : TValue F) → values_equal a b ≡ true → is_live a ≡ is_live b
  unfolding values_equal
  values_equal-is_live (number x) b p = ground arith
  values_equal-is_live nil b p = ground arith
  values_equal-is_live a b p = ground arith
