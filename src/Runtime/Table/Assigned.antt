-- ===== src/Runtime/Table/Assigned.antt =====
-- `Table::get` after `Table::set` (src/runtime/table.cpp), by the equality of the language: keys are
-- compared as `values_equal` of src/runtime/value.cpp compares them, before any of them is turned into
-- an integer.
use luajit.Common.{
  false, none, some, ◌≡◌, refl, sym, ap, ◌∙◌, arith, if◌then◌else◌, inl, inr, Bool, Bool-cases,
  Option, Option-cases,
}
use luajit.Common.Int.{ℤ}
use luajit.Common.Result.{ok}
use luajit.Runtime.Table.Set.{set_table-Stored}
use luajit.Runtime.Table.Valid.{IsValid}
use luajit.Runtime.Table.{Strings, Table, key_as_integer, lookup_key, get, set_table, is_nan}
use luajit.Runtime.Value.Equality.{DoubleLaws, eq_integer, integer_eq, le_max, lt_max, int_eq_iff}
use luajit.Runtime.Value.{
  Double, TValue, nil, boolean, integer, number, obj, values_equal, float_to_integer, int_eq,
  is_nil, min_int,
}

module _ {F : Type 0} ⦃dbl : Double F⦄ ⦃str : Strings⦄ where
  -- Any key but the float 2 ^ 63, which is `(double)INT64_MAX`.
  abbrev pub IsNotLimit : TValue F → Type 0
  IsNotLimit (number d) = dbl.eq d (dbl.neg min_int) ≡ false
  IsNotLimit _ = Unit

module _ {F : Type 0} ⦃dbl : Double F⦄ ⦃str : Strings⦄ (laws : DoubleLaws F) where
  -- The two conversions of floats to integers agree but at 2 ^ 63.
  key_as_integer-float_to_integer :
      (d : F) → IsNotLimit (number d) → key_as_integer (number d) ≡ float_to_integer d
  unfolding key_as_integer float_to_integer
  key_as_integer-float_to_integer d other = ground (
    arith,
    other,
    laws.cast_exact d,
    laws.le_nan min_int d,
    le_max laws d,
    lt_max laws d,
    laws.eq_symm (dbl.floor d) d,
  )

  integral_eq :
      (x y : F) (i j : ℤ)
      → float_to_integer x ≡ some i
      → float_to_integer y ≡ some j
      → int_eq i j ≡ dbl.eq x y
  integral_eq x y i j e f = elim (Bool-cases (int_eq i j)) [
    | inl same ↦ same ∙ sym (integer_eq laws x y i e (f ∙ ap some (sym ((int_eq_iff i j).0 same))))
    | inr differ ↦ ground (arith, e, f, eq_integer laws x y, int_eq_iff i j)
  ]

  abbrev as_lookup : Option ℤ → F → TValue F
  as_lookup o d = elim o [ some i ↦ integer i | none ↦ number d ]

  lookup_key-number :
      (d : F) → IsNotLimit (number d) → lookup_key (number d) ≡ as_lookup (float_to_integer d) d
  unfolding lookup_key
  lookup_key-number d other = rw (key_as_integer-float_to_integer d other, lookup_key) refl

  number_number :
      (x y : F)
      → values_equal (as_lookup (float_to_integer x) x) (as_lookup (float_to_integer y) y)
        ≡ values_equal (number x) (number y)
  unfolding values_equal
  number_number x y = elim (Option-cases (float_to_integer x)) [
    | inl e ↦ elim (Option-cases (float_to_integer y)) [
      | inl f ↦ rw (e, f) refl
      | inr (j, f) ↦ ground (arith, e, f, eq_integer laws x y)
    ]
    | inr (i, e) ↦ elim (Option-cases (float_to_integer y)) [
      | inl f ↦ ground (arith, e, f, eq_integer laws x y)
      | inr (j, f) ↦ rw (e, f) (integral_eq x y i j e f)
    ]
  ]

  number_other :
      (x : F) (b : TValue F)
      → IsNotLimit b
      → values_equal (as_lookup (float_to_integer x) x) (lookup_key b) ≡ values_equal (number x) b
  unfolding values_equal lookup_key key_as_integer
  number_other x (number y) other = rw (lookup_key-number y other) (number_number x y)
  number_other x (integer j) other = ground arith
  number_other x nil other = ground arith
  number_other x (boolean b) other = ground arith
  number_other x (obj t p) other = ground arith

  other_number :
      (a : TValue F) (y : F)
      → IsNotLimit a
      → values_equal (lookup_key a) (as_lookup (float_to_integer y) y) ≡ values_equal a (number y)
  unfolding values_equal lookup_key key_as_integer
  other_number (number x) y other = rw (lookup_key-number x other) (number_number x y)
  other_number (integer j) y other = ground arith
  other_number nil y other = ground arith
  other_number (boolean b) y other = ground arith
  other_number (obj t p) y other = ground arith

  -- Turning keys into integers keeps which of them are equal.
  values_equal-lookup_key :
      (a b : TValue F)
      → IsNotLimit a
      → IsNotLimit b
      → values_equal (lookup_key a) (lookup_key b) ≡ values_equal a b
  unfolding values_equal lookup_key key_as_integer
  values_equal-lookup_key (number x) b p q = rw (lookup_key-number x p) (number_other x b q)
  values_equal-lookup_key a (number y) p q = rw (lookup_key-number y q) (other_number a y p)
  values_equal-lookup_key a b p q = ground arith

  -- Given the laws of doubles, `Table::set` with a key that is neither nil nor a NaN succeeds on every
  -- well-formed table, a full hash part with its rehash and the second call included, and the result is
  -- well formed. There `get` reads the value under each key that `values_equal` finds equal to the key
  -- that was set, and what it read before under every other. The key that is set and the key that is
  -- read are not the float 2 ^ 63.
  pub get-set_table :
      (t : Table F) (key v j : TValue F)
      → IsValid laws t
      → is_nil key ≡ false
      → is_nan key ≡ false
      → IsNotLimit key
      → IsNotLimit j
      → (u : Table F) × (set_table t key v ≡ ok u)
        × IsValid laws u
        × (get u j ≡ (if values_equal key j then v else get t j))
  get-set_table t key v j valid live real other other_j =
      let (u, done, wrote) = set_table-Stored laws key v live real t valid in
      (
        u,
        done,
        wrote.valid,
        wrote.reads j
            ∙ ap (λ (b : Bool). if b then v else get t j)
                (values_equal-lookup_key key j other other_j),
      )
