-- ===== src/Runtime/Table/Laws.antt =====
-- The keys of the hash part, and the invariant of a table.
use luajit.Common.{ℕ, zero, suc, true, none, some, ◌≡◌, refl, arith, ◌⊎◌, inl, inr, Option-cases}
use luajit.Common.Int.{ℤ}
use luajit.Runtime.Probe.Store.{KeyLaws}
use luajit.Runtime.Table.{Strings, hash_key, key_as_integer, lookup_key}
use luajit.Runtime.Value.Equality.{
  DoubleLaws, payload_congr, integer_exact, le_max, values_equal_symm, values_equal_trans, is_live,
  values_equal-is_live,
}
use luajit.Runtime.Value.{
  Double, TValue, nil, boolean, integer, number, obj, ObjTag, values_equal, float_to_integer,
  min_int,
}

module _ {F : Type 0} ⦃dbl : Double F⦄ ⦃str : Strings⦄ where
  -- A key as the hash part stores it: no float that has an integer form.
  abbrev pub IsKey : TValue F → Type 0
  IsKey (number d) = (float_to_integer d ≡ none) × (key_as_integer (number d) ≡ none)
  IsKey _ = Unit

module _ {F : Type 0} ⦃dbl : Double F⦄ ⦃str : Strings⦄ (laws : DoubleLaws F) where
  pub hash_key_congr :
      (a b : TValue F) (n : ℕ)
      → IsKey a
      → IsKey b
      → values_equal a b ≡ true
      → hash_key a n ≡ hash_key b n
  unfolding hash_key values_equal
  hash_key_congr a b zero ka kb e = refl
  hash_key_congr (number x) (number y) (suc n) ka kb e = ground (arith, payload_congr laws x y)
  hash_key_congr (number x) b (suc n) ka kb e = ground arith
  hash_key_congr nil b (suc n) ka kb e = ground arith
  hash_key_congr (boolean x) b (suc n) ka kb e = ground arith
  hash_key_congr (integer x) b (suc n) ka kb e = ground arith
  hash_key_congr (obj ObjTag.string x) b (suc n) ka kb e = ground arith
  hash_key_congr (obj t x) b (suc n) ka kb e = ground arith

  abbrev pub key_laws :
      KeyLaws (values_equal {F = F}) (hash_key {F = F}) (is_live {F = F}) (IsKey {F = F})
  key_laws = record {
    symm = values_equal_symm laws;
    trans = values_equal_trans laws;
    home_congr = hash_key_congr;
    live_congr = values_equal-is_live laws;
  }

  -- A float that is not stored as an integer is not integral.
  not-integral : (d : F) → key_as_integer (number d) ≡ none → float_to_integer d ≡ none
  unfolding key_as_integer float_to_integer
  not-integral d e = elim (Option-cases (float_to_integer d)) [
    | inl f ↦ f
    | inr (i, f) ↦ ground (
      arith,
      f,
      integer_exact laws d i f,
      laws.le_nan min_int d,
      le_max laws d,
      laws.eq_symm (dbl.floor d) d,
    )
  ]

  -- The two outcomes of `key_as_integer`, with what is looked up.
  pub lookup_key-cases :
      (k : TValue F)
      → ((key_as_integer k ≡ none) × (lookup_key k ≡ k))
        ⊎ ((i : ℤ) × (key_as_integer k ≡ some i) × (lookup_key k ≡ integer i))
  unfolding lookup_key
  lookup_key-cases k = elim (Option-cases (key_as_integer k)) [
    | inl e ↦ inl (e, rw (e, lookup_key))
    | inr (i, e) ↦ inr (i, e, rw (e, lookup_key))
  ]

  pub IsKey_self : (k : TValue F) → key_as_integer k ≡ none → IsKey k
  IsKey_self (number d) e = (not-integral d e, e)
  IsKey_self nil e = tt
  IsKey_self _ e = tt

  pub lookup_key-IsKey : (k : TValue F) → IsKey (lookup_key k)
  lookup_key-IsKey k = elim (lookup_key-cases k) [
    | inl (e, l) ↦ rw l (IsKey_self k e)
    | inr (i, e, l) ↦ rw l tt
  ]
