-- ===== src/Runtime/Table/Valid.antt =====
-- The invariant of a table, and how a read splits over its two parts.
use luajit.Common.{
  ℕ, true, false, none, some, List, length, get_or, ◌≡◌, refl, ap, ◌∙◌, arith, inl, inr, Bool-cases,
  if◌then◌else◌,
}
use luajit.Common.Int.{ℤ}
use luajit.Runtime.Probe.Store.{IsPlaced, search, value_at}
use luajit.Runtime.Probe.Find.{find-hit}
use luajit.Runtime.Probe.{TableNode, Found, hit, missing, node}
use luajit.Runtime.Table.Laws.{IsKey, key_laws, IsKey_self}
use luajit.Runtime.Table.{
  Strings, Table, hash_key, key_as_integer, lookup_key, key_slot, blank, is_small, array_slot, get,
  get_hash,
}
use luajit.Runtime.Value.Equality.{DoubleLaws, values_equal_symm, int_eq_iff}
use luajit.Runtime.Value.{Double, TValue, nil, boolean, integer, number, obj, values_equal}

module _ {F : Type 0} ⦃dbl : Double F⦄ ⦃str : Strings⦄ (laws : DoubleLaws F) where
  -- The hash part finds each of its live keys, and holds no integer key of the array's.
  pub record IsValid (t : Table F) : Type 0 where
    pub placed : IsPlaced (key_laws laws) blank refl t.hash
    pub outside :
        (s : ℕ) (i : ℤ)
        → (node blank t.hash s).used ≡ true
        → (node blank t.hash s).key ≡ integer i
        → (is_small i ≡ false) × (array_slot (length t.array) i ≡ none)

  pub equal_integer :
      (a : TValue F) (i : ℤ) → IsKey a → values_equal a (integer i) ≡ true → a ≡ integer i
  unfolding values_equal
  equal_integer (integer j) i k e = ap integer ((int_eq_iff j i).0 e)
  equal_integer (number d) i k e = ground arith
  equal_integer nil i k e = ground arith
  equal_integer (boolean b) i k e = ground arith
  equal_integer (obj t p) i k e = ground arith

  pub not-equal_integer :
      (j : TValue F) (i : ℤ) → key_as_integer j ≡ none → values_equal (integer i) j ≡ false
  unfolding key_as_integer
  not-equal_integer j i e = elim (Bool-cases (values_equal (integer i) j)) [
    | inr f ↦ f
    | inl f ↦ cc (
        ap key_as_integer
          (equal_integer j i (IsKey_self laws j e) (values_equal_symm laws j (integer i) ∙ f)))
  ]

  -- A read by an integer.
  abbrev pub get_at : Table F → ℤ → TValue F
  get_at t i = elim (array_slot (length t.array) i) [
    | some k ↦ get_or t.array k nil
    | none ↦ get_hash t.hash (integer i)
  ]

  pub get_at-none :
      (t : Table F) (i : ℤ)
      → array_slot (length t.array) i ≡ none
      → get_at t i ≡ get_hash t.hash (integer i)
  get_at-none t i e = rw (e, get_at)

  pub get_at-some :
      (t : Table F) (i : ℤ) (k : ℕ)
      → array_slot (length t.array) i ≡ some k
      → get_at t i ≡ get_or t.array k nil
  get_at-some t i k e = rw (e, get_at)

  pub get-get_at :
      (t : Table F) (j : TValue F) (i : ℤ) → key_as_integer j ≡ some i → get t j ≡ get_at t i
  unfolding get lookup_key key_slot
  get-get_at t j i e = ground arith

  pub get-get_hash :
      (t : Table F) (j : TValue F) → key_as_integer j ≡ none → get t j ≡ get_hash t.hash j
  unfolding get lookup_key key_slot
  get-get_hash t j e = ground arith

  abbrev pub seek : List (TableNode (TValue F) (TValue F)) → TValue F → Found
  seek h j = search (key_laws laws) blank refl h j

  pub seek-hit :
      (h : List (TableNode (TValue F) (TValue F))) (j : TValue F) (s : ℕ)
      → seek h j ≡ hit s
      → ((node blank h s).used ≡ true) × (values_equal (node blank h s).key j ≡ true)
  seek-hit h j s e =
      find-hit (values_equal {F = F}) blank h j (hash_key {F = F} j (length h)) 0 (length h) s e

  absent_found :
      (t : Table F) (i : ℤ) (f : Found)
      → IsValid t
      → is_small i ≡ true
      → seek t.hash (integer i) ≡ f
      → value_at (key_laws laws) blank refl t.hash f ≡ nil
  absent_found t i missing valid small e = refl
  absent_found t i (hit s) valid small e =
      let (u, q) = seek-hit t.hash (integer i) s e in
      let k = equal_integer _ i (valid.placed.keys s u) q in cc ((valid.outside s i u k).0, small)

  pub get_hash-value_at :
      (h : List (TableNode (TValue F) (TValue F))) (j : TValue F)
      → get_hash h j ≡ value_at (key_laws laws) blank refl h (search (key_laws laws) blank refl h j)
  unfolding get_hash
  get_hash-value_at h j = ground arith

  -- Small integer keys are never in the hash part.
  pub get_hash_small :
      (t : Table F) (i : ℤ) → IsValid t → is_small i ≡ true → get_hash t.hash (integer i) ≡ nil
  get_hash_small t i valid small =
      get_hash-value_at t.hash (integer i) ∙ absent_found t i _ valid small refl

  -- `u` is `t` with `v` stored under `k`, where keys are compared as they are looked up.
  pub record Wrote (t : Table F) (k v : TValue F) (u : Table F) : Type 0 where
    pub valid : IsValid u
    pub reads :
        (j : TValue F)
        → get u j ≡ (if values_equal (lookup_key k) (lookup_key j) then v else get t j)
