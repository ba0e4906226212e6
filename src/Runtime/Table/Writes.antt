-- ===== src/Runtime/Table/Writes.antt =====
-- Writes to the array part.
use luajit.Common.{
  ℕ, zero, suc, ◌-◌, ◌≤◌, ◌<◌, true, false, none, some, List, length, get_or, ◌≡◌, refl, ap, ◌∙◌,
  arith, ◌⊎◌, inl, inr, Bool-cases, if◌then◌else◌, ltb, leb→le, ◌==◌, get_or-set, get_or-out,
  get_or-pad, length-set, length-append, length-replicate,
}
use luajit.Common.Int.{ℤ, pos, negsuc}
use luajit.Runtime.Table.Laws.{lookup_key-cases}
use luajit.Runtime.Table.Valid.{
  IsValid, Wrote, get_at, get-get_at, get-get_hash, get_hash_small, not-equal_integer,
}
use luajit.Runtime.Table.{
  Strings, Table, lookup_key, is_small, array_slot, write_array, grow_array, write_small,
  resize_array,
}
use luajit.Runtime.Value.Equality.{DoubleLaws}
use luajit.Runtime.Value.{Double, TValue, nil, integer, values_equal, int_eq}

slot_lt : (m size k : ℕ) → array_slot size (pos (suc m)) ≡ some k → (m ≡ k) × (k < size)
slot_lt m size k e = ground arith

module _ {F : Type 0} ⦃dbl : Double F⦄ ⦃str : Strings⦄ (laws : DoubleLaws F) (t u : Table F) (k : ℕ)
    (v : TValue F) (valid : IsValid laws t) (hash : u.hash ≡ t.hash) (inside : k < length u.array)
    (grown : (length u.array ≡ length t.array)
      ⊎ ((length t.array ≤ length u.array) × (length u.array ≤ 64)))
    (cells : (m : ℕ)
      → m < length u.array
      → get_or u.array m nil ≡ (if m == k then v else get_or t.array m nil)) where
  outside_array :
      (i : ℤ)
      → (is_small i ≡ false) × (array_slot (length t.array) i ≡ none)
      → (is_small i ≡ false) × (array_slot (length u.array) i ≡ none)
  outside_array (pos zero) h = h
  outside_array (pos (suc m)) h = ground arith
  outside_array (negsuc m) h = h

  array-IsValid : IsValid laws u
  array-IsValid = record {
    placed = rw hash valid.placed;
    outside = λ s i. rw hash (λ us ks. outside_array i (valid.outside s i us ks));
  }

  read_at : (i : ℤ) → get_at laws u i ≡ (if int_eq (pos (suc k)) i then v else get_at laws t i)
  read_at (pos zero) = rw hash (ground arith)
  read_at (negsuc m) = rw hash (ground arith)
  read_at (pos (suc m)) =
      rw hash (
        ground
          (arith, cells m, get_or-out t.array m nil, get_hash_small laws t (pos (suc m)) valid))

  pub array-Wrote : (key : TValue F) → lookup_key key ≡ integer (pos (suc k)) → Wrote laws t key v u
  array-Wrote key named = record {
    valid = array-IsValid;
    reads = λ j. elim (lookup_key-cases laws j) [
      | inr (i, e, l) ↦
          rw (named, l, get-get_at laws u j i e, get-get_at laws t j i e)
            (unfold values_equal in read_at i)
      | inl (e, l) ↦ rw (
        named,
        l,
        get-get_hash laws u j e,
        get-get_hash laws t j e,
        hash,
        not-equal_integer laws j (pos (suc k)) e,
      )
    ];
  }

module _ {F : Type 0} ⦃dbl : Double F⦄ ⦃str : Strings⦄ (laws : DoubleLaws F) (t : Table F)
    (key v : TValue F) (valid : IsValid laws t) where
  -- `array[k] = value` within the array part.
  pub write_array-Wrote :
      (i : ℤ) (k : ℕ)
      → lookup_key key ≡ integer i
      → array_slot (length t.array) i ≡ some k
      → Wrote laws t key v (write_array t k v)
  write_array-Wrote (pos zero) k l e = cc
  write_array-Wrote (negsuc m) k l e = cc
  write_array-Wrote (pos (suc m)) k l e =
      let (same, inside) = slot_lt m (length t.array) k e in
      array-Wrote laws t (write_array t k v) k v valid refl (rw length-set inside)
        (inl (length-set t.array k v)) (λ j _. ground (arith, get_or-set t.array k j v nil)) key
        (l ∙ ap (λ (n : ℕ). integer (pos (suc n))) same)

  -- A write at an index up to 64, which extends the array part.
  pub write_small-Wrote :
      (i : ℤ)
      → lookup_key key ≡ integer i
      → is_small i ≡ true
      → Wrote laws t key v (write_small t i v)
  write_small-Wrote (pos zero) l e = cc
  write_small-Wrote (negsuc m) l e = cc
  write_small-Wrote (pos (suc m)) l e = elim (Bool-cases (ltb m (length t.array))) [
    | inl inside ↦ rw inside (write_array-Wrote (pos (suc m)) m l (rw inside))
    | inr outside ↦ rw outside (
        let a : List (TValue F) = resize_array (suc m) t.array in
        let n : length a ≡ suc m =
          length-append t.array _
          ∙ omega (
            arith,
            length-replicate {A = TValue F} (suc m - length t.array) nil,
            leb→le (length t.array) m (ground arith),
          ) in
        array-Wrote laws t (grow_array t m v) m v valid refl (rw (length-set, n) (omega arith))
          (inr (rw (length-set, n) (ground arith)))
          (λ j h.
            rw (get_or-set a m j v nil (rw n (omega arith)))
              (ground (arith, get_or-pad t.array (suc m - length t.array) j nil)))
          key l)
  ]
