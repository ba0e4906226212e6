-- ===== src/Runtime/Table/Set.antt =====
-- `Table::set` stores, whatever the table holds.
use luajit.Common.{
  ℕ, suc, ◌*◌, ◌<◌, Bool, true, false, Option, none, some, List, [], ◌∷◌, length, get_or, replicate,
  ◌≡◌, refl, sym, ap, subst, ◌∙◌, arith, inl, inr, Option-cases, Bool-cases, if◌then◌else◌,
}
use luajit.Common.Int.{ℤ}
use luajit.Common.Result.{Result, ok, ◌>>=◌}
use luajit.Runtime.Probe.{TableNode, Place, full}
use luajit.Runtime.Probe.Room.{used_count, find_place-ne-full}
use luajit.Runtime.Table.Hashed.{IsHashKey, place, set_hash_room, set_hash_full}
use luajit.Runtime.Table.Laws.{lookup_key-cases, lookup_key-IsKey}
use luajit.Runtime.Table.Rebuilt.{rehash-Rebuilt, fresh-IsValid, blank-get_hash, blank_count}
use luajit.Runtime.Table.Valid.{IsValid, Wrote, get_at-none, get_at-some, get-get_at, get-get_hash}
use luajit.Runtime.Table.Writes.{write_array-Wrote, write_small-Wrote}
use luajit.Runtime.Table.{
  Strings, Table, TableError, lookup_key, key_as_integer, hash_key, blank, is_small, array_slot,
  rehash, get, get_hash, get_int, key_slot, set_hash, set_fuel, set_with, set_table, set_int,
  is_nan, touches_tm, clear_tm_cache, ensure_hash, ensure_slots, write_small, write_array,
}
use luajit.Runtime.Value.Equality.{DoubleLaws, int_eq_iff}
use luajit.Runtime.Value.{Double, TValue, nil, boolean, integer, number, obj, values_equal, is_nil}

module _ {F : Type 0} ⦃dbl : Double F⦄ ⦃str : Strings⦄ (laws : DoubleLaws F)
    (key v : TValue F) where
  abbrev pub Stored : Table F → Result TableError (Table F) → Type 0
  Stored t r = (u : Table F) × (r ≡ ok u) × Wrote laws t key v u

  -- A table with other parts that reads alike.
  moved :
      (t w : Table F)
      → ((j : TValue F) → get w j ≡ get t j)
      → (r : Result TableError (Table F)) → Stored w r
      → Stored t r
  moved t w same r (u, e, wrote) = (
    u,
    e,
    record {
      valid = wrote.valid;
      reads = λ j.
          wrote.reads j
          ∙ ap (λ (d : TValue F). if values_equal (lookup_key key) (lookup_key j) then v else d)
              (same j);
    },
  )

  again : ℕ → Table F → Result TableError (Table F)
  again fuel u = rehash u (length u.array) (length u.hash * 2) >>= (λ r. set_fuel fuel r key v)

  abbrev HashStored : ℕ → Table F → Type 0
  HashStored fuel t = Stored t (set_hash (again fuel) t (lookup_key key) v)

  hash_room :
      (fuel : ℕ) (t : Table F)
      → IsValid laws t
      → IsHashKey laws (length t.array) (lookup_key key)
      → used_count t.hash < length t.hash
      → HashStored fuel t
  hash_room fuel t valid hashed room =
      set_hash_room laws t key v valid hashed (again fuel) (omega arith) (
        find_place-ne-full (values_equal {F = F}) blank is_nil t.hash (lookup_key key)
          (hash_key {F = F} (lookup_key key) (length t.hash)) room)

  hash_again :
      (fuel : ℕ) (t : Table F)
      → IsValid laws t
      → IsHashKey laws (length t.array) (lookup_key key)
      → 0 < length t.hash
      → ((r : Table F)
          → IsValid laws r
          → used_count r.hash < length r.hash
          → Stored r (set_fuel fuel r key v))
      → HashStored fuel t
  unfolding again
  hash_again fuel t valid hashed nonempty next = go (place laws t key v valid hashed is_nil) refl
    where
      retry : Stored t (again fuel t)
      retry =
          let (r, run, b) = rehash-Rebuilt laws t (length t.hash * 2) valid in
          let (u, run2, wrote) =
            moved t r b.reads (set_fuel fuel r key v) (next r b.valid b.room) in
          (u, rw run run2, wrote)

      go : (p : Place) → place laws t key v valid hashed is_nil ≡ p → HashStored fuel t
      go full e =
          let (at, nothing) = set_hash_full laws t key v valid hashed (again fuel) e in
          elim (Bool-cases (is_nil v)) [
            | inl n ↦ (t, at ∙ rw n, nothing n)
            | inr n ↦ subst (Stored t) (sym (at ∙ rw n)) retry
          ]
      go (Place.present s) e =
          set_hash_room laws t key v valid hashed (again fuel) nonempty (λ f. cc (e, f))
      go (Place.vacant d) e =
          set_hash_room laws t key v valid hashed (again fuel) nonempty (λ f. cc (e, f))

  equal_self : (k : TValue F) → is_nan k ≡ false → values_equal k k ≡ true
  unfolding values_equal
  equal_self (number d) h = ground arith
  equal_self (integer i) h = (int_eq_iff i i).1 refl
  equal_self nil h = refl
  equal_self (boolean b) h = ground arith
  equal_self (obj o p) h = ground arith

  float_HashKey :
      (size : ℕ)
      → is_nil key ≡ false
      → is_nan key ≡ false
      → key_as_integer key ≡ none
      → lookup_key key ≡ key
      → IsHashKey laws size (lookup_key key)
  unfolding key_as_integer
  float_HashKey size live real e l = record {
    normal = lookup_key-IsKey laws key;
    alive = rw l (rw live);
    self = rw l (equal_self key real);
    not_array = λ i f. cc (ap key_as_integer (sym l ∙ f), e);
  }

  integer_HashKey :
      (size : ℕ) (i : ℤ)
      → lookup_key key ≡ integer i
      → is_small i ≡ false
      → array_slot size i ≡ none
      → IsHashKey laws size (lookup_key key)
  integer_HashKey size i l small slot = record {
    normal = lookup_key-IsKey laws key;
    alive = rw l refl;
    self = rw l (equal_self (integer i) refl);
    not_array = λ j f.
        let same : i ≡ j = integer_inj i j (sym l ∙ f) in
        (ap is_small (sym same) ∙ small, ap (array_slot size) (sym same) ∙ slot);
  }
    where
      integer_inj : (a b : ℤ) → ◌≡◌ {A = TValue F} (integer a) (integer b) → a ≡ b
      integer_inj a b e = cc

  abbrev prepared : Table F → Table F
  prepared t = if touches_tm key then clear_tm_cache t else t

  module _ (t : Table F) (valid : IsValid laws t) where
    prepared-IsValid : IsValid laws (prepared t)
    prepared-IsValid = elim (Bool-cases (touches_tm key)) [
      | inl e ↦ rw e (record { placed = valid.placed; outside = valid.outside })
      | inr e ↦ rw e valid
    ]

    prepared-get : (j : TValue F) → get (prepared t) j ≡ get t j
    unfolding get
    prepared-get j = elim (Bool-cases (touches_tm key)) [ inl e ↦ rw e refl | inr e ↦ rw e refl ]

  record Ensured (t w : Table F) : Type 0 where
    valid : IsValid laws w
    nonempty : 0 < length w.hash
    array : w.array ≡ t.array
    reads : (j : TValue F) → get w j ≡ get t j
    room : used_count t.hash < length t.hash → used_count w.hash < length w.hash

  ensured :
      (t : Table F) (h : List (TableNode (TValue F) (TValue F)))
      → t.hash ≡ h
      → IsValid laws t
      → Ensured t (ensure_hash t)
  ensured t (m ∷ h) e valid =
      let same : ensure_hash t ≡ t =
        ap (λ (l : List (TableNode (TValue F) (TValue F))). ensure_slots l t) e in
      subst (Ensured t) (sym same) (record {
        valid = valid;
        nonempty = rw e (omega arith);
        array = refl;
        reads = λ j. refl;
        room = λ r. r;
      })
  ensured t [] e valid =
      let w : Table F = record t { hash = replicate 8 blank } in
      let same : ensure_hash t ≡ w =
        ap (λ (l : List (TableNode (TValue F) (TValue F))). ensure_slots l t) e in
      subst (Ensured t) (sym same) (record {
        valid = fresh-IsValid laws w 8 refl;
        nonempty = omega arith;
        array = refl;
        reads = λ j. same_reads t w j refl (λ x.
            blank-get_hash laws 8 x
            ∙ sym (
                ap (λ (h : List (TableNode (TValue F) (TValue F))). get_hash h x) e
                ∙ blank-get_hash laws 0 x));
        room = λ r. omega (arith, blank_count laws 8);
      })
    where
      same_reads :
          (t w : Table F) (j : TValue F)
          → w.array ≡ t.array
          → ((x : TValue F) → get_hash w.hash x ≡ get_hash t.hash x)
          → get w j ≡ get t j
      same_reads t w j a h = elim (lookup_key-cases laws j) [
        | inl (n, l) ↦ get-get_hash laws w j n ∙ h j ∙ sym (get-get_hash laws t j n)
        | inr (i, n, l) ↦ elim (Option-cases (array_slot (length t.array) i)) [
          | inl s ↦
              get-get_at laws w j i n
              ∙ get_at-none laws w i (ap (λ (b : List (TValue F)). array_slot (length b) i) a ∙ s)
              ∙ h (integer i)
              ∙ sym (get-get_at laws t j i n ∙ get_at-none laws t i s)
          | inr (k, s) ↦
              get-get_at laws w j i n
              ∙ get_at-some laws w i k (ap (λ (b : List (TValue F)). array_slot (length b) i) a ∙ s)
              ∙ ap (λ (b : List (TValue F)). get_or b k nil) a
              ∙ sym (get-get_at laws t j i n ∙ get_at-some laws t i k s)
        ]
      ]

  module _ (live : is_nil key ≡ false) (real : is_nan key ≡ false) where
    module _ (next : Table F → Result TableError (Table F)) (t : Table F) where
      abbrev in_hash : Result TableError (Table F)
      in_hash = set_hash next (ensure_hash (prepared t)) (lookup_key key) v

      set_with_other : key_as_integer key ≡ none → set_with next t key v ≡ in_hash
      unfolding set_with
      set_with_other e = ground arith

      set_with_small :
          (i : ℤ)
          → key_as_integer key ≡ some i
          → is_small i ≡ true
          → set_with next t key v ≡ ok (write_small (prepared t) i v)
      unfolding set_with
      set_with_small i e small = ground arith

      set_with_array :
          (i : ℤ) (k : ℕ)
          → key_as_integer key ≡ some i
          → is_small i ≡ false
          → array_slot (length (prepared t).array) i ≡ some k
          → set_with next t key v ≡ ok (write_array (prepared t) k v)
      unfolding set_with
      set_with_array i k e big a = ground arith

      set_with_int :
          (i : ℤ)
          → key_as_integer key ≡ some i
          → is_small i ≡ false
          → array_slot (length (prepared t).array) i ≡ none
          → set_with next t key v ≡ in_hash
      unfolding set_with
      set_with_int i e big a = ground arith

      -- After the tests of the key: the array part, or what the hash part answers.
      by_key :
          IsValid laws (prepared t)
          → (IsHashKey laws (length (prepared t).array) (lookup_key key)
              → Stored (prepared t) in_hash)
          → Stored (prepared t) (set_with next t key v)
      by_key valid hash = elim (lookup_key-cases laws key) [
        | inl (e, l) ↦
            subst (Stored (prepared t)) (sym (set_with_other e))
              (hash (float_HashKey _ live real e l))
        | inr (i, e, l) ↦ elim (Bool-cases (is_small i)) [
          | inl small ↦ (
            write_small (prepared t) i v,
            set_with_small i e small,
            write_small-Wrote laws (prepared t) key v valid i l small,
          )
          | inr big ↦ elim (Option-cases (array_slot (length (prepared t).array) i)) [
            | inr (k, a) ↦ (
              write_array (prepared t) k v,
              set_with_array i k e big a,
              write_array-Wrote laws (prepared t) key v valid i k l a,
            )
            | inl a ↦
                subst (Stored (prepared t)) (sym (set_with_int i e big a))
                  (hash (integer_HashKey _ i l big a))
          ]
        ]
      ]

    -- The hash part of the table that the tests leave, ready for its probe loop.
    ready : (t : Table F) → IsValid laws t → Ensured (prepared t) (ensure_hash (prepared t))
    ready t valid = ensured (prepared t) (prepared t).hash refl (prepared-IsValid t valid)

    prepared-room :
        (t : Table F)
        → used_count t.hash < length t.hash
        → used_count (prepared t).hash < length (prepared t).hash
    prepared-room t room = elim (Bool-cases (touches_tm key)) [
      | inl e ↦ rw e room
      | inr e ↦ rw e room
    ]

    set_fuel_room :
        (fuel : ℕ) (t : Table F)
        → IsValid laws t
        → used_count t.hash < length t.hash
        → Stored t (set_fuel (suc fuel) t key v)
    unfolding set_fuel again
    set_fuel_room fuel t valid room =
        let w = ready t valid in
        moved t (prepared t) (prepared-get t valid) _ (
          by_key (again fuel) t (prepared-IsValid t valid) (λ hashed.
            moved (prepared t) (ensure_hash (prepared t)) w.reads _ (
              hash_room fuel (ensure_hash (prepared t)) w.valid
                (subst (λ (a : List (TValue F)). IsHashKey laws (length a) (lookup_key key))
                  (sym w.array) hashed)
                (w.room (prepared-room t room)))))

    -- Given the laws of doubles, a key that is not nil and not a NaN is stored in every well-formed
    -- table, the recursive call after a rehash included: the result is well formed, reads the value
    -- under every key that is looked up as an equal one, and reads as before under every other.
    pub set_table-Stored : (t : Table F) → IsValid laws t → Stored t (set_table t key v)
    unfolding set_fuel again
    set_table-Stored t valid =
        let w = ready t valid in
        moved t (prepared t) (prepared-get t valid) _ (
          by_key (again 1) t (prepared-IsValid t valid) (λ hashed.
            moved (prepared t) (ensure_hash (prepared t)) w.reads _ (
              hash_again 1 (ensure_hash (prepared t)) w.valid
                (subst (λ (a : List (TValue F)). IsHashKey laws (length a) (lookup_key key))
                  (sym w.array) hashed)
                w.nonempty (λ r rvalid room. set_fuel_room 0 r rvalid room))))

module _ {F : Type 0} ⦃dbl : Double F⦄ ⦃str : Strings⦄ where
  -- `get_int` is `get` at the integer.
  pub get_int-get : (t : Table F) (i : ℤ) → get_int t i ≡ get t (integer i)
  unfolding get_int get lookup_key key_slot key_as_integer
  get_int-get t i = ground arith

module _ {F : Type 0} ⦃dbl : Double F⦄ ⦃str : Strings⦄ (laws : DoubleLaws F) where
  set_int_slot :
      (t : Table F) (i : ℤ) (v : TValue F) (k : ℕ)
      → array_slot (length t.array) i ≡ some k
      → set_int t i v ≡ ok (write_array t k v)
  unfolding set_int
  set_int_slot t i v k a = rw (a, set_int)

  set_int_small :
      (t : Table F) (i : ℤ) (v : TValue F)
      → array_slot (length t.array) i ≡ none
      → is_small i ≡ true
      → set_int t i v ≡ ok (write_small t i v)
  unfolding set_int
  set_int_small t i v a small = rw (a, small, set_int)

  set_int_large :
      (t : Table F) (i : ℤ) (v : TValue F)
      → array_slot (length t.array) i ≡ none
      → is_small i ≡ false
      → set_int t i v ≡ set_table t (integer i) v
  unfolding set_int
  set_int_large t i v a large =
      ap
        (λ (o : Option ℕ). elim o as (λ o'. Result TableError (Table F)) [
          | some k ↦ ok (write_array t k v)
          | none ↦ if is_small i then ok (write_small t i v) else set_table t (integer i) v
        ])
        a
      ∙ ap (λ (b : Bool). if b then ok (write_small t i v) else set_table t (integer i) v) large

  -- Given the laws of doubles, `set_int` on a well-formed table stores under the integer, whatever part
  -- of the table it goes to: the result is well formed, reads the value there, and elsewhere reads as
  -- before.
  pub set_int-Stored :
      (t : Table F) (i : ℤ) (v : TValue F)
      → IsValid laws t
      → Stored laws (integer i) v t (set_int t i v)
  unfolding lookup_key key_as_integer
  set_int-Stored t i v valid = elim (Option-cases (array_slot (length t.array) i)) [
    | inr (k, a) ↦ (
      write_array t k v,
      set_int_slot t i v k a,
      write_array-Wrote laws t (integer i) v valid i k refl a,
    )
    | inl a ↦ elim (Bool-cases (is_small i)) [
      | inl small ↦ (
        write_small t i v,
        set_int_small t i v a small,
        write_small-Wrote laws t (integer i) v valid i refl small,
      )
      | inr large ↦
          subst (Stored laws (integer i) v t) (sym (set_int_large t i v a large))
            (set_table-Stored laws (integer i) v refl refl t valid)
    ]
  ]
