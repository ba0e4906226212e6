-- ===== src/Runtime/Table.antt =====
-- Tables (src/runtime/table.hpp, src/runtime/table.cpp): an array part, an open-addressing hash part
-- and the caches that go with them. `barriers` lists the calls `L->gc.barrier(this, v)`, newest first.
use Prim.Native.Nat.{bit_xor, max}
use luajit.Common.{
  ℕ, zero, suc, ◌+◌, ◌-◌, ◌*◌, ◌%◌, ◌^◌, Bool, true, false, not, ◌&&◌, List, [], ◌∷◌, ◌++◌, Option,
  none, some, length, get_or, set, replicate, ltb, ◌==◌, if◌then◌else◌,
}
use luajit.Common.Int.{ℤ, pos}
use luajit.Common.Result.{Result, ok, err, ◌>>=◌}
use luajit.Runtime.Probe.{TableNode, hit, missing, present, vacant, full, node, find, find_place}
use luajit.Runtime.Value.{
  Double, TValue, nil, integer, number, obj, ObjTag, tag, tag_number, payload, values_equal, is_nil,
  min_int,
}
pub mod Laws
pub mod Valid
pub mod Writes
pub mod Hashed
pub mod Refill
pub mod Rehash
pub mod Rebuild
pub mod Rebuilt
pub mod Set
pub mod Assigned
pub mod Border
pub mod Weak

-- What the code reads of an interned string through its address: its cached hash and its bytes.
pub record Strings : Type 0 where
  pub hash : ℕ → ℕ
  pub view : ℕ → List ℕ

pub record Table (F : Type 0) : Type 0 where
  pub array : List (TValue F)
  pub hash : List (TableNode (TValue F) (TValue F))
  pub metatable : Option ℕ
  pub structure_version : ℕ
  pub opt_flags : ℕ
  pub weak_mode : ℕ
  pub barriers : List (TValue F)

pub data TableError : Type 0 where
  index_is_nil index_is_nan hash_full out_of_fuel : TableError

-- `++structure_version` of a `uint32_t`
abbrev pub bump_version : ℕ → ℕ
bump_version v = (v + 1) % 2 ^ 32

-- The slot `i - 1` of the array part, if `i >= 1 && i <= size`.
abbrev pub array_slot : ℕ → ℤ → Option ℕ
array_slot size (pos (suc k)) = if ltb k size then some k else none
array_slot size _ = none

abbrev pub is_small : ℤ → Bool
is_small (pos (suc k)) = ltb k 64
is_small _ = false

abbrev pub starts_with_underscores : List ℕ → Bool
starts_with_underscores (a ∷ b ∷ s) = a == b'_' && b == b'_'
starts_with_underscores _ = false

-- `while (hs < goal) hs <<= 1`
unfoldable pub double_until : ℕ → ℕ → ℕ → ℕ
double_until zero goal hs = hs
double_until (suc fuel) goal hs =
    let rest = double_until fuel goal (hs * 2) in if ltb hs goal then rest else hs

module _ {F : Type 0} where
  abbrev pub blank : TableNode (TValue F) (TValue F)
  blank = record { used = false; key = nil; value = nil }

  abbrev pub barrier : Table F → TValue F → Table F
  barrier t v = record t { barriers = v ∷ t.barriers }

  -- `array[k] = value`, with the barrier
  abbrev pub write_array : Table F → ℕ → TValue F → Table F
  write_array t k value = barrier (record t { array = set t.array k value }) value

  -- `array.resize(i, nil)`, if the array part is shorter
  abbrev pub resize_array : ℕ → List (TValue F) → List (TValue F)
  resize_array i a = a ++ replicate (i - length a) nil

  -- The part of `Table::set_int` that stays in the array part; `i = k + 1`.
  abbrev pub grow_array : Table F → ℕ → TValue F → Table F
  grow_array t k value =
      barrier
        (record t {
          array = set (resize_array (suc k) t.array) k value;
          structure_version = bump_version t.structure_version;
        })
        value

  abbrev pub write_small : Table F → ℤ → TValue F → Table F
  write_small t (pos (suc k)) value =
      if ltb k (length t.array) then write_array t k value else grow_array t k value
  write_small t _ value = t

  abbrev pub clear_tm_cache : Table F → Table F
  clear_tm_cache t = record t { opt_flags = 0 }

  -- `++nitems` over both parts
  unfoldable pub count_values : List (TValue F) → ℕ
  count_values [] = 0
  count_values (v ∷ a) = (if is_nil v then 0 else 1) + count_values a

  unfoldable pub count_nodes : List (TableNode (TValue F) (TValue F)) → ℕ
  count_nodes [] = 0
  count_nodes (n ∷ h) = (if n.used && not (is_nil n.value) then 1 else 0) + count_nodes h

module _ {F : Type 0} ⦃dbl : Double F⦄ ⦃str : Strings⦄ where
  unfoldable pub hash_key : TValue F → ℕ → ℕ
  hash_key k zero = 0
  hash_key (obj ObjTag.string p) m = str.hash p % m
  hash_key k m = bit_xor (payload k) (tag_number (tag k) * 2 ^ 32) % m

  -- The test `d >= (double)INT64_MIN && d <= (double)INT64_MAX && d == floor(d)` is behind the NaN test.
  unfoldable pub key_as_integer : TValue F → Option ℤ
  key_as_integer (integer i) = some i
  key_as_integer (number d) =
      if not (dbl.eq d d)
      then none
      else if dbl.le min_int d && dbl.le d (dbl.of_int (pos (2 ^ 63 - 1))) && dbl.eq d (dbl.floor d)
      then (if dbl.eq (dbl.of_int (dbl.to_int d)) d then some (dbl.to_int d) else none)
      else none
  key_as_integer _ = none

  -- `lookup`
  unfoldable pub lookup_key : TValue F → TValue F
  unfolding key_as_integer
  lookup_key k = elim (key_as_integer k) [ some i ↦ integer i | none ↦ k ]

  -- The array slot that a key names, if it does.
  unfoldable pub key_slot : ℕ → TValue F → Option ℕ
  unfolding key_as_integer
  key_slot size k = elim (key_as_integer k) [ some i ↦ array_slot size i | none ↦ none ]

  -- The probe loop of `Table::get`; over an empty hash part it makes no round.
  unfoldable pub get_hash : List (TableNode (TValue F) (TValue F)) → TValue F → TValue F
  unfolding find hash_key values_equal
  get_hash h k = elim (find values_equal blank h k (hash_key k (length h)) 0 (length h)) [
    | hit s ↦ (node blank h s).value
    | missing ↦ nil
  ]

  unfoldable pub get : Table F → TValue F → TValue F
  unfolding get_hash lookup_key key_slot
  get t key = elim (key_slot (length t.array) key) [
    | some k ↦ get_or t.array k nil
    | none ↦ get_hash t.hash (lookup_key key)
  ]

  unfoldable pub get_int : Table F → ℤ → TValue F
  unfolding get
  get_int t i = elim (array_slot (length t.array) i) [
    | some k ↦ get_or t.array k nil
    | none ↦ get t (integer i)
  ]

  -- A write of key and value into a free slot, with both barriers.
  abbrev pub write_node : Table F → ℕ → TValue F → TValue F → Table F
  write_node t slot key value =
      barrier
        (barrier
          (record t { hash = set t.hash slot (record { used = true; key = key; value = value }) })
          key)
        value

  abbrev pub write_value : Table F → ℕ → TValue F → Table F
  write_value t slot value = record t {
    hash = set t.hash slot (record (node blank t.hash slot) { value = value });
  }

  -- The lambda `raw_insert` of `Table::rehash`. Its loop notes no deleted slots.
  unfoldable pub raw_insert : Table F → TValue F → TValue F → Result TableError (Table F)
  unfolding find_place hash_key values_equal lookup_key key_slot
  raw_insert t key value = if is_nil value then ok t else elim (key_slot (length t.array) key) [
    | some k ↦ ok (write_array t k value)
    | none ↦
        let lookup = lookup_key key in
        elim (find_place values_equal blank (λ _. false) t.hash lookup
          (hash_key lookup (length t.hash)) 0 none (length t.hash)) [
            | present slot ↦ ok (barrier (write_value t slot value) value)
            | vacant slot ↦ ok (write_node t slot lookup value)
            | full ↦ err hash_full
          ]
  ]

  unfoldable pub insert_array : ℕ → List (TValue F) → Table F → Result TableError (Table F)
  unfolding raw_insert
  insert_array i [] t = ok t
  insert_array i (v ∷ a) t = raw_insert t (integer (pos (suc i))) v >>= insert_array (suc i) a

  unfoldable pub insert_nodes :
      List (TableNode (TValue F) (TValue F)) → Table F → Result TableError (Table F)
  unfolding raw_insert
  insert_nodes [] t = ok t
  insert_nodes (n ∷ h) t = (if n.used then raw_insert t n.key n.value else ok t) >>= insert_nodes h

  unfoldable pub rehash : Table F → ℕ → ℕ → Result TableError (Table F)
  unfolding insert_array insert_nodes double_until count_values count_nodes
  rehash t array_hint hash_hint =
      let nitems = count_values t.array + count_nodes t.hash in
      let goal = max hash_hint (nitems + 1) in
      let fresh = record t {
        array = replicate array_hint nil;
        hash = replicate (double_until goal goal 8) blank;
        structure_version = bump_version t.structure_version;
      } in
      insert_array 0 t.array fresh >>= insert_nodes t.hash

  -- `hash.resize(8)` of an empty hash part
  abbrev pub ensure_slots : List (TableNode (TValue F) (TValue F)) → Table F → Table F
  ensure_slots [] t = record t { hash = replicate 8 blank }
  ensure_slots (n ∷ h) t = t

  abbrev pub ensure_hash : Table F → Table F
  ensure_hash t = ensure_slots t.hash t

  -- The end of `Table::set`, on the hash part; `again` is the call after the rehash.
  unfoldable pub set_hash :
      (Table F → Result TableError (Table F))
      → Table F
      → TValue F
      → TValue F
      → Result TableError (Table F)
  unfolding find_place hash_key values_equal
  set_hash again t lookup value =
      elim (find_place values_equal blank is_nil t.hash lookup (hash_key lookup (length t.hash)) 0
        none (length t.hash)) [
          | present slot ↦ ok (
              if is_nil value
              then write_value t slot value
              else barrier (write_value t slot value) value)
          | vacant slot ↦ ok (
              if is_nil value
              then t
              else write_node (record t { structure_version = bump_version t.structure_version })
                  slot lookup value)
          | full ↦ if is_nil value then ok t else again t
        ]

  abbrev pub touches_tm : TValue F → Bool
  touches_tm (obj ObjTag.string p) = starts_with_underscores (str.view p)
  touches_tm _ = false

  abbrev pub is_nan : TValue F → Bool
  is_nan (number d) = not (dbl.eq d d)
  is_nan _ = false

  -- The body of `Table::set`; `again` is what it does when the hash part is full.
  unfoldable pub set_with :
      (Table F → Result TableError (Table F))
      → Table F
      → TValue F
      → TValue F
      → Result TableError (Table F)
  unfolding key_as_integer lookup_key set_hash
  set_with again t key value =
      let u = if touches_tm key then clear_tm_cache t else t in
      let in_hash = set_hash again (ensure_hash u) (lookup_key key) value in
      if is_nil key
      then err index_is_nil
      else if is_nan key
      then err index_is_nan
      else elim (key_as_integer key) [
        | none ↦ in_hash
        | some i ↦
            if is_small i
            then ok (write_small u i value)
            else elim (array_slot (length u.array) i) [
              | some k ↦ ok (write_array u k value)
              | none ↦ in_hash
            ]
      ]

  -- `Table::set`, with fuel for its call of itself after a rehash.
  unfoldable pub set_fuel : ℕ → Table F → TValue F → TValue F → Result TableError (Table F)
  unfolding set_with rehash
  set_fuel zero t key value = err out_of_fuel
  set_fuel (suc fuel) t key value =
      set_with
        (λ u. rehash u (length u.array) (length u.hash * 2) >>= (λ r. set_fuel fuel r key value)) t
        key value

  -- One call of itself is enough: the rehash leaves room.
  abbrev pub set_table : Table F → TValue F → TValue F → Result TableError (Table F)
  set_table = set_fuel 2

  unfoldable pub set_int : Table F → ℤ → TValue F → Result TableError (Table F)
  unfolding set_fuel
  set_int t i value = elim (array_slot (length t.array) i) [
    | some k ↦ ok (write_array t k value)
    | none ↦ if is_small i then ok (write_small t i value) else set_table t (integer i) value
  ]
