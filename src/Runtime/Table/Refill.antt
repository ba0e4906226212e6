-- ===== src/Runtime/Table/Refill.antt =====
-- `raw_insert`: one entry into the fresh parts of a rehash.
use luajit.Common.{ℕ, ◌+◌, ◌≤◌, ◌<◌, false, none, some, ◌∷◌, length, ◌≡◌, refl, arith, length-set}
use luajit.Common.Int.{ℤ}
use luajit.Common.Result.{ok}
use luajit.Runtime.Probe.{Place, present, vacant, full}
use luajit.Runtime.Probe.Find.{Misses}
use luajit.Runtime.Probe.Room.{used_count, used_count-set, find_place-ne-full}
use luajit.Runtime.Table.Hashed.{IsHashKey, place, place-Misses, present_Wrote, vacant_Wrote}
use luajit.Runtime.Table.Valid.{IsValid, Wrote, seek}
use luajit.Runtime.Table.Writes.{write_array-Wrote}
use luajit.Runtime.Table.{
  Strings, Table, hash_key, key_as_integer, lookup_key, key_slot, blank, array_slot, write_node,
  write_value, write_array, barrier, raw_insert,
}
use luajit.Runtime.Value.Equality.{DoubleLaws}
use luajit.Runtime.Value.{Double, TValue, integer, values_equal, is_nil}

-- The sizes are kept, and at most one more slot is used.
pub record Kept {F : Type 0} (t u : Table F) : Type 0 where
  pub array_size : length u.array ≡ length t.array
  pub hash_size : length u.hash ≡ length t.hash
  pub used : used_count u.hash ≤ used_count t.hash + 1

module _ {F : Type 0} ⦃dbl : Double F⦄ ⦃str : Strings⦄ (laws : DoubleLaws F) (t : Table F)
    (key v : TValue F) (valid : IsValid laws t) (value : is_nil v ≡ false) where
  abbrev pub Inserts : Type 0
  Inserts = (u : Table F) × (raw_insert t key v ≡ ok u) × Wrote laws t key v u × Kept t u

  pub raw_insert_array :
      (i : ℤ) (k : ℕ)
      → lookup_key key ≡ integer i
      → key_as_integer key ≡ some i
      → array_slot (length t.array) i ≡ some k
      → Inserts
  unfolding raw_insert key_slot
  raw_insert_array i k l e a = (
    write_array t k v,
    rw value (rw (e, key_slot) (rw (a, key_slot))),
    write_array-Wrote laws t key v valid i k l a,
    record { array_size = length-set t.array k v; hash_size = refl; used = omega arith },
  )

  pub raw_insert_hash :
      IsHashKey laws (length t.array) (lookup_key key)
      → key_slot (length t.array) key ≡ none
      → used_count t.hash < length t.hash
      → Inserts
  unfolding raw_insert
  raw_insert_hash hashed outside room =
      go (place laws t key v valid hashed (λ _. false)) refl
        (place-Misses laws t key v valid hashed (λ _. false))
    where
      nonempty : 0 < length t.hash
      nonempty = omega arith

      go :
          (p : Place)
          → place laws t key v valid hashed (λ _. false) ≡ p
          → Misses (values_equal {F = F}) blank (λ _. false) p (seek laws t.hash (lookup_key key))
          → Inserts
      go full e m = absurd (
          find_place-ne-full (values_equal {F = F}) blank (λ _. false) t.hash (lookup_key key)
            (hash_key {F = F} (lookup_key key) (length t.hash)) room e)
      go (present s) e m = (
        barrier (write_value t s v) v,
        rw value (rw (outside, raw_insert) (rw (e, raw_insert))),
        present_Wrote laws t key v valid hashed s (v ∷ t.barriers) nonempty m,
        record {
          array_size = refl;
          hash_size = length-set t.hash s _;
          used = used_count-set t.hash s _;
        },
      )
      go (vacant d) e m = (
        write_node t d (lookup_key key) v,
        rw value (rw (outside, raw_insert) (rw (e, raw_insert))),
        vacant_Wrote laws t key v valid hashed (λ _. false) d (write_node t d (lookup_key key) v)
            (λ w f. cc f) nonempty e refl refl,
        record {
          array_size = refl;
          hash_size = length-set t.hash d _;
          used = used_count-set t.hash d _;
        },
      )
