-- ===== src/Tests/Tables.antt =====
-- Tables with eight keys in eight slots, so that a ninth key takes the path through the rehash.
use Prim.Native.Nat.{bit_and}
use luajit.Common.{
  ◌/◌, ◌&&◌, ℕ, zero, suc, ◌*◌, ◌%◌, ◌^◌, true, false, [], ◌∷◌, none, length, replicate, ◌<◌, ◌⊎◌,
  ◌==◌, if◌then◌else◌, ◌≡◌, refl,
}
use luajit.Common.Int.{pos}
use luajit.Common.Result.{ok}
use luajit.Runtime.Table.Assigned.{get-set_table}
use luajit.Runtime.Table.Border.{safety_limit, IsBorder, table_length, table_length_lem}
use luajit.Runtime.Table.Rebuilt.{Rebuilt, fresh-IsValid, rehash-Rebuilt}
use luajit.Runtime.Table.Set.{Stored, set_table-Stored, set_int-Stored, get_int-get}
use luajit.Runtime.Table.Valid.{IsValid}
use luajit.Runtime.Table.{Strings, Table, rehash, get, get_int, set_table, set_int}
use luajit.Runtime.Table.Weak.{clear_weak_entries, is_dead}
use luajit.Runtime.Table.Weak.Reads.{get-clear_weak_entries}
use luajit.Runtime.Value.Equality.{values_equal_trans}
use luajit.Runtime.Value.{nil, boolean, integer, number, obj, ObjTag, values_equal}
use luajit.Tests.Doubles.{Sample, exact, half, samples, sample_laws}

-- The strings at the addresses: "__index" at 7, and one-byte strings elsewhere.
instance abbrev names : Strings
names = record {
  hash = λ p. p * 16777619 % 2 ^ 32;
  view = λ p. if p == 7 then b'_' ∷ b'_' ∷ b'i' ∷ b'n' ∷ b'd' ∷ b'e' ∷ b'x' ∷ [] else p ∷ [];
}

abbrev eight_slots : Table Sample
eight_slots = record {
  array = [];
  hash = replicate 8 (record { used = false; key = nil; value = nil });
  metatable = none;
  structure_version = 1;
  opt_flags = 0;
  weak_mode = 0;
  barriers = [];
}

-- Integers stored under the strings at the addresses below `n`.
stored : ℕ → (t : Table Sample) × IsValid sample_laws t
stored zero = (eight_slots, fresh-IsValid sample_laws eight_slots 8 refl)
stored (suc n) =
    let (t, valid) = stored n in
    let s =
      set_table-Stored sample_laws (obj ObjTag.string n) (integer (pos n)) refl refl t valid in
    (s.0, s.2.valid)

abbrev crowded : Table Sample
crowded = (stored 8).0

abbrev crowded-IsValid : IsValid sample_laws crowded
crowded-IsValid = (stored 8).1

-- Stored under 0.5, read under 0.
get-set_table_example :
    (u : Table Sample) × (set_table crowded (number (half true)) (boolean true) ≡ ok u)
    × IsValid sample_laws u
    × (get u (integer (pos 0)) ≡ (
        if values_equal {F = Sample} (number (half true)) (integer (pos 0))
        then boolean true
        else get crowded (integer (pos 0))))
get-set_table_example =
    get-set_table sample_laws crowded (number (half true)) (boolean true) (integer (pos 0))
      crowded-IsValid refl refl refl tt

rehash-Rebuilt_example :
    (u : Table Sample) × (rehash crowded (length crowded.array) 16 ≡ ok u)
    × Rebuilt sample_laws crowded u
rehash-Rebuilt_example = rehash-Rebuilt sample_laws crowded 16 crowded-IsValid

set_int-Stored_example :
    Stored sample_laws
      (integer (pos 100))
      (boolean true)
      crowded
      (set_int crowded (pos 100) (boolean true))
set_int-Stored_example = set_int-Stored sample_laws crowded (pos 100) (boolean true) crowded-IsValid

get_int-get_example : get_int crowded (pos 3) ≡ get crowded (integer (pos 3))
get_int-get_example = get_int-get crowded (pos 3)

values_equal_trans_example : values_equal {F = Sample} (integer (pos 3)) (integer (pos 3)) ≡ true
unfolding values_equal
values_equal_trans_example =
    values_equal_trans sample_laws (integer (pos 3)) (number (exact (pos 3))) (integer (pos 3)) refl
      refl

table_length_lem_example :
    IsBorder crowded (table_length crowded) ⊎ (safety_limit < table_length crowded)
table_length_lem_example = table_length_lem crowded

-- All slots have a string key; the object at 3 is dead.
abbrev weak_keys : Table Sample
weak_keys = record crowded { weak_mode = 1 }

abbrev marks : ℕ → ℕ
marks p = if p == 3 then 1 else 0

get-clear_weak_entries_example :
    get (clear_weak_entries marks 1 3 weak_keys) (obj ObjTag.string 3) ≡ (
      if bit_and weak_keys.weak_mode 3 % 2 == 1
        && is_dead {F = Sample} marks 1 (obj ObjTag.string 3)
      then nil
      else if bit_and weak_keys.weak_mode 3 / 2 % 2 == 1
          && is_dead {F = Sample} marks 1 (get weak_keys (obj ObjTag.string 3))
      then nil
      else get weak_keys (obj ObjTag.string 3))
get-clear_weak_entries_example =
    get-clear_weak_entries marks 1 weak_keys 3 (obj ObjTag.string 3) refl
