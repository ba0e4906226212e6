-- ===== src/Runtime/Table/Weak.antt =====
-- Weak tables: `Table::clear_weak_entries` of src/runtime/table.cpp. `mark` reads an object's mark
-- through its address.
pub mod Reads
use luajit.Common.{ℕ, ◌/◌, ◌%◌, Bool, true, false, not, ◌&&◌, map, ◌==◌, if◌then◌else◌}
use luajit.Runtime.Probe.{TableNode}
use luajit.Runtime.Table.{Table}
use luajit.Runtime.Value.{TValue, nil, obj, ObjTag}
use Prim.Native.Nat.{bit_and}

abbrev pub is_gc_key : ObjTag → Bool
is_gc_key ObjTag.string = true
is_gc_key ObjTag.table = true
is_gc_key ObjTag.function = true
is_gc_key ObjTag.userdata = true
is_gc_key ObjTag.thread = true
is_gc_key _ = false

module _ {F : Type 0} (mark : ℕ → ℕ) (white : ℕ) where
  -- The lambda `dead`.
  abbrev pub is_dead : TValue F → Bool
  is_dead (obj t p) = is_gc_key t && not (p == 0) && mark p == white
  is_dead _ = false

  abbrev pub drop_dead : TValue F → TValue F
  drop_dead v = if is_dead v then nil else v

  -- A cleared key leaves its slot used.
  abbrev pub clear_node : ℕ → TableNode (TValue F) (TValue F) → TableNode (TValue F) (TValue F)
  clear_node mode n =
      if not n.used
      then n
      else if mode % 2 == 1 && is_dead n.key
      then record n { key = nil; value = nil }
      else if mode / 2 % 2 == 1 && is_dead n.value
      then record n { value = nil }
      else n

  unfoldable pub clear_weak_entries : ℕ → Table F → Table F
  clear_weak_entries mask t =
      let mode = bit_and t.weak_mode mask in
      if mode == 0 then t else record t {
        array = (if mode / 2 % 2 == 1 then map drop_dead t.array else t.array);
        hash = map (clear_node mode) t.hash;
      }
