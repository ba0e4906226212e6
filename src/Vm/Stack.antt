-- ===== src/Vm/Stack.antt =====
-- The stack of a thread as src/vm/state.cpp works on it: `State::push`, `pop`, `settop` and `at`.
-- `stack_base` is where the window of a C call starts. An `int` is an integer; sizes fit in it.
use luajit.Common.{
  ℕ, zero, suc, ◌+◌, ◌-◌, ◌%◌, ◌^◌, List, ◌++◌, length, get_or, set, replicate, ltb, leb,
  if◌then◌else◌,
}
use luajit.Common.Int.{ℤ, pos, negsuc, sub_ℕ, ◌+ℤ◌, ltb_ℤ}
use luajit.Common.Result.{Result, ok, err}
pub mod Laws

pub record Stack (V : Type 0) : Type 0 where
  pub slots : List V
  pub top : ℕ
  pub stack_base : ℕ
  pub stack_version : ℕ

pub data StackError : Type 0 where
  invalid_stack_index : StackError

-- `std::max(i, 0)`, as the two tests on a negative number make it.
abbrev pub clamp : ℤ → ℕ
clamp (pos n) = n
clamp (negsuc n) = 0

module _ {V : Type 0} (nil : V) where
  unfoldable pub ensure_stack : Stack V → ℕ → Stack V
  ensure_stack st n =
      if ltb (length st.slots) n
      then record st {
        slots = st.slots ++ replicate (n + 64 - length st.slots) nil;
        stack_version = (st.stack_version + 1) % 2 ^ 32;
      }
      else st

  abbrev pub gettop : Stack V → ℤ
  gettop st = sub_ℕ st.top st.stack_base

  -- `for (i = from; i < from + k; ++i) stack[i] = nil`
  unfoldable pub clear_slots : ℕ → ℕ → List V → List V
  clear_slots zero from s = s
  clear_slots (suc k) from s = clear_slots k (suc from) (set s from nil)

  unfoldable pub set_abs_top : Stack V → ℤ → Stack V
  unfolding ensure_stack clear_slots
  set_abs_top st abs_idx =
      let top = clamp abs_idx in
      let grown = ensure_stack st top in
      record grown { slots = clear_slots (grown.top - top) top grown.slots; top = top }

  unfoldable pub settop : Stack V → ℤ → Stack V
  unfolding set_abs_top
  settop st idx =
      let i = if ltb_ℤ idx (pos 0) then gettop st +ℤ idx +ℤ pos 1 else idx in
      set_abs_top st (pos (st.stack_base + clamp i))

  unfoldable pub push : Stack V → V → Stack V
  unfolding ensure_stack
  push st v =
      let grown = ensure_stack st (st.top + 1) in
      record grown { slots = set grown.slots grown.top v; top = grown.top + 1 }

  unfoldable pub pop : Stack V → V × Stack V
  pop st =
      if leb st.top st.stack_base
      then (nil, st)
      else (get_or st.slots (st.top - 1) nil, record st { top = st.top - 1 })

  unfoldable pub absindex : Stack V → ℤ → ℤ
  unfolding ◌+ℤ◌
  absindex st (pos n) = pos n
  absindex st (negsuc n) = gettop st +ℤ negsuc n +ℤ pos 1

  abbrev pub slot_at : Stack V → ℤ → Result StackError V
  slot_at st (pos (suc n)) =
      if ltb_ℤ (gettop st) (pos (suc n))
      then err invalid_stack_index
      else ok (get_or st.slots (st.stack_base + n) nil)
  slot_at st _ = err invalid_stack_index

  -- `at`, read through
  unfoldable pub at : Stack V → ℤ → Result StackError V
  unfolding absindex
  at st idx = slot_at st (absindex st idx)
