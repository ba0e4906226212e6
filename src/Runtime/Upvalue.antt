-- ===== src/Runtime/Upvalue.antt =====
-- Upvalues (src/runtime/upvalue.hpp, src/runtime/upvalue.cpp) and the list of the open ones, which
-- src/vm/state.cpp keeps for each thread. An upvalue's address is its index in `upvals`, and a thread is
-- a number; `open_upvals` is the list of the thread at hand. `barriers` lists
-- the values of the calls `L->gc.barrier(this, v)`, newest first.
use luajit.Common.{
  ℕ, Bool, true, false, ◌&&◌, List, [], ◌∷◌, ◌++◌, length, get_or, set, leb, ◌==◌, if◌then◌else◌,
  Option, none, some,
}
pub mod Laws

-- `stack_index` is read while the upvalue is open only.
pub record UpVal (V : Type 0) : Type 0 where
  pub thread : Option ℕ
  pub stack_index : ℕ
  pub closed : V
  pub is_open : Bool

pub record Upvals (V : Type 0) : Type 0 where
  pub upvals : List (UpVal V)
  pub stacks : ℕ → List V
  pub open_upvals : List ℕ
  pub barriers : List V

module _ {V : Type 0} (nil : V) where
  abbrev pub fresh_upval : UpVal V
  fresh_upval = record { thread = none; stack_index = 0; closed = nil; is_open = true }

  abbrev pub upval : Upvals V → ℕ → UpVal V
  upval w a = get_or w.upvals a fresh_upval

  -- `thread->stack[stack_index]`
  abbrev pub on_stack : (ℕ → List V) → Option ℕ → ℕ → V
  on_stack stacks none i = nil
  on_stack stacks (some th) i = get_or (stacks th) i nil

  abbrev pub read : (ℕ → List V) → UpVal V → V
  read stacks uv = if uv.is_open then on_stack stacks uv.thread uv.stack_index else uv.closed

  -- `UpVal::get`
  abbrev pub get : Upvals V → ℕ → V
  get w a = read w.stacks (upval w a)

  -- `UpVal::close`
  abbrev pub closing : (ℕ → List V) → UpVal V → UpVal V
  closing stacks uv =
      if uv.is_open
      then record uv {
        closed = on_stack stacks uv.thread uv.stack_index;
        is_open = false;
        thread = none;
      }
      else uv

  abbrev pub close : Upvals V → ℕ → Upvals V
  close w a =
      let uv = upval w a in
      record w {
        upvals = set w.upvals a (closing w.stacks uv);
        barriers =
            (if uv.is_open
              then on_stack w.stacks uv.thread uv.stack_index ∷ w.barriers
              else w.barriers);
      }

  abbrev pub same_thread : Option ℕ → ℕ → Bool
  same_thread none th = false
  same_thread (some t) th = t == th

  abbrev pub is_from : ℕ → ℕ → UpVal V → Bool
  is_from th level uv = uv.is_open && same_thread uv.thread th && leb level uv.stack_index

  -- The loop of `State::close_upvals` over the rest of the list.
  unfoldable pub close_list : ℕ → ℕ → List ℕ → Upvals V → Upvals V
  close_list th level [] w = record w { open_upvals = [] }
  close_list th level (a ∷ more) w =
      let closed = close_list th level more (close w a) in
      let kept = close_list th level more w in
      if is_from th level (upval w a)
      then closed
      else record kept { open_upvals = a ∷ kept.open_upvals }

  abbrev pub close_upvals : Upvals V → ℕ → ℕ → Upvals V
  close_upvals w th level = close_list th level w.open_upvals w

  abbrev pub is_at : ℕ → ℕ → UpVal V → Bool
  is_at th level uv = uv.is_open && same_thread uv.thread th && uv.stack_index == level

  -- The loop of `State::find_upval`.
  unfoldable pub find_listed : Upvals V → ℕ → ℕ → List ℕ → Option ℕ
  find_listed w th level [] = none
  find_listed w th level (a ∷ more) =
      let rest = find_listed w th level more in if is_at th level (upval w a) then some a else rest

  abbrev pub new_upval : Upvals V → ℕ → ℕ → ℕ × Upvals V
  new_upval w th level = (
    length w.upvals,
    record w {
      upvals =
          w.upvals
          ++ (record { thread = some th; stack_index = level; closed = nil; is_open = true } ∷ []);
      open_upvals = length w.upvals ∷ w.open_upvals;
    },
  )

  abbrev pub found_or_new : Option ℕ → Upvals V → ℕ → ℕ → ℕ × Upvals V
  found_or_new none w th level = new_upval w th level
  found_or_new (some a) w th level = (a, w)

  unfoldable pub find_upval : Upvals V → ℕ → ℕ → ℕ × Upvals V
  unfolding find_listed
  find_upval w th level = found_or_new (find_listed w th level w.open_upvals) w th level
