-- ===== src/Vm/Stack/Laws.antt =====
-- What the stack operations keep.
use luajit.Common.{
  ℕ, zero, suc, ◌+◌, ◌-◌, ◌≤◌, ◌<◌, ◌≡◌, refl, ap, ap₂, ◌∙◌, arith, false, List, length, get_or,
  set, replicate, ltb, leb, ◌==◌, if◌then◌else◌, ◌||◌, length-append, length-set, get_or-set,
  Bool-cases, inl, inr, length-replicate, get_or-pad,
}
use luajit.Common.Int.{pos, sub_ℕ, ltb_ℤ}
use luajit.Vm.Stack.{Stack, ensure_stack, gettop, clear_slots, settop, push, pop}

-- The window lies below the top, and the top within the vector.
abbrev pub IsStack : {V : Type 0} → Stack V → Type 0
IsStack st = (st.stack_base ≤ st.top) × (st.top ≤ length st.slots)

module _ {V : Type 0} (nil : V) where
  ensure_stack_room : (st : Stack V) (n : ℕ) → n ≤ length (ensure_stack nil st n).slots
  unfolding ensure_stack
  ensure_stack_room st n = ground (
    arith,
    length-append st.slots (replicate (n + 64 - length st.slots) nil),
    length-replicate (n + 64 - length st.slots) nil,
  )

  ensure_stack_longer :
      (st : Stack V) (n : ℕ) → length st.slots ≤ length (ensure_stack nil st n).slots
  unfolding ensure_stack
  ensure_stack_longer st n =
      ground (arith, length-append st.slots (replicate (n + 64 - length st.slots) nil))

  ensure_stack_top :
      (st : Stack V) (n : ℕ)
      → ((ensure_stack nil st n).top ≡ st.top)
        × ((ensure_stack nil st n).stack_base ≡ st.stack_base)
  unfolding ensure_stack
  ensure_stack_top st n = ground arith

  ensure_stack_reads :
      (st : Stack V) (n i : ℕ) → get_or (ensure_stack nil st n).slots i nil ≡ get_or st.slots i nil
  unfolding ensure_stack
  ensure_stack_reads st n i = elim (Bool-cases (ltb (length st.slots) n)) [
    | inl e ↦ rw e (get_or-pad st.slots (n + 64 - length st.slots) i nil)
    | inr e ↦ rw e
  ]

  length-clear_slots : (k from : ℕ) (s : List V) → length (clear_slots nil k from s) ≡ length s
  unfolding clear_slots
  length-clear_slots zero from s = refl
  length-clear_slots (suc k) from s =
      length-clear_slots k (suc from) (set s from nil) ∙ length-set s from nil

  get_or-clear_slots :
      (k from i : ℕ) (s : List V)
      → from + k ≤ length s
      → get_or (clear_slots nil k from s) i nil
        ≡ (if ltb i from || leb (from + k) i then get_or s i nil else nil)
  unfolding clear_slots
  get_or-clear_slots zero from i s h = ground arith
  get_or-clear_slots (suc k) from i s h =
      get_or-clear_slots k (suc from) i (set s from nil) (omega (arith, length-set s from nil))
      ∙ ground (arith, get_or-set s from i nil nil)

  push_parts :
      (st : Stack V) (v : V)
      → ((push nil st v).slots ≡ set (ensure_stack nil st (st.top + 1)).slots st.top v)
        × ((push nil st v).top ≡ st.top + 1)
        × ((push nil st v).stack_base ≡ st.stack_base)
  unfolding push
  push_parts st v =
      let (t, b) = ensure_stack_top st (st.top + 1) in
      (
        ap (λ (n : ℕ). set (ensure_stack nil st (st.top + 1)).slots n v) t,
        ap (λ (n : ℕ). n + 1) t,
        b,
      )

  pop_parts :
      (st : Stack V)
      → st.stack_base < st.top
      → pop nil st ≡ (get_or st.slots (st.top - 1) nil, record st { top = st.top - 1 })
  unfolding pop
  pop_parts st h = let some_value : leb st.top st.stack_base ≡ false = ground arith in rw some_value

  push_room : (st : Stack V) (v : V) → st.top < length (push nil st v).slots
  push_room st v = omega (
    arith,
    ap length (push_parts st v).0,
    length-set (ensure_stack nil st (st.top + 1)).slots st.top v,
    ensure_stack_room st (st.top + 1),
  )

  push_reads :
      (st : Stack V) (v : V) (i : ℕ)
      → get_or (push nil st v).slots i nil ≡ (if i == st.top then v else get_or st.slots i nil)
  push_reads st v i =
      ap (λ (s : List V). get_or s i nil) (push_parts st v).0
      ∙ ground (
        arith,
        get_or-set (ensure_stack nil st (st.top + 1)).slots st.top i v nil,
        ensure_stack_room st (st.top + 1),
        ensure_stack_reads st (st.top + 1) i,
      )

  -- What `push` adds is what `pop` returns; the pair leaves the top, the base and every slot but the
  -- one above the top as they were, and a push keeps the stack well formed.
  pop-push :
      (st : Stack V) (v : V)
      → IsStack st
      → ((pop nil (push nil st v)).0 ≡ v)
        × ((pop nil (push nil st v)).1.top ≡ st.top)
        × ((pop nil (push nil st v)).1.stack_base ≡ st.stack_base)
        × ((i : ℕ)
            → get_or (pop nil (push nil st v)).1.slots i nil
              ≡ (if i == st.top then v else get_or st.slots i nil))
        × IsStack (push nil st v)
  pop-push st v (base, room) =
      let (s, t, b) = push_parts st v in
      rw (pop_parts (push nil st v) (omega arith)) (
        ap (λ (n : ℕ). get_or (push nil st v).slots (n - 1) nil) t
            ∙ push_reads st v (st.top + 1 - 1)
            ∙ ground arith,
        omega arith,
        b,
        push_reads st v,
        (omega arith, omega (arith, push_room st v)),
      )

  settop_parts :
      (st : Stack V) (n : ℕ)
      → ((settop nil st (pos n)).top ≡ st.stack_base + n)
        × ((settop nil st (pos n)).stack_base ≡ st.stack_base)
        × ((settop nil st (pos n)).slots
            ≡ clear_slots nil
                (st.top - (st.stack_base + n))
                (st.stack_base + n)
                (ensure_stack nil st (st.stack_base + n)).slots)
  unfolding settop
  settop_parts st n =
      let nonnegative : ltb_ℤ (pos n) (pos 0) ≡ false = ground arith in
      let (t, b) = ensure_stack_top st (st.stack_base + n) in
      rw nonnegative (
        refl,
        b,
        ap
            (λ (k : ℕ).
              clear_slots nil (k - (st.stack_base + n)) (st.stack_base + n)
                (ensure_stack nil st (st.stack_base + n)).slots)
            t,
      )

  -- After `settop(n)`, n not negative, the window holds n values. Slots below the new top and slots at
  -- or above the old top keep what they held, and those from the new top up to the old one are nil. So
  -- a top that grows takes in what the vector held above the old top, nil only where the vector is new
  -- or was cleared.
  pub settop_lem :
      (st : Stack V) (n : ℕ)
      → IsStack st
      → (gettop nil (settop nil st (pos n)) ≡ pos n)
        × IsStack (settop nil st (pos n))
        × ((i : ℕ)
            → get_or (settop nil st (pos n)).slots i nil
              ≡ (if ltb i (st.stack_base + n) || leb st.top i then get_or st.slots i nil else nil))
  settop_lem st n (base, room) =
      let (t, b, s) = settop_parts st n in
      let grown = (ensure_stack nil st (st.stack_base + n)).slots in
      let size = length-clear_slots (st.top - (st.stack_base + n)) (st.stack_base + n) grown in
      let long = ensure_stack_longer st (st.stack_base + n) in
      (
        ap₂ sub_ℕ t b ∙ ground arith,
        (omega arith, omega (arith, ap length s, size, ensure_stack_room st (st.stack_base + n))),
        λ i.
            ap (λ (l : List V). get_or l i nil) s
            ∙ get_or-clear_slots (st.top - (st.stack_base + n)) (st.stack_base + n) i grown
                (omega (arith, ensure_stack_room st (st.stack_base + n)))
            ∙ ground (arith, ensure_stack_reads st (st.stack_base + n) i),
      )
