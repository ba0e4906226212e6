-- ===== src/Runtime/Upvalue/Laws.antt =====
-- Upvalues keep their values when they are closed, and are shared.
use luajit.Common.{
  ℕ, zero, suc, ◌≡◌, refl, sym, ap, ◌∙◌, arith, Bool, true, false, ◌&&◌, ◌||◌, List, [], ◌∷◌, ◌++◌,
  length, get_or, set, leb, ◌==◌, if◌then◌else◌, Option, none, some, Bool-cases, inl, inr,
  Option-cases,
}
use luajit.Runtime.Upvalue.{
  UpVal, Upvals, fresh_upval, upval, on_stack, read, get, closing, close, same_thread, is_from,
  close_list, close_upvals, is_at, find_listed, new_upval, found_or_new, find_upval,
}

module _ {V : Type 0} (nil : V) where
  read-closing :
      (stacks : ℕ → List V) (uv : UpVal V)
      → read nil stacks (closing nil stacks uv) ≡ read nil stacks uv
  read-closing stacks uv = ground arith

  set_kept :
      {B : Type 0} (f : UpVal V → B) (xs : List (UpVal V)) (a b : ℕ) (uv : UpVal V)
      → f uv ≡ f (get_or xs a (fresh_upval nil))
      → f (get_or (set xs a uv) b (fresh_upval nil)) ≡ f (get_or xs b (fresh_upval nil))
  set_kept f [] a b uv h = refl
  set_kept f (x ∷ xs) zero zero uv h = h
  set_kept f (x ∷ xs) zero (suc b) uv h = refl
  set_kept f (x ∷ xs) (suc a) zero uv h = refl
  set_kept f (x ∷ xs) (suc a) (suc b) uv h = set_kept f xs a b uv h

  get-close : (w : Upvals V) (a b : ℕ) → get nil (close nil w a) b ≡ get nil w b
  get-close w a b =
      set_kept (read nil w.stacks) w.upvals a b (closing nil w.stacks (upval nil w a))
        (read-closing w.stacks (upval nil w a))

  get-close_list :
      (th level : ℕ) (more : List ℕ) (w : Upvals V) (b : ℕ)
      → get nil (close_list nil th level more w) b ≡ get nil w b
  unfolding close_list
  get-close_list th level [] w b = refl
  get-close_list th level (a ∷ more) w b =
      elim (Bool-cases (is_from nil th level (upval nil w a))) [
        | inl e ↦ rw e (get-close_list th level more (close nil w a) b ∙ get-close w a b)
        | inr e ↦ rw e (get-close_list th level more w b)
      ]

  close_list_stacks :
      (th level : ℕ) (more : List ℕ) (w : Upvals V)
      → (close_list nil th level more w).stacks ≡ w.stacks
  unfolding close_list
  close_list_stacks th level [] w = refl
  close_list_stacks th level (a ∷ more) w =
      elim (Bool-cases (is_from nil th level (upval nil w a))) [
        | inl e ↦ rw e (close_list_stacks th level more (close nil w a))
        | inr e ↦ rw e (close_list_stacks th level more w)
      ]

  abbrev pub listed : ℕ → List ℕ → Bool
  listed b [] = false
  listed b (a ∷ more) = a == b || listed b more

  set_cleared :
      (f : UpVal V → Bool) (xs : List (UpVal V)) (a b : ℕ) (uv : UpVal V)
      → f (fresh_upval nil) ≡ false
      → f uv ≡ false
      → f (get_or (set xs a uv) b (fresh_upval nil)) ≡ true
      → (f (get_or xs b (fresh_upval nil)) ≡ true) × ((a == b) ≡ false)
  set_cleared f [] a b uv d h e = cc (d, e)
  set_cleared f (x ∷ xs) zero zero uv d h e = cc (h, e)
  set_cleared f (x ∷ xs) zero (suc b) uv d h e = (e, ground arith)
  set_cleared f (x ∷ xs) (suc a) zero uv d h e = (e, ground arith)
  set_cleared f (x ∷ xs) (suc a) (suc b) uv d h e =
      let (g, other) = set_cleared f xs a b uv d h e in (g, ground (arith, other))

  closing_cleared :
      (th level : ℕ) (stacks : ℕ → List V) (uv : UpVal V)
      → is_from nil th level (closing nil stacks uv) ≡ false
  closing_cleared th level stacks uv = ground arith

  close_one :
      (th level a b : ℕ) (w : Upvals V)
      → is_from nil th level (upval nil (close nil w a) b) ≡ true
      → (is_from nil th level (upval nil w b) ≡ true) × ((a == b) ≡ false)
  close_one th level a b w e =
      set_cleared (is_from nil th level) w.upvals a b (closing nil w.stacks (upval nil w a)) refl
        (closing_cleared th level w.stacks (upval nil w a)) e

  not_this :
      (th level a b : ℕ) (more : List ℕ) (w : Upvals V)
      → is_from nil th level (upval nil w a) ≡ false
      → is_from nil th level (upval nil w b) ≡ true
      → listed b (a ∷ more) ≡ true
      → listed b more ≡ true
  not_this th level a b more w e f h = elim (Bool-cases (a == b)) [
    | inl q ↦
        let same : a ≡ b = ground arith in
        cc (e, f, ap (λ (k : ℕ). is_from nil th level (upval nil w k)) same)
    | inr q ↦ ground (arith, h, q)
  ]

  close_list-below :
      (th level : ℕ) (more : List ℕ) (w : Upvals V) (b : ℕ)
      → (is_from nil th level (upval nil w b) ≡ true → listed b more ≡ true)
      → is_from nil th level (upval nil (close_list nil th level more w) b) ≡ false
  unfolding close_list
  close_list-below th level [] w b h = ground arith
  close_list-below th level (a ∷ more) w b h =
      elim (Bool-cases (is_from nil th level (upval nil w a))) [
        | inl e ↦ rw e (
            close_list-below th level more (close nil w a) b
              (λ f. let (g, other) = close_one th level a b w f in ground (arith, h g, other)))
        | inr e ↦
            rw e (close_list-below th level more w b (λ f. not_this th level a b more w e f (h f)))
      ]

  on_stack_agreeing :
      (th level : ℕ) (stacks unwound : ℕ → List V) (thread : Option ℕ) (i : ℕ)
      → ((t i : ℕ)
          → (t == th && leb level i) ≡ false
          → get_or (unwound t) i nil ≡ get_or (stacks t) i nil)
      → (same_thread nil thread th && leb level i) ≡ false
      → on_stack nil unwound thread i ≡ on_stack nil stacks thread i
  on_stack_agreeing th level stacks unwound none i agree h = refl
  on_stack_agreeing th level stacks unwound (some t) i agree h = agree t i h

  -- An upvalue that is not open from `level` on reads the same from stacks that agree elsewhere.
  read_agreeing :
      (th level : ℕ) (stacks unwound : ℕ → List V) (uv : UpVal V)
      → ((t i : ℕ)
          → (t == th && leb level i) ≡ false
          → get_or (unwound t) i nil ≡ get_or (stacks t) i nil)
      → is_from nil th level uv ≡ false
      → read nil unwound uv ≡ read nil stacks uv
  read_agreeing th level stacks unwound uv agree below = elim (Bool-cases uv.is_open) [
    | inr e ↦ rw e
    | inl e ↦ rw e (
        on_stack_agreeing th level stacks unwound uv.thread uv.stack_index agree
          (ground (arith, below, e)))
  ]

  -- After `close_upvals`, each upvalue of the program keeps its value whatever becomes of the thread's
  -- stack from the level on, when the thread's list holds every upvalue that is open on that part.
  pub close_upvals-unwound :
      (w : Upvals V) (th level b : ℕ) (unwound : ℕ → List V)
      → (is_from nil th level (upval nil w b) ≡ true → listed b w.open_upvals ≡ true)
      → ((t i : ℕ)
          → (t == th && leb level i) ≡ false
          → get_or (unwound t) i nil ≡ get_or (w.stacks t) i nil)
      → get nil (record (close_upvals nil w th level) { stacks = unwound }) b ≡ get nil w b
  close_upvals-unwound w th level b unwound all agree =
      read_agreeing th level (close_upvals nil w th level).stacks unwound
        (upval nil (close_upvals nil w th level) b)
        (λ t i h.
          agree t i h
          ∙ sym (
              ap (λ (s : ℕ → List V). get_or (s t) i nil)
                (close_list_stacks th level w.open_upvals w)))
        (close_list-below th level w.open_upvals w b all)
      ∙ get-close_list th level w.open_upvals w b

  get_or-last : (xs : List (UpVal V)) (uv d : UpVal V) → get_or (xs ++ (uv ∷ [])) (length xs) d ≡ uv
  get_or-last [] uv d = refl
  get_or-last (x ∷ xs) uv d = get_or-last xs uv d

  find_listed-is_at :
      (w : Upvals V) (th level : ℕ) (more : List ℕ) (a : ℕ)
      → find_listed nil w th level more ≡ some a
      → is_at nil th level (upval nil w a) ≡ true
  unfolding find_listed
  find_listed-is_at w th level [] a e = ground arith
  find_listed-is_at w th level (x ∷ more) a e = ground (arith, find_listed-is_at w th level more a)

  new-is_at :
      (w : Upvals V) (th level : ℕ)
      → is_at nil th level (upval nil (new_upval nil w th level).1 (length w.upvals)) ≡ true
  new-is_at w th level =
      ap (is_at nil th level) (
        get_or-last w.upvals
          (record { thread = some th; stack_index = level; closed = nil; is_open = true })
          (fresh_upval nil))
      ∙ ground arith

  -- `find_upval` returns an upvalue that is open at the level, and a second call returns the same one
  -- and changes nothing: closures over one variable share one upvalue.
  pub find_upval_again :
      (w : Upvals V) (th level : ℕ)
      → (is_at nil th level (upval nil (find_upval nil w th level).1 (find_upval nil w th level).0)
          ≡ true)
        × (find_upval nil (find_upval nil w th level).1 th level ≡ find_upval nil w th level)
  unfolding find_upval
  find_upval_again w th level = elim (Option-cases (find_listed nil w th level w.open_upvals)) [
    | inr (a, e) ↦ rw e (
      find_listed-is_at w th level w.open_upvals a e,
      ap (λ (o : Option ℕ). found_or_new nil o w th level) e,
    )
    | inl e ↦
        let u = (new_upval nil w th level).1 in
        rw e (
          new-is_at w th level,
          ap
              (λ (b : Bool).
                found_or_new nil
                  (if b then some (length w.upvals) else find_listed nil u th level w.open_upvals) u
                  th level)
              (new-is_at w th level),
        )
  ]
