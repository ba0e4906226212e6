-- ===== src/Tests/Closures.antt =====
-- Upvalues over the stack of thread 0; 0 stands for nil.
use luajit.Common.{
  ℕ, zero, suc, true, false, ◌&&◌, List, [], ◌∷◌, get_or, leb, ◌==◌, some, none, ◌≡◌, refl, arith,
}
use luajit.Runtime.Upvalue.{Upvals, upval, get, close_upvals, find_upval, is_at}
use luajit.Runtime.Upvalue.Laws.{close_upvals-unwound, find_upval_again}

abbrev stack_of : ℕ → List ℕ
stack_of zero = 10 ∷ 11 ∷ 12 ∷ []
stack_of (suc t) = []

abbrev unwound_of : ℕ → List ℕ
unwound_of zero = 10 ∷ []
unwound_of (suc t) = []

-- One upvalue is open at slot 2, and one was closed with 5.
abbrev two_upvals : Upvals ℕ
two_upvals = record {
  upvals =
      record { thread = some 0; stack_index = 2; closed = 0; is_open = true }
      ∷ record { thread = none; stack_index = 0; closed = 5; is_open = false }
      ∷ [];
  stacks = stack_of;
  open_upvals = 0 ∷ [];
  barriers = [];
}

abbrev agreeing :
    (t i : ℕ) → (t == 0 && leb 1 i) ≡ false → get_or (unwound_of t) i 0 ≡ get_or (stack_of t) i 0
agreeing zero zero e = refl
agreeing zero (suc i) e = ground arith
agreeing (suc t) i e = refl

close_upvals-unwound_example :
    get 0 (record (close_upvals 0 two_upvals 0 1) { stacks = unwound_of }) 0 ≡ get 0 two_upvals 0
close_upvals-unwound_example =
    close_upvals-unwound 0 two_upvals 0 1 0 unwound_of (λ e. refl) agreeing

find_upval_again_example :
    (is_at 0 0 1 (upval 0 (find_upval 0 two_upvals 0 1).1 (find_upval 0 two_upvals 0 1).0) ≡ true)
    × (find_upval 0 (find_upval 0 two_upvals 0 1).1 0 1 ≡ find_upval 0 two_upvals 0 1)
find_upval_again_example = find_upval_again 0 two_upvals 0 1
