-- ===== src/Tests/Stacks.antt =====
-- Stacks of numbers, with 0 for nil.
use luajit.Common.{ℕ, ◌+◌, ◌≡◌, ◌||◌, [], ◌∷◌, get_or, ltb, leb, if◌then◌else◌, arith}
use luajit.Common.Int.{pos}
use luajit.Vm.Stack.{Stack, gettop, settop}
use luajit.Vm.Stack.Laws.{IsStack, settop_lem}

-- Two values in a window that starts above one other value; the vector is full.
abbrev two_values : Stack ℕ
two_values = record { slots = 7 ∷ 8 ∷ 9 ∷ []; top = 3; stack_base = 1; stack_version = 0 }

abbrev two_values-IsStack : IsStack two_values
two_values-IsStack = (omega arith, omega arith)

settop_lem_example :
    (gettop 0 (settop 0 two_values (pos 1)) ≡ pos 1)
    × IsStack (settop 0 two_values (pos 1))
    × ((i : ℕ)
        → get_or (settop 0 two_values (pos 1)).slots i 0 ≡ (
            if ltb i (two_values.stack_base + 1) || leb two_values.top i
            then get_or two_values.slots i 0
            else 0))
settop_lem_example = settop_lem 0 two_values 1 two_values-IsStack
