-- ===== src/Runtime/Table/Border.antt =====
-- The length of a table: `table_length` of src/vm/meta.cpp.
use luajit.Common.{
  ℕ, zero, suc, ◌+◌, ◌≤◌, ◌<◌, ◌≡◌, refl, arith, subst, Bool, true, false, length, ltb,
  if◌then◌else◌, ◌⊎◌, inl, inr, Bool-cases,
}
use luajit.Common.Int.{pos}
use luajit.Runtime.Table.{Strings, Table, get_int}
use luajit.Runtime.Value.{Double, is_nil}

abbrev pub safety_limit : ℕ
safety_limit = 10000000

module _ {F : Type 0} ⦃dbl : Double F⦄ ⦃str : Strings⦄ (t : Table F) where
  abbrev pub absent : ℕ → Bool
  absent n = is_nil (get_int t (pos n))

  -- `while (n > 0 && t->get_int(n).is_nil()) --n`
  unfoldable pub shrink : ℕ → ℕ
  shrink zero = zero
  shrink (suc n) = let rest = shrink n in if absent (suc n) then rest else suc n

  -- `for (;;)`
  unfoldable pub extend : ℕ → ℕ → ℕ
  extend zero n = n
  extend (suc fuel) n =
      let rest = extend fuel (n + 1) in
      if absent (n + 1) then n else if ltb safety_limit (n + 1) then n + 1 else rest

  unfoldable pub length_with : ℕ → ℕ
  unfolding shrink extend
  length_with fuel =
      let n = shrink (length t.array) in if ltb n (length t.array) then n else extend fuel n

  -- The second loop ends once it has passed the limit.
  unfoldable pub table_length : ℕ
  unfolding length_with
  table_length = length_with (safety_limit + 1)

  -- The value at `n` is there, unless `n` is 0, and the one after it is not.
  abbrev pub IsBorder : ℕ → Type 0
  IsBorder n = ((n ≡ 0) ⊎ (absent n ≡ false)) × (absent (n + 1) ≡ true)

  -- Where a search stops.
  abbrev Starts : ℕ → Type 0
  Starts n = (n ≡ 0) ⊎ (absent n ≡ false)

  shrink_lem :
      (n : ℕ)
      → (shrink n ≤ n) × Starts (shrink n) × ((shrink n ≡ n) ⊎ (absent (shrink n + 1) ≡ true))
  unfolding shrink
  shrink_lem zero = (omega arith, inl refl, inl refl)
  shrink_lem (suc n) = elim (Bool-cases (absent (suc n))) [
    | inl e ↦
        let (low, start, stop) = shrink_lem n in
        rw e (
          omega arith,
          start,
          inr (elim stop [
            | inl same ↦ subst (λ (k : ℕ). absent k ≡ true) (omega (arith, same)) e
            | inr s ↦ s
          ]),
        )
    | inr e ↦ rw e (omega arith, inr e, inl refl)
  ]

  extend_lem :
      (fuel n : ℕ)
      → safety_limit < fuel + n
      → Starts n
      → IsBorder (extend fuel n) ⊎ (safety_limit < extend fuel n)
  unfolding extend
  extend_lem zero n h start = inr (omega arith)
  extend_lem (suc fuel) n h start = elim (Bool-cases (absent (n + 1))) [
    | inl e ↦ rw e (inl (start, e))
    | inr e ↦ elim (Bool-cases (ltb safety_limit (n + 1))) [
      | inl stop ↦ rw (e, stop) (inr (ground arith))
      | inr more ↦ rw (e, more) (extend_lem fuel (n + 1) (omega arith) (inr e))
    ]
  ]

  length_with_lem :
      (fuel : ℕ)
      → safety_limit < fuel
      → IsBorder (length_with fuel) ⊎ (safety_limit < length_with fuel)
  unfolding length_with
  length_with_lem fuel enough =
      let (low, start, stop) = shrink_lem (length t.array) in
      elim (Bool-cases (ltb (shrink (length t.array)) (length t.array))) [
        | inl e ↦ rw e (inl (start, elim stop [ inl same ↦ absurd (ground arith) | inr s ↦ s ]))
        | inr e ↦ rw e (extend_lem fuel (shrink (length t.array)) (omega arith) start)
      ]

  -- The length is a border, unless the search has passed its limit of 10000000.
  pub table_length_lem : IsBorder table_length ⊎ (safety_limit < table_length)
  unfolding table_length
  table_length_lem = length_with_lem (safety_limit + 1) (omega arith)
