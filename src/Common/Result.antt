-- ===== src/Common/Result.antt =====
-- A value, or the error that a call ends with; `>>=` goes on after a value.
pub data Result {ℓ} (E : Type ℓ) (A : Type ℓ) : Type ℓ where
  ok : A → Result E A
  err : E → Result E A

infixl 5 ◌>>=◌
abbrev pub ◌>>=◌ {ℓ} : {E A B : Type ℓ} → Result E A → (A → Result E B) → Result E B
r >>= next = elim r [ ok value ↦ next value | err error ↦ err error ]
