-- ===== src/Jit/Ic.antt =====
-- Inline caches for types (src/jit/ic.hpp, src/jit/ic.cpp).
use luajit.Common.{
  ℕ, zero, suc, ◌+◌, ◌%◌, ◌^◌, ◌<◌, ◌≡◌, refl, ap, arith, ◌∙◌, not, List, [], ◌∷◌, length, ltb,
  if◌then◌else◌, Bool-cases, inl, inr,
}
use luajit.Runtime.Value.{ValueTag, tag_eq}

pub data IcState : Type 0 where
  uninitialized monomorphic polymorphic megamorphic : IcState

pub record IcSlot : Type 0 where
  pub state : IcState
  pub seen_tag : ValueTag
  pub shape_version : ℕ
  pub hits : ℕ
  pub misses : ℕ

abbrev pub fresh_slot : IcSlot
fresh_slot = record {
  state = uninitialized;
  seen_tag = ValueTag.nil;
  shape_version = 0;
  hits = 0;
  misses = 0;
}

-- `++` of a `uint32_t`
abbrev pub next_count : ℕ → ℕ
next_count n = (n + 1) % 2 ^ 32

-- The `switch` of `ic_observe_type`; `slot` has its hit counted.
unfoldable pub observe_in : IcState → IcSlot → ValueTag → IcSlot
observe_in uninitialized slot tag = record slot { seen_tag = tag; state = monomorphic }
observe_in monomorphic slot tag =
    if not (tag_eq slot.seen_tag tag)
    then record slot { state = polymorphic; misses = next_count slot.misses }
    else slot
observe_in polymorphic slot tag =
    let m = next_count slot.misses in
    record slot { misses = m; state = (if ltb 32 m then megamorphic else slot.state) }
observe_in megamorphic slot tag = slot

-- The slot is changed in place; the result is its state.
unfoldable pub ic_observe_type : IcSlot → ValueTag → IcSlot
unfolding observe_in
ic_observe_type slot tag = observe_in slot.state (record slot { hits = next_count slot.hits }) tag

abbrev pub ic_invalidate : IcSlot → IcSlot
ic_invalidate slot = fresh_slot

-- A call site that sees these tags, in this order.
unfoldable pub observe_all : IcSlot → List ValueTag → IcSlot
unfolding ic_observe_type
observe_all slot [] = slot
observe_all slot (tag ∷ tags) = observe_all (ic_observe_type slot tag) tags

-- What the tags say on their own: how many there are from the first one that is not `tag`.
unfoldable pub after_change : ValueTag → List ValueTag → ℕ
after_change tag [] = 0
after_change tag (t ∷ ts) =
    let rest = after_change tag ts in if tag_eq tag t then rest else suc (length ts)

abbrev pub state_for : ℕ → IcState
state_for zero = monomorphic
state_for (suc k) = if ltb k 32 then polymorphic else megamorphic

abbrev pub misses_for : ℕ → ℕ
misses_for k = if ltb k 33 then k else 33

abbrev pub summary : List ValueTag → IcSlot
summary [] = fresh_slot
summary (tag ∷ tags) = record {
  state = state_for (after_change tag tags);
  seen_tag = tag;
  shape_version = 0;
  hits = length (tag ∷ tags) % 2 ^ 32;
  misses = misses_for (after_change tag tags);
}

abbrev slot_of : IcState → ValueTag → ℕ → ℕ → IcSlot
slot_of s tag h m = record { state = s; seen_tag = tag; shape_version = 0; hits = h; misses = m }

slot_eq :
    (s s' : IcState) (tag : ValueTag) (h h' m m' : ℕ)
    → s ≡ s'
    → h ≡ h'
    → m ≡ m'
    → slot_of s tag h m ≡ slot_of s' tag h' m'
slot_eq s s' tag h h' m m' p q r = cc

observe_all_megamorphic :
    (tag : ValueTag) (h m : ℕ) (ts : List ValueTag)
    → observe_all (slot_of megamorphic tag (h % 2 ^ 32) m) ts
      ≡ slot_of megamorphic tag ((h + length ts) % 2 ^ 32) m
unfolding observe_all
observe_all_megamorphic tag h m [] = ap (λ (c : ℕ). slot_of megamorphic tag c m) (omega arith)
observe_all_megamorphic tag h m (t ∷ ts) =
    ap (λ (c : ℕ). observe_all (slot_of megamorphic tag c m) ts) (omega arith)
    ∙ observe_all_megamorphic tag (suc h) m ts
    ∙ ap (λ (c : ℕ). slot_of megamorphic tag c m) (omega arith)

-- One more tag of a site that has seen two: the counts saturate on the 33rd miss.
polymorphic_step :
    (tag t : ValueTag) (h k : ℕ)
    → k < 32
    → ic_observe_type (slot_of polymorphic tag (h % 2 ^ 32) (suc k)) t
      ≡ slot_of (state_for (suc (suc k))) tag (suc h % 2 ^ 32) (suc (suc k))
unfolding ic_observe_type
polymorphic_step tag t h k small =
    slot_eq _ _ tag _ _ _ _ (ground arith) (omega arith) (ground arith)

observe_all_polymorphic :
    (tag : ValueTag) (h k : ℕ) (ts : List ValueTag)
    → k < 32
    → observe_all (slot_of polymorphic tag (h % 2 ^ 32) (suc k)) ts
      ≡ slot_of
          (state_for (suc k + length ts))
          tag
          ((h + length ts) % 2 ^ 32)
          (misses_for (suc k + length ts))
unfolding observe_all
observe_all_polymorphic tag h k [] small =
    slot_eq _ _ tag _ _ _ _ (ground arith) (omega arith) (ground arith)
observe_all_polymorphic tag h k (t ∷ ts) small =
    ap (λ (c : IcSlot). observe_all c ts) (polymorphic_step tag t h k small)
    ∙ elim (Bool-cases (ltb k 31)) [
      | inl s ↦
          ap (λ (c : IcState). observe_all (slot_of c tag (suc h % 2 ^ 32) (suc (suc k))) ts)
            (ground arith)
          ∙ observe_all_polymorphic tag (suc h) (suc k) ts (ground arith)
          ∙ slot_eq _ _ tag _ _ _ _ (ground arith) (omega arith) (ground arith)
      | inr s ↦
          ap (λ (c : IcState). observe_all (slot_of c tag (suc h % 2 ^ 32) (suc (suc k))) ts)
            (ground arith)
          ∙ observe_all_megamorphic tag (suc h) (suc (suc k)) ts
          ∙ slot_eq _ _ tag _ _ _ _ (ground arith) (omega arith) (ground arith)
    ]

observe_all_monomorphic :
    (tag : ValueTag) (h : ℕ) (ts : List ValueTag)
    → observe_all (slot_of monomorphic tag (h % 2 ^ 32) 0) ts
      ≡ slot_of
          (state_for (after_change tag ts))
          tag
          ((h + length ts) % 2 ^ 32)
          (misses_for (after_change tag ts))
unfolding observe_all after_change
observe_all_monomorphic tag h [] = slot_eq _ _ tag _ _ _ _ refl (omega arith) refl
observe_all_monomorphic tag h (t ∷ ts) = elim (Bool-cases (tag_eq tag t)) [
  | inl same ↦ rw same (
      ap (λ (c : ℕ). observe_all (slot_of monomorphic tag c 0) ts) (omega arith)
      ∙ observe_all_monomorphic tag (suc h) ts
      ∙ slot_eq _ _ tag _ _ _ _ refl (omega arith) refl)
  | inr other ↦
      let e : 1 + length ts ≡ suc (length ts) = omega arith in
      rw other (
        ap (λ (c : ℕ). observe_all (slot_of polymorphic tag c 1) ts) (omega arith)
        ∙ observe_all_polymorphic tag (suc h) 0 ts (omega arith)
        ∙ slot_eq (state_for (1 + length ts)) (state_for (suc (length ts))) tag _ _ _
            (misses_for (suc (length ts))) (ap state_for e) (omega arith) (ap misses_for e))
]

-- A fresh slot that has seen any sequence of tags is what the sequence says on its own: uninitialized
-- on none; monomorphic while every tag is the first one; then polymorphic, and megamorphic from the
-- 33rd tag on, counted from the first one that differs, where the misses stop at 33. The hits count all
-- tags modulo 2 ^ 32.
pub observe_all-summary : (tags : List ValueTag) → observe_all fresh_slot tags ≡ summary tags
unfolding observe_all
observe_all-summary [] = refl
observe_all-summary (tag ∷ tags) =
    observe_all_monomorphic tag 1 tags ∙ slot_eq _ _ tag _ _ _ _ refl (omega arith) refl
