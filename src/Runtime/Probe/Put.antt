-- ===== src/Runtime/Probe/Put.antt =====
-- The slot that `find_place` gives to a new key, and the table with the key written there.
use native.Mathlib.Nat.{mod-lt}
use luajit.Common.{
  ℕ, zero, suc, ◌+◌, ◌%◌, ◌<◌, Bool, true, false, List, none, some, length, set, ◌≡◌, ◌⊎◌, inl, inr,
  arith, get_or-set, get_or-set_self, length-set, Bool-cases,
}
use luajit.Runtime.Probe.{TableNode, hit, vacant, node, find, find_place}

module _ {K V : Type 0} (eq : K → K → Bool) (blank : TableNode K V) (is_nil : V → Bool) where
  find_place-tomb :
      (h : List (TableNode K V)) (k : K) (idx p t fuel d : ℕ)
      → find_place eq blank is_nil h k idx p (some t) fuel ≡ vacant d
      → t ≡ d
  unfolding find_place
  find_place-tomb h k idx p t zero d e = ground arith
  find_place-tomb h k idx p t (suc fuel) d e =
      ground (arith, find_place-tomb h k idx (p + 1) t fuel d)

  -- A slot is free for a new key when it is unused or holds a deleted entry.
  abbrev pub IsFree : TableNode K V → Type 0
  IsFree m = (m.used ≡ false) ⊎ (is_nil m.value ≡ true)

  pub find_place-IsFree :
      (h : List (TableNode K V)) (k : K) (idx p fuel d : ℕ)
      → 0 < length h
      → find_place eq blank is_nil h k idx p none fuel ≡ vacant d
      → (d < length h) × IsFree (node blank h d)
  unfolding find_place
  find_place-IsFree h k idx p zero d n e = cc
  find_place-IsFree h k idx p (suc fuel) d n e =
      let slot = (idx + p) % length h in
      elim (Bool-cases (is_nil (node blank h slot).value)) [
        | inl dead ↦ ground (arith, find_place-tomb h k idx (p + 1) slot fuel d, mod-lt (idx + p) n)
        | inr live ↦ ground (arith, find_place-IsFree h k idx (p + 1) fuel d, mod-lt (idx + p) n)
      ]

  -- With the key written there, the search finds it there.
  pub find-find_place :
      (h : List (TableNode K V)) (k : K) (idx p fuel d : ℕ) (m : TableNode K V)
      → 0 < length h
      → m.used ≡ true
      → eq m.key k ≡ true
      → find_place eq blank is_nil h k idx p none fuel ≡ vacant d
      → find eq blank (set h d m) k idx p fuel ≡ hit d
  unfolding find_place find
  find-find_place h k idx p zero d m n u s e = cc
  find-find_place h k idx p (suc fuel) d m n u s e =
      let slot = (idx + p) % length h in
      let inside = mod-lt (idx + p) n in
      rw length-set (elim (Bool-cases (is_nil (node blank h slot).value)) [
        | inl dead ↦
            ground
              (arith, find_place-tomb h k idx (p + 1) slot fuel d, get_or-set_self h slot m blank)
        | inr live ↦ ground (
          arith,
          find_place-IsFree h k idx p (suc fuel) d n e,
          get_or-set h d slot m blank,
          find-find_place h k idx (p + 1) fuel d m,
        )
      ])

  -- A write that keeps a slot's flag and key changes no search.
  pub node-set_value :
      (h : List (TableNode K V)) (s i : ℕ) (v : V)
      → s < length h
      → ((node blank (set h s (record (node blank h s) { value = v })) i).used
          ≡ (node blank h i).used)
        × ((node blank (set h s (record (node blank h s) { value = v })) i).key
            ≡ (node blank h i).key)
  node-set_value h s i v l =
      ground (arith, get_or-set h s i (record (node blank h s) { value = v }) blank)
