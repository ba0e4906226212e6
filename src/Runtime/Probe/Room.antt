-- ===== src/Runtime/Probe/Room.antt =====
-- A hash part with an unused slot is never full: the probes visit every slot.
use native.Mathlib.Nat.{mod-lt, mod-eq_of_lt, mod-add-mod, add-mod_right}
use luajit.Common.{
  ℕ, zero, suc, ◌+◌, ◌-◌, ◌%◌, ◌≤◌, ◌<◌, Bool, true, List, [], ◌∷◌, none, some, length, set,
  if◌then◌else◌, ◌≡◌, ◌≢◌, refl, sym, ◌∙◌, arith,
}
use native.Mathlib.Decide.{dec_lt}
use luajit.Runtime.Probe.{TableNode, full, node, find_place}

module _ {K V : Type 0} where
  unfoldable pub used_count : List (TableNode K V) → ℕ
  used_count [] = 0
  used_count (m ∷ h) = (if m.used then 1 else 0) + used_count h

  pub used_count-set :
      (h : List (TableNode K V)) (d : ℕ) (m : TableNode K V)
      → used_count (set h d m) ≤ used_count h + 1
  unfolding used_count
  used_count-set [] d m = omega arith
  used_count-set (x ∷ h) zero m = ground arith
  used_count-set (x ∷ h) (suc d) m = ground (arith, used_count-set h d m)

  all_used :
      (h : List (TableNode K V)) (blank : TableNode K V)
      → ((s : ℕ) → s < length h → (node blank h s).used ≡ true)
      → used_count h ≡ length h
  unfolding used_count
  all_used [] blank f = refl
  all_used (m ∷ h) blank f =
      let first : m.used ≡ true = f 0 (omega arith) in
      rw first (omega (arith, all_used h blank (λ s l. f (suc s) (omega arith))))

  module _ (eq : K → K → Bool) (blank : TableNode K V) (is_nil : V → Bool) where
    tomb_ne_full :
        (h : List (TableNode K V)) (k : K) (idx p t fuel : ℕ)
        → find_place eq blank is_nil h k idx p (some t) fuel ≢ full
    unfolding find_place
    tomb_ne_full h k idx p t zero e = cc
    tomb_ne_full h k idx p t (suc fuel) e = ground (arith, tomb_ne_full h k idx (p + 1) t fuel)

    probe_step :
        (h : List (TableNode K V)) (k : K) (idx p fuel : ℕ)
        → find_place eq blank is_nil h k idx p none (suc fuel) ≡ full
        → ((node blank h ((idx + p) % length h)).used ≡ true)
          × (find_place eq blank is_nil h k idx (p + 1) none fuel ≡ full)
    unfolding find_place
    probe_step h k idx p fuel e =
        let slot = (idx + p) % length h in ground (arith, tomb_ne_full h k idx (p + 1) slot fuel)

    probed :
        (h : List (TableNode K V)) (k : K) (idx p : ℕ) (fuel q : ℕ)
        → find_place eq blank is_nil h k idx p none fuel ≡ full
        → q < fuel
        → (node blank h ((idx + (p + q)) % length h)).used ≡ true
    probed h k idx p zero q e l = absurd (omega arith)
    probed h k idx p (suc fuel) zero e l =
        let here : p + 0 ≡ p = omega arith in rw here (probe_step h k idx p fuel e).0
    probed h k idx p (suc fuel) (suc q) e l =
        let next : p + suc q ≡ p + 1 + q = omega arith in
        rw next (probed h k idx (p + 1) fuel q (probe_step h k idx p fuel e).1 (omega arith))

    -- The probe that reaches a given slot.
    reached : (idx n s : ℕ) → s < n → (q : ℕ) × (q < n) × ((idx + (0 + q)) % n ≡ s)
    reached idx n s l =
        let r = idx % n in
        let small : r < n = mod-lt idx (omega arith) in
        elim (dec_lt s r) [
          | yes below ↦
              let sum : r + (0 + (s + n - r)) ≡ s + n = omega arith in
              (
                s + n - r,
                omega arith,
                sym (mod-add-mod idx n _) ∙ rw sum (add-mod_right s n ∙ mod-eq_of_lt l),
              )
          | no above ↦
              let sum : r + (0 + (s - r)) ≡ s = omega arith in
              (s - r, omega arith, sym (mod-add-mod idx n _) ∙ rw sum (mod-eq_of_lt l))
        ]

    pub find_place-ne-full :
        (h : List (TableNode K V)) (k : K) (idx : ℕ)
        → used_count h < length h
        → find_place eq blank is_nil h k idx 0 none (length h) ≢ full
    find_place-ne-full h k idx room e = absurd (
        omega (
          arith,
          all_used h blank (λ s l.
              let (q, lq, at) = reached idx (length h) s l in
              rw at at (probed h k idx 0 (length h) q e lq)),
        ))
