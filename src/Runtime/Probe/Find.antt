-- ===== src/Runtime/Probe/Find.antt =====
-- What the probe loops find.
use native.Mathlib.Nat.{mod-lt}
use luajit.Common.{
  ℕ, zero, suc, ◌+◌, ◌%◌, ◌<◌, Bool, true, false, List, Option, none, some, length, set, get_or-set,
  ◌≡◌, ◌≢◌, refl, arith, length-set, get_or-set,
}
use luajit.Runtime.Probe.{TableNode, Found, hit, missing, Place, present, node, find, find_place}

module _ {K V : Type 0} (eq : K → K → Bool) (blank : TableNode K V) where
  -- A hit is a used slot with an equal key.
  pub find-hit :
      (h : List (TableNode K V)) (k : K) (idx p fuel s : ℕ)
      → find eq blank h k idx p fuel ≡ hit s
      → ((node blank h s).used ≡ true) × (eq (node blank h s).key k ≡ true)
  unfolding find
  find-hit h k idx p zero s e = cc
  find-hit h k idx p (suc fuel) s e = ground (arith, find-hit h k idx (p + 1) fuel s)

  pub find-hit_lt :
      (h : List (TableNode K V)) (k : K) (idx p fuel s : ℕ)
      → 0 < length h
      → find eq blank h k idx p fuel ≡ hit s
      → s < length h
  unfolding find
  find-hit_lt h k idx p zero s n e = cc
  find-hit_lt h k idx p (suc fuel) s n e =
      ground (arith, find-hit_lt h k idx (p + 1) fuel s, mod-lt (idx + p) n)

  -- Only the flags and the keys count.
  pub find_congr :
      (h g : List (TableNode K V)) (k : K) (idx p fuel : ℕ)
      → length g ≡ length h
      → ((s : ℕ)
          → ((node blank g s).used ≡ (node blank h s).used)
            × ((node blank g s).key ≡ (node blank h s).key))
      → find eq blank g k idx p fuel ≡ find eq blank h k idx p fuel
  unfolding find
  find_congr h g k idx p zero l same = refl
  find_congr h g k idx p (suc fuel) l same = rw (
    l,
    (same ((idx + p) % length h)).0,
    (same ((idx + p) % length h)).1,
    find_congr h g k idx (p + 1) fuel l same,
  )

  -- Writing another key into a slot leaves the hits elsewhere.
  pub find-set :
      (h : List (TableNode K V)) (j : K) (idx p fuel w s : ℕ) (m : TableNode K V)
      → 0 < length h
      → w < length h
      → m.used ≡ true
      → eq m.key j ≡ false
      → s ≢ w
      → find eq blank h j idx p fuel ≡ hit s
      → find eq blank (set h w m) j idx p fuel ≡ hit s
  unfolding find
  find-set h j idx p zero w s m n wl u d ne e = cc
  find-set h j idx p (suc fuel) w s m n wl u d ne e = rw length-set (
      rw (get_or-set h w ((idx + p) % length h) m blank wl)
        (ground (arith, find-set h j idx (p + 1) fuel w s m)))

  module _ (is_nil : V → Bool) where
    -- The two loops agree on a key that is there.
    pub find_place-present :
        (h : List (TableNode K V)) (k : K) (idx p : ℕ) (t : Option ℕ) (fuel s : ℕ)
        → find_place eq blank is_nil h k idx p t fuel ≡ present s
        → find eq blank h k idx p fuel ≡ hit s
    unfolding find find_place
    find_place-present h k idx p none zero s e = cc
    find_place-present h k idx p (some t) zero s e = cc
    find_place-present h k idx p none (suc fuel) s e = ground (
      arith,
      find_place-present h k idx (p + 1) none fuel s,
      find_place-present h k idx (p + 1) (some ((idx + p) % length h)) fuel s,
    )
    find_place-present h k idx p (some t) (suc fuel) s e =
        ground (arith, find_place-present h k idx (p + 1) (some t) fuel s)

    abbrev pub Misses : Place → Found → Type 0
    Misses (present s) f = f ≡ hit s
    Misses _ f = f ≡ missing

    pub find_place-Misses :
        (h : List (TableNode K V)) (k : K) (idx p : ℕ) (t : Option ℕ) (fuel : ℕ)
        → Misses (find_place eq blank is_nil h k idx p t fuel) (find eq blank h k idx p fuel)
    unfolding find find_place
    find_place-Misses h k idx p none zero = refl
    find_place-Misses h k idx p (some t) zero = refl
    find_place-Misses h k idx p none (suc fuel) = ground (
      arith,
      find_place-Misses h k idx (p + 1) none fuel,
      find_place-Misses h k idx (p + 1) (some ((idx + p) % length h)) fuel,
    )
    find_place-Misses h k idx p (some t) (suc fuel) =
        ground (arith, find_place-Misses h k idx (p + 1) (some t) fuel)

  -- Keys that compare alike against every key are found alike.
  pub find_key_congr :
      (h : List (TableNode K V)) (k j : K) (idx p fuel : ℕ)
      → ((s : ℕ) → eq (node blank h s).key k ≡ eq (node blank h s).key j)
      → find eq blank h k idx p fuel ≡ find eq blank h j idx p fuel
  unfolding find
  find_key_congr h k j idx p zero same = refl
  find_key_congr h k j idx p (suc fuel) same =
      rw (same ((idx + p) % length h), find_key_congr h k j idx (p + 1) fuel same)
