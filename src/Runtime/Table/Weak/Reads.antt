-- ===== src/Runtime/Table/Weak/Reads.antt =====
-- Reads of a weak table that was cleared.
use luajit.Common.{
  ℕ, zero, suc, ◌+◌, ◌/◌, ◌%◌, ◌≡◌, refl, sym, ap, ◌∙◌, arith, Bool, true, false, ◌&&◌, List, [],
  ◌∷◌, map, length, length-map, get_or, ◌==◌, if◌then◌else◌, Bool-cases, inl, inr, none, some,
  Option-cases, subst,
}
use luajit.Runtime.Probe.Find.{find-hit}
use luajit.Runtime.Probe.{TableNode, Found, hit, missing, node, find}
use luajit.Runtime.Table.{Strings, Table, blank, hash_key, get, get_hash, lookup_key, key_slot}
use luajit.Runtime.Value.{Double, TValue, nil, boolean, integer, number, obj, values_equal, is_nil}
use Prim.Native.Nat.{bit_and}
use luajit.Runtime.Table.Weak.{is_dead, drop_dead, clear_node, clear_weak_entries}

module _ {F : Type 0} ⦃dbl : Double F⦄ ⦃str : Strings⦄ (mark : ℕ → ℕ) (white : ℕ) where
  is_dead_congr :
      (a b : TValue F) → values_equal a b ≡ true → is_dead mark white a ≡ is_dead mark white b
  unfolding values_equal
  is_dead_congr (number x) b e = ground arith
  is_dead_congr (integer x) b e = ground arith
  is_dead_congr nil b e = ground arith
  is_dead_congr (boolean x) b e = ground arith
  is_dead_congr (obj t p) b e = ground arith

  module _ (mode : ℕ) where
    abbrev after : TableNode (TValue F) (TValue F) → TableNode (TValue F) (TValue F)
    after = clear_node mark white mode

    node-after :
        (h : List (TableNode (TValue F) (TValue F))) (s : ℕ)
        → node blank (map after h) s ≡ after (node blank h s)
    node-after [] s = refl
    node-after (n ∷ h) zero = refl
    node-after (n ∷ h) (suc s) = node-after h s

    nil_unequal : (k : TValue F) → is_nil k ≡ false → values_equal nil k ≡ false
    unfolding values_equal
    nil_unequal k h = ground arith

    dead_unequal :
        (a k : TValue F)
        → (mode % 2 == 1 && is_dead mark white k) ≡ false
        → (mode % 2 == 1 && is_dead mark white a) ≡ true
        → values_equal a k ≡ false
    dead_unequal a k alive dead = elim (Bool-cases (values_equal a k)) [
      | inr e ↦ e
      | inl e ↦ absurd (ground (arith, alive, dead, is_dead_congr a k e))
    ]

    -- A key that is not cleared is found where it was.
    kept_test :
        (n : TableNode (TValue F) (TValue F)) (k : TValue F)
        → is_nil k ≡ false
        → (mode % 2 == 1 && is_dead mark white k) ≡ false
        → ((after n).used ≡ n.used) × (values_equal (after n).key k ≡ values_equal n.key k)
    kept_test n k some_key alive =
        ground (arith, nil_unequal k some_key, dead_unequal n.key k alive)

    find-after :
        (h : List (TableNode (TValue F) (TValue F))) (k : TValue F) (i p fuel : ℕ)
        → is_nil k ≡ false
        → (mode % 2 == 1 && is_dead mark white k) ≡ false
        → find values_equal blank (map after h) k i p fuel ≡ find values_equal blank h k i p fuel
    unfolding find
    find-after h k i p zero some_key alive = refl
    find-after h k i p (suc fuel) some_key alive =
        let slot = (i + p) % length h in
        let (u, e) = kept_test (node blank h slot) k some_key alive in
        rw (
          length-map h after,
          node-after h slot,
          u,
          e,
          find-after h k i (p + 1) fuel some_key alive,
        )

    cleared_test :
        (n : TableNode (TValue F) (TValue F)) (k : TValue F)
        → (mode % 2 == 1 && is_dead mark white k) ≡ true
        → (after n).used ≡ true
        → values_equal (after n).key k ≡ false
    cleared_test n k dead used = elim (Bool-cases (values_equal (after n).key k)) [
      | inr e ↦ e
      | inl e ↦ absurd (ground (arith, dead, used, is_dead_congr (after n).key k e))
    ]

    find-cleared :
        (h : List (TableNode (TValue F) (TValue F))) (k : TValue F) (i p fuel : ℕ)
        → (mode % 2 == 1 && is_dead mark white k) ≡ true
        → find values_equal blank (map after h) k i p fuel ≡ missing
    unfolding find
    find-cleared h k i p zero dead = refl
    find-cleared h k i p (suc fuel) dead =
        let slot = (i + p) % length (map after h) in
        let n = node blank (map after h) slot in
        elim (Bool-cases n.used) [
          | inr u ↦ rw u
          | inl u ↦ rw (
            u,
            subst
                (λ (m : TableNode (TValue F) (TValue F)).
                  m.used ≡ true → values_equal m.key k ≡ false)
                (sym (node-after h slot)) (cleared_test (node blank h slot) k dead) u,
            find-cleared h k i (p + 1) fuel dead,
          )
        ]

    abbrev kept_value : TValue F → TValue F
    kept_value v = if mode / 2 % 2 == 1 && is_dead mark white v then nil else v

    value-after :
        (h : List (TableNode (TValue F) (TValue F))) (k : TValue F) (s i fuel : ℕ)
        → (mode % 2 == 1 && is_dead mark white k) ≡ false
        → find values_equal blank h k i 0 fuel ≡ hit s
        → (node blank (map after h) s).value ≡ kept_value (node blank h s).value
    value-after h k s i fuel alive e =
        let (u, same) = find-hit (values_equal {F = F}) blank h k i 0 fuel s e in
        ap (λ (n : TableNode (TValue F) (TValue F)). n.value) (node-after h s)
        ∙ ground (arith, u, alive, is_dead_congr (node blank h s).key k same)

    abbrev hash_value : List (TableNode (TValue F) (TValue F)) → Found → TValue F
    hash_value h (hit s) = (node blank h s).value
    hash_value h missing = nil

    abbrev seek : List (TableNode (TValue F) (TValue F)) → TValue F → Found
    seek h k = find values_equal blank h k (hash_key k (length h)) 0 (length h)

    get_hash-seek :
        (h : List (TableNode (TValue F) (TValue F))) (k : TValue F)
        → get_hash h k ≡ hash_value h (seek h k)
    unfolding get_hash
    get_hash-seek h k = ground arith

    found_value :
        (h : List (TableNode (TValue F) (TValue F))) (k : TValue F) (f : Found)
        → (mode % 2 == 1 && is_dead mark white k) ≡ false
        → seek h k ≡ f
        → hash_value (map after h) f ≡ kept_value (hash_value h f)
    found_value h k missing alive e = ground arith
    found_value h k (hit s) alive e = value-after h k s (hash_key k (length h)) (length h) alive e

    seek-after :
        (h : List (TableNode (TValue F) (TValue F))) (k : TValue F)
        → is_nil k ≡ false
        → (mode % 2 == 1 && is_dead mark white k) ≡ false
        → seek (map after h) k ≡ seek h k
    seek-after h k some_key alive =
        rw (length-map h after) (find-after h k (hash_key k (length h)) 0 (length h) some_key alive)

    -- The hash part after clearing, at a key that is not nil.
    get_hash-after :
        (h : List (TableNode (TValue F) (TValue F))) (k : TValue F)
        → is_nil k ≡ false
        → get_hash (map after h) k
          ≡ (if mode % 2 == 1 && is_dead mark white k then nil else kept_value (get_hash h k))
    get_hash-after h k some_key = elim (Bool-cases (mode % 2 == 1 && is_dead mark white k)) [
      | inl dead ↦ rw dead (
          get_hash-seek (map after h) k
          ∙ ap (hash_value (map after h))
              (find-cleared h k (hash_key k (length (map after h))) 0 (length (map after h)) dead))
      | inr alive ↦ rw alive (
          get_hash-seek (map after h) k
          ∙ ap (hash_value (map after h)) (seek-after h k some_key alive)
          ∙ found_value h k (seek h k) alive refl
          ∙ ap kept_value (sym (get_hash-seek h k)))
    ]

    get_or-kept :
        (a : List (TValue F)) (i : ℕ)
        → get_or (if mode / 2 % 2 == 1 then map (drop_dead mark white) a else a) i nil
          ≡ kept_value (get_or a i nil)
    get_or-kept a i = elim (Bool-cases (mode / 2 % 2 == 1)) [ inr e ↦ rw e | inl e ↦ rw e (go a i) ]
      where
        go :
            (a : List (TValue F)) (i : ℕ)
            → get_or (map (drop_dead mark white) a) i nil ≡ drop_dead mark white (get_or a i nil)
        go [] i = refl
        go (v ∷ a) zero = refl
        go (v ∷ a) (suc i) = go a i

    abbrev cleared : Table F → Table F
    cleared t = record t {
      array = (if mode / 2 % 2 == 1 then map (drop_dead mark white) t.array else t.array);
      hash = map after t.hash;
    }

    length-cleared : (t : Table F) → length (cleared t).array ≡ length t.array
    length-cleared t = ground (arith, length-map t.array (drop_dead mark white))

    get_slot :
        (t : Table F) (j : TValue F) (k : ℕ)
        → key_slot (length t.array) j ≡ some k
        → get t j ≡ get_or t.array k nil
    unfolding get
    get_slot t j k e = rw (e, get)

    get_hashed :
        (t : Table F) (j : TValue F)
        → key_slot (length t.array) j ≡ none
        → get t j ≡ get_hash t.hash (lookup_key j)
    unfolding get
    get_hashed t j e = rw (e, get)

    slot_alive :
        (n : ℕ) (j : TValue F) (k : ℕ) → key_slot n j ≡ some k → is_dead mark white j ≡ false
    unfolding key_slot
    slot_alive n (obj t p) k e = ground arith
    slot_alive n nil k e = refl
    slot_alive n (boolean b) k e = refl
    slot_alive n (integer i) k e = refl
    slot_alive n (number d) k e = refl

    lookup_alike :
        (j : TValue F)
        → (is_nil (lookup_key j) ≡ is_nil j)
          × (is_dead mark white (lookup_key j) ≡ is_dead mark white j)
    unfolding lookup_key
    lookup_alike (number d) = ground arith
    lookup_alike (obj t p) = (refl, refl)
    lookup_alike nil = (refl, refl)
    lookup_alike (boolean b) = (refl, refl)
    lookup_alike (integer i) = (refl, refl)

    get-cleared :
        (t : Table F) (j : TValue F)
        → is_nil j ≡ false
        → get (cleared t) j
          ≡ (if mode % 2 == 1 && is_dead mark white j then nil else kept_value (get t j))
    get-cleared t j some_key = elim (Option-cases (key_slot (length t.array) j)) [
      | inr (k, e) ↦
          get_slot (cleared t) j k (ap (λ (n : ℕ). key_slot n j) (length-cleared t) ∙ e)
          ∙ get_or-kept t.array k
          ∙ ap kept_value (sym (get_slot t j k e))
          ∙ ground (arith, slot_alive (length t.array) j k e)
      | inl e ↦
          get_hashed (cleared t) j (ap (λ (n : ℕ). key_slot n j) (length-cleared t) ∙ e)
          ∙ get_hash-after t.hash (lookup_key j) ((lookup_alike j).0 ∙ some_key)
          ∙ ap
              (λ (v : TValue F).
                if mode % 2 == 1 && is_dead mark white (lookup_key j) then nil else kept_value v)
              (sym (get_hashed t j e))
          ∙ ap (λ (b : Bool). if mode % 2 == 1 && b then nil else kept_value (get t j))
              (lookup_alike j).1
    ]

  -- `clear_weak_entries` with a mask clears what the table's weak mode and the mask name: with bit 0, a
  -- key that is a dead object reads nil; with bit 1, a value that is a dead object reads nil; every other
  -- key that is not nil reads as before.
  pub get-clear_weak_entries :
      (t : Table F) (mask : ℕ) (j : TValue F)
      → is_nil j ≡ false
      → get (clear_weak_entries mark white mask t) j ≡ (
          if bit_and t.weak_mode mask % 2 == 1 && is_dead mark white j
          then nil
          else if bit_and t.weak_mode mask / 2 % 2 == 1 && is_dead mark white (get t j)
          then nil
          else get t j)
  unfolding clear_weak_entries
  get-clear_weak_entries t mask j some_key = elim (Bool-cases (bit_and t.weak_mode mask == 0)) [
    | inr e ↦ rw e (get-cleared (bit_and t.weak_mode mask) t j some_key)
    | inl e ↦ rw e (ground arith)
  ]
