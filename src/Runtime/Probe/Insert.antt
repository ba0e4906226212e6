-- ===== src/Runtime/Probe/Insert.antt =====
-- The hash part after a new key was written into the slot that the probe loop chose.
use native.Mathlib.Decide.{ℕ_discrete}
use luajit.Common.{
  ℕ, ◌<◌, Bool, true, false, List, none, length, set, ◌≡◌, ◌≢◌, refl, sym, inl, inr, get_or-set_ne,
  get_or-set_self, length-set, Bool-cases, ◌∙◌, ap,
}
use luajit.Runtime.Probe.{TableNode, Found, hit, missing, vacant, node, find_place}
use luajit.Runtime.Probe.Find.{find-hit, find-set, find_place-Misses}
use luajit.Runtime.Probe.Put.{IsFree, find_place-IsFree, find-find_place}
use luajit.Runtime.Probe.Store.{KeyLaws, search, value_at, IsPlaced, search_congr, Stores}

module _ {K V : Type 0} {eq : K → K → Bool} {home : K → ℕ → ℕ} {live : K → Bool}
    {IsKey : K → Type 0} (laws : KeyLaws eq home live IsKey) (blank : TableNode K V)
    (unused : blank.used ≡ false) (is_nil : V → Bool)
    (nil_blank : (v : V) → is_nil v ≡ true → v ≡ blank.value) (h : List (TableNode K V)) (k : K)
    (v : V) (d : ℕ) (placed : IsPlaced laws blank unused h) (key : IsKey k) (same : eq k k ≡ true)
    (pos : 0 < length h)
    (place : find_place eq blank is_nil h k (home k (length h)) 0 none (length h) ≡ vacant d) where
  abbrev pub inserted : List (TableNode K V)
  inserted = set h d (record { used = true; key = k; value = v })

  abbrev seek : List (TableNode K V) → K → Found
  seek = search laws blank unused

  abbrev read : List (TableNode K V) → Found → V
  read = value_at laws blank unused

  free : (d < length h) × IsFree eq blank is_nil (node blank h d)
  free = find_place-IsFree eq blank is_nil h k (home k (length h)) 0 (length h) d pos place

  absent : seek h k ≡ missing
  absent = rw place at (find_place-Misses eq blank is_nil h k (home k (length h)) 0 none (length h))

  size : length inserted ≡ length h
  size = length-set h d _

  -- A property of the written slot and of every other slot holds of all slots.
  inserted_cases :
      (P : ℕ → TableNode K V → Type 0)
      → P d (record { used = true; key = k; value = v })
      → ((i : ℕ) → i ≢ d → P i (node blank h i))
      → (i : ℕ) → P i (node blank inserted i)
  inserted_cases P new old i = elim (ℕ_discrete i d) [
    | yes e ↦
        rw (e, get_or-set_self h d (record { used = true; key = k; value = v }) blank free.0) new
    | no ne ↦
        rw
          (get_or-set_ne h d i (record { used = true; key = k; value = v }) blank (λ e. ne (sym e)))
          (old i ne)
  ]

  seek_self : seek inserted k ≡ hit d
  seek_self =
      rw size (
        find-find_place eq blank is_nil h k (home k (length h)) 0 (length h) d _ pos refl same
          place)

  seek_other : (j : K) (s : ℕ) → eq k j ≡ false → s ≢ d → seek h j ≡ hit s → seek inserted j ≡ hit s
  seek_other j s ne sd e =
      rw size (find-set eq blank h j (home j (length h)) 0 (length h) d s _ pos free.0 refl ne sd e)

  stored_ne :
      (i : ℕ)
      → (node blank h i).used ≡ true
      → live (node blank h i).key ≡ true
      → eq k (node blank h i).key ≡ false
  stored_ne i u l = elim (Bool-cases (eq k (node blank h i).key)) [
    | inr e ↦ e
    | inl e ↦
        cc
          (search_congr laws blank unused h k _ key (placed.keys i u) e, placed.found i u l, absent)
  ]

  found_inserted :
      (i : ℕ)
      → (node blank h i).used ≡ true
      → live (node blank h i).key ≡ true
      → i ≢ d
      → seek inserted (node blank h i).key ≡ hit i
  found_inserted i u l ne = seek_other _ i (stored_ne i u l) ne (placed.found i u l)

  pub inserted-IsPlaced : live k ≡ true → IsPlaced laws blank unused inserted
  inserted-IsPlaced alive = record {
    keys =
        inserted_cases (λ i m. m.used ≡ true → IsKey m.key) (λ _. key) (λ i _ u. placed.keys i u);
    found =
        inserted_cases (λ i m. m.used ≡ true → live m.key ≡ true → seek inserted m.key ≡ hit i)
          (λ _ _. seek_self) (λ i ne u l. found_inserted i u l ne);
    cleared =
        inserted_cases (λ i m. m.used ≡ true → live m.key ≡ false → m.value ≡ blank.value)
          (λ _ l. cc (l, alive)) (λ i _ u l. placed.cleared i u l);
  }

  -- What another key read before, by where its search ended in the old table.
  read_old :
      (j : K) (f : Found)
      → IsKey j
      → eq k j ≡ false
      → seek inserted j ≡ missing
      → seek h j ≡ f
      → read h f ≡ blank.value
  read_old j missing nj ne e fe = refl
  read_old j (hit s) nj ne e fe = elim (ℕ_discrete s d) [
    | no sd ↦ cc (seek_other j s ne sd fe, e)
    | yes sd ↦ elim free.1 [
      | inl f ↦ cc (
        (find-hit eq blank h j (home j (length h)) 0 (length h) s fe).0,
        f,
        ap (λ (i : ℕ). (node blank h i).used) sd,
      )
      | inr z ↦ ap (λ (i : ℕ). (node blank h i).value) sd ∙ nil_blank _ z
    ]
  ]

  read_cleared : (j : K) (f : Found) → live j ≡ false → seek h j ≡ f → read h f ≡ blank.value
  read_cleared j missing l e = refl
  read_cleared j (hit s) l e =
      let (u, q) = find-hit eq blank h j (home j (length h)) 0 (length h) s e in
      placed.cleared s u (laws.live_congr _ j q ∙ l)

  -- A hit in the new table on a slot that was not written.
  read_kept :
      (j : K) (i : ℕ)
      → IsKey j
      → (node blank h i).used ≡ true
      → eq (node blank h i).key j ≡ true
      → (node blank h i).value ≡ read h (seek h j)
  read_kept j i nj u q = elim (Bool-cases (live (node blank h i).key)) [
    | inl l ↦
        rw (sym (search_congr laws blank unused h _ j (placed.keys i u) nj q) ∙ placed.found i u l)
    | inr l ↦
        placed.cleared i u l
        ∙ sym (read_cleared j (seek h j) (sym (laws.live_congr _ j q) ∙ l) refl)
  ]

  -- The values of a hit in the new table, by the slot it ended at.
  read_hit :
      (j : K)
      → IsKey j
      → eq k j ≡ false
      → (i : ℕ) → (node blank inserted i).used ≡ true
      → eq (node blank inserted i).key j ≡ true
      → (node blank inserted i).value ≡ read h (seek h j)
  read_hit j nj ne =
      inserted_cases (λ i m. m.used ≡ true → eq m.key j ≡ true → m.value ≡ read h (seek h j))
        (λ _ q. cc (q, ne)) (λ i _ u q. read_kept j i nj u q)

  read_other :
      (j : K) (f : Found)
      → IsKey j
      → eq k j ≡ false
      → seek inserted j ≡ f
      → read inserted f ≡ read h (seek h j)
  read_other j missing nj ne e = sym (read_old j (seek h j) nj ne e refl)
  read_other j (hit i) nj ne e =
      let (u, q) =
        find-hit eq blank inserted j (home j (length inserted)) 0 (length inserted) i e in
      read_hit j nj ne i u q

  pub inserted-Stores : live k ≡ true → Stores laws blank unused h k v inserted
  inserted-Stores alive = record {
    placed = inserted-IsPlaced alive;
    size = size;
    reads = λ j nj. elim (Bool-cases (eq k j)) [
      | inr ne ↦ rw ne (read_other j (seek inserted j) nj ne refl)
      | inl e ↦
          rw (e, sym (search_congr laws blank unused inserted k j key nj e) ∙ seek_self)
            (ap (λ (m : TableNode K V). m.value)
              (get_or-set_self h d (record { used = true; key = k; value = v }) blank free.0))
    ];
  }
