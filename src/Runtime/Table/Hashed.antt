-- ===== src/Runtime/Table/Hashed.antt =====
-- Writes to the hash part.
use luajit.Common.{
  ℕ, ◌<◌, Bool, true, false, none, some, List, ◌∷◌, length, set, ◌≡◌, ◌≢◌, refl, sym, ap, ◌∙◌, inl,
  inr, Option-cases, Bool-cases, if◌then◌else◌, get_or-set_self, get_or-set_ne,
}
use native.Mathlib.Decide.{ℕ_discrete}
use luajit.Common.Int.{ℤ}
use luajit.Common.Result.{Result, ok}
use luajit.Runtime.Probe.{TableNode, hit, missing, Place, present, vacant, full, node, find_place}
use luajit.Runtime.Probe.Find.{find-hit_lt, Misses, find_place-Misses}
use luajit.Runtime.Probe.Put.{node-set_value, find_place-IsFree}
use luajit.Runtime.Probe.Store.{value_at, Stores, overwrite-Stores, search_congr}
use luajit.Runtime.Probe.Insert.{inserted-Stores}
use luajit.Runtime.Table.Laws.{IsKey, key_laws, lookup_key-cases, lookup_key-IsKey}
use luajit.Runtime.Table.Valid.{
  IsValid, Wrote, get_at, get_at-none, get_at-some, get-get_at, get-get_hash, equal_integer,
  get_hash-value_at, seek,
}
use luajit.Runtime.Table.{
  Strings, Table, TableError, hash_key, lookup_key, blank, is_small, array_slot, get, get_hash,
  write_node, bump_version, write_value, barrier, set_hash,
}
use luajit.Runtime.Value.Equality.{DoubleLaws, is_live}
use luajit.Runtime.Value.{Double, TValue, nil, boolean, integer, number, obj, values_equal, is_nil}

module _ {F : Type 0} ⦃dbl : Double F⦄ ⦃str : Strings⦄ (laws : DoubleLaws F) where
  -- A key that belongs in the hash part of a table with an array part of `size`.
  pub record IsHashKey (size : ℕ) (k : TValue F) : Type 0 where
    pub normal : IsKey k
    pub alive : is_live k ≡ true
    pub self : values_equal k k ≡ true
    pub not_array : (i : ℤ) → k ≡ integer i → (is_small i ≡ false) × (array_slot size i ≡ none)

  module _ (t : Table F) (key v : TValue F) (valid : IsValid laws t)
      (hashed : IsHashKey (length t.array) (lookup_key key)) where
    abbrev pub κ : TValue F
    κ = lookup_key key

    not-integer :
        (i : ℤ) (k : ℕ)
        → array_slot (length t.array) i ≡ some k
        → values_equal κ (integer i) ≡ false
    not-integer i k e = elim (Bool-cases (values_equal κ (integer i))) [
      | inr f ↦ f
      | inl f ↦ cc ((hashed.not_array i (equal_integer laws κ i hashed.normal f)).1, e)
    ]

    hash_Wrote :
        (u : Table F)
        → u.array ≡ t.array
        → Stores (key_laws laws) blank refl t.hash κ v u.hash
        → ((s : ℕ) (i : ℤ)
            → (node blank u.hash s).used ≡ true
            → (node blank u.hash s).key ≡ integer i
            → (is_small i ≡ false) × (array_slot (length t.array) i ≡ none))
        → Wrote laws t key v u
    hash_Wrote u same stores outside = record {
      valid = record { placed = stores.placed; outside = λ s i. rw same (outside s i) };
      reads = λ j. elim (lookup_key-cases laws j) [
        | inl (e, l) ↦
            rw
              (
                l,
                get-get_hash laws u j e,
                get-get_hash laws t j e,
                get_hash-value_at laws u.hash j,
                get_hash-value_at laws t.hash j,
              )
              (stores.reads j (rw l at (lookup_key-IsKey laws j)))
        | inr (i, e, l) ↦ rw (l, get-get_at laws u j i e, get-get_at laws t j i e) (read_int i)
      ];
    }
      where
        read_int :
            (i : ℤ) → get_at laws u i ≡ (if values_equal κ (integer i) then v else get_at laws t i)
        read_int i = elim (Option-cases (array_slot (length t.array) i)) [
          | inl e ↦
              rw
                (
                  get_at-none laws u i
                      (ap (λ (a : List (TValue F)). array_slot (length a) i) same ∙ e),
                  get_at-none laws t i e,
                  get_hash-value_at laws u.hash (integer i),
                  get_hash-value_at laws t.hash (integer i),
                )
                (stores.reads (integer i) tt)
          | inr (k, e) ↦ rw (
            get_at-some laws u i k (ap (λ (a : List (TValue F)). array_slot (length a) i) same ∙ e),
            get_at-some laws t i k e,
            not-integer i k e,
            same,
          )
        ]

    pub present_Wrote :
        (s : ℕ) (bs : List (TValue F))
        → 0 < length t.hash
        → seek laws t.hash κ ≡ hit s
        → Wrote laws t key v (record (write_value t s v) { barriers = bs })
    present_Wrote s bs nonempty e =
        let l =
          find-hit_lt (values_equal {F = F}) blank t.hash κ (hash_key {F = F} κ (length t.hash)) 0
            (length t.hash) s nonempty e in
        let kept =
          λ (i : ℕ). node-set_value (values_equal {F = F}) blank (λ _. false) t.hash s i v l in
        hash_Wrote _ refl
          (overwrite-Stores (key_laws laws) blank refl t.hash κ v valid.placed hashed.normal
            hashed.alive nonempty s e)
          (λ i j u q. valid.outside i j (sym (kept i).0 ∙ u) (sym (kept i).1 ∙ q))

    pub vacant_Wrote :
        (test : TValue F → Bool) (d : ℕ) (u : Table F)
        → ((w : TValue F) → test w ≡ true → w ≡ nil)
        → 0 < length t.hash
        → find_place values_equal blank test t.hash κ
            (hash_key κ (length t.hash))
            0
            none
            (length t.hash)
          ≡ vacant d
        → u.array ≡ t.array
        → u.hash ≡ set t.hash d (record { used = true; key = κ; value = v })
        → Wrote laws t key v u
    vacant_Wrote test d u nils nonempty e same written =
        hash_Wrote u same
          (rw written (
            inserted-Stores (key_laws laws) blank refl test nils t.hash κ v d valid.placed
              hashed.normal hashed.self nonempty e hashed.alive))
          (rw written (λ i j us q. elim (ℕ_discrete i d) [
            | yes at ↦ hashed.not_array j (sym (new_key at) ∙ q)
            | no ne ↦
                valid.outside i j
                  (sym (ap (λ (m : TableNode (TValue F) (TValue F)). m.used) (old_node i ne)) ∙ us)
                  (sym (ap (λ (m : TableNode (TValue F) (TValue F)). m.key) (old_node i ne)) ∙ q)
          ]))
      where
        new_node : TableNode (TValue F) (TValue F)
        new_node = record { used = true; key = κ; value = v }

        new_key : {i : ℕ} → i ≡ d → (node blank (set t.hash d new_node) i).key ≡ κ
        new_key at = rw at (
            ap (λ (m : TableNode (TValue F) (TValue F)). m.key)
              (get_or-set_self t.hash d new_node blank
                (find_place-IsFree (values_equal {F = F}) blank test t.hash κ
                  (hash_key {F = F} κ (length t.hash)) 0 (length t.hash) d nonempty e).0))

        old_node : (i : ℕ) → i ≢ d → node blank (set t.hash d new_node) i ≡ node blank t.hash i
        old_node i ne = get_or-set_ne t.hash d i new_node blank (λ (f : d ≡ i). ne (sym f))

    abbrev pub place : (TValue F → Bool) → Place
    place test =
        find_place values_equal blank test t.hash κ (hash_key κ (length t.hash)) 0 none
          (length t.hash)

    pub place-Misses :
        (test : TValue F → Bool)
        → Misses (values_equal {F = F}) blank test (place test) (seek laws t.hash κ)
    place-Misses test =
        find_place-Misses (values_equal {F = F}) blank test t.hash κ
          (hash_key {F = F} κ (length t.hash)) 0 none (length t.hash)

    -- Where the key is not found, it reads nil.
    absent-reads :
        seek laws t.hash κ ≡ missing
        → (j : TValue F) → values_equal κ (lookup_key j) ≡ true
        → get t j ≡ nil
    absent-reads e j q = elim (lookup_key-cases laws j) [
      | inl (n, l) ↦
          get-get_hash laws t j n ∙ read j (rw l at (lookup_key-IsKey laws j)) (rw l at q)
      | inr (i, n, l) ↦ elim (Option-cases (array_slot (length t.array) i)) [
        | inl a ↦ get-get_at laws t j i n ∙ get_at-none laws t i a ∙ read (integer i) tt (rw l at q)
        | inr (k, a) ↦ cc (not-integer i k a, rw l at q)
      ]
    ]
      where
        read : (x : TValue F) → IsKey x → values_equal κ x ≡ true → get_hash t.hash x ≡ nil
        read x kx qx =
            get_hash-value_at laws t.hash x
            ∙ ap (value_at (key_laws laws) blank refl t.hash)
                (sym (search_congr (key_laws laws) blank refl t.hash κ x hashed.normal kx qx) ∙ e)

    pub unchanged_Wrote : seek laws t.hash κ ≡ missing → v ≡ nil → Wrote laws t key v t
    unchanged_Wrote e n = record {
      valid = valid;
      reads = λ j. elim (Bool-cases (values_equal κ (lookup_key j))) [
        | inl q ↦ rw q (absent-reads e j q ∙ sym n)
        | inr q ↦ rw q
      ];
    }

    is_nil-eq : (w : TValue F) → is_nil w ≡ true → w ≡ nil
    is_nil-eq nil e = refl
    is_nil-eq (boolean b) e = cc
    is_nil-eq (integer i) e = cc
    is_nil-eq (number d) e = cc
    is_nil-eq (obj o p) e = cc

    -- Unless the hash part is full, `set_hash` stores the value and does not call `again`.
    pub set_hash_room :
        (again : Table F → Result TableError (Table F))
        → 0 < length t.hash
        → place is_nil ≢ full
        → (u : Table F) × (set_hash again t κ v ≡ ok u) × Wrote laws t key v u
    unfolding set_hash
    set_hash_room again nonempty room = go (place is_nil) refl (place-Misses is_nil)
      where
        go :
            (p : Place)
            → place is_nil ≡ p
            → Misses (values_equal {F = F}) blank is_nil p (seek laws t.hash κ)
            → (u : Table F) × (set_hash again t κ v ≡ ok u) × Wrote laws t key v u
        go full e m = absurd (room e)
        go (present s) e m = elim (Bool-cases (is_nil v)) [
          | inl n ↦ (
            write_value t s v,
            rw (e, set_hash) (rw n refl),
            present_Wrote s t.barriers nonempty m,
          )
          | inr n ↦ (
            barrier (write_value t s v) v,
            rw (e, set_hash) (rw n refl),
            present_Wrote s (v ∷ t.barriers) nonempty m,
          )
        ]
        go (vacant d) e m = elim (Bool-cases (is_nil v)) [
          | inl n ↦ (t, rw (e, set_hash) (rw n refl), unchanged_Wrote m (is_nil-eq v n))
          | inr n ↦
              let w = record t { structure_version = bump_version t.structure_version } in
              (
                write_node w d κ v,
                rw (e, set_hash) (rw n refl),
                vacant_Wrote is_nil d (write_node w d κ v) is_nil-eq nonempty e refl refl,
              )
        ]

    -- A full hash part is handed to `again`, unless the value is nil: then nothing is to be done.
    pub set_hash_full :
        (again : Table F → Result TableError (Table F))
        → place is_nil ≡ full
        → (set_hash again t κ v ≡ (if is_nil v then ok t else again t))
          × (is_nil v ≡ true → Wrote laws t key v t)
    unfolding set_hash
    set_hash_full again e = (
      rw (e, set_hash),
      λ n. unchanged_Wrote (missing_full (place is_nil) e (place-Misses is_nil)) (is_nil-eq v n),
    )
      where
        missing_full :
            (p : Place)
            → p ≡ full
            → Misses (values_equal {F = F}) blank is_nil p (seek laws t.hash κ)
            → seek laws t.hash κ ≡ missing
        missing_full (present s) f m = cc
        missing_full (vacant d) f m = m
        missing_full full f m = m
