-- ===== src/Runtime/Table/Rehash.antt =====
-- `Table::rehash` fills fresh parts with the entries of the old ones.
use luajit.Common.{
  ℕ, zero, suc, ◌+◌, ◌*◌, ◌≤◌, ◌<◌, true, false, not, ◌&&◌, none, List, [], ◌∷◌, length, ◌≡◌, refl,
  sym, ap, ap₂, subst, ◌∙◌, arith, ◌⊎◌, inl, inr, Bool-cases, if◌then◌else◌,
}
use luajit.Common.Result.{Result, ok, ◌>>=◌}
use luajit.Runtime.Probe.{TableNode}
use luajit.Runtime.Probe.Room.{used_count}
use luajit.Runtime.Table.Hashed.{IsHashKey}
use luajit.Runtime.Table.Laws.{IsKey}
use luajit.Runtime.Table.Refill.{Kept, raw_insert_hash}
use luajit.Runtime.Table.Valid.{IsValid}
use luajit.Runtime.Table.{
  Strings, Table, TableError, key_as_integer, lookup_key, key_slot, raw_insert, insert_nodes,
  double_until, count_nodes, get,
}
use luajit.Runtime.Value.Equality.{DoubleLaws}
use luajit.Runtime.Value.{Double, TValue, nil, boolean, integer, number, obj, values_equal, is_nil}

pub double_until-le :
    (fuel goal hs : ℕ) → 0 < hs → goal ≤ hs + fuel → goal ≤ double_until fuel goal hs
unfolding double_until
double_until-le zero goal hs p h = omega arith
double_until-le (suc fuel) goal hs p h = ground (arith, double_until-le fuel goal (hs * 2))

module _ {F : Type 0} ⦃dbl : Double F⦄ ⦃str : Strings⦄ (laws : DoubleLaws F) where
  lookup_key_self : (k : TValue F) → IsKey k → lookup_key k ≡ k
  unfolding lookup_key key_as_integer
  lookup_key_self (integer i) n = refl
  lookup_key_self (number d) n = rw (n.1, lookup_key)
  lookup_key_self nil n = refl
  lookup_key_self (boolean b) n = refl
  lookup_key_self (obj o p) n = refl

  -- An entry of the old hash part that is carried over.
  abbrev pub IsEntry : ℕ → TableNode (TValue F) (TValue F) → Type 0
  IsEntry size m = (m.used ≡ true → is_nil m.value ≡ false → IsHashKey laws size m.key)

  abbrev pub AllEntries : ℕ → List (TableNode (TValue F) (TValue F)) → Type 0
  AllEntries size [] = Unit
  AllEntries size (m ∷ h) = IsEntry size m × AllEntries size h

  -- What a key reads when the nodes are stored one after the other.
  abbrev pub scan : List (TableNode (TValue F) (TValue F)) → TValue F → TValue F → TValue F
  scan [] x d = d
  scan (m ∷ h) x d =
      scan h x (if m.used && not (is_nil m.value) && values_equal m.key x then m.value else d)

  hash_slot : (size : ℕ) (k : TValue F) → IsHashKey laws size k → key_slot size k ≡ none
  unfolding key_slot key_as_integer
  hash_slot size (integer i) h = (h.not_array i refl).1
  hash_slot size (number d) h = rw (h.normal.1, key_slot)
  hash_slot size nil h = refl
  hash_slot size (boolean b) h = refl
  hash_slot size (obj o p) h = refl

  raw_insert_nil : (t : Table F) (k v : TValue F) → is_nil v ≡ true → raw_insert t k v ≡ ok t
  unfolding raw_insert
  raw_insert_nil t k v e = rw e

  pub record Filled (h : List (TableNode (TValue F) (TValue F))) (t u : Table F) : Type 0 where
    pub valid : IsValid laws u
    pub array_size : length u.array ≡ length t.array
    pub room : used_count u.hash < length u.hash
    pub reads : (j : TValue F) → get u j ≡ scan h (lookup_key j) (get t j)

  scan_live :
      (m : TableNode (TValue F) (TValue F)) (h : List (TableNode (TValue F) (TValue F)))
      (x d : TValue F)
      → m.used ≡ true
      → is_nil m.value ≡ false
      → scan (m ∷ h) x d ≡ scan h x (if values_equal m.key x then m.value else d)
  scan_live m h x d u l = ap (scan h x) (rw (u, l))

  scan_dead :
      (m : TableNode (TValue F) (TValue F)) (h : List (TableNode (TValue F) (TValue F)))
      (x d : TValue F)
      → (m.used ≡ false) ⊎ (is_nil m.value ≡ true)
      → scan (m ∷ h) x d ≡ scan h x d
  scan_dead m h x d dead = ap (scan h x) (ground arith)

  -- One node, then the others.
  insert_live :
      (m : TableNode (TValue F) (TValue F)) (h : List (TableNode (TValue F) (TValue F)))
      (t : Table F)
      → IsValid laws t
      → m.used ≡ true
      → is_nil m.value ≡ false
      → IsHashKey laws (length t.array) m.key
      → used_count t.hash < length t.hash
      → (w : Table F) × (raw_insert t m.key m.value ≡ ok w)
        × Kept t w
        × IsValid laws w
        × ((x : TValue F) (j : TValue F)
            → lookup_key j ≡ x
            → get w j ≡ (if values_equal m.key x then m.value else get t j))
  insert_live m h t valid used live k room =
      let self = lookup_key_self m.key k.normal in
      let (w, step, wrote, kept) =
        raw_insert_hash laws t m.key m.value valid live
          (subst (IsHashKey laws (length t.array)) (sym self) k) (hash_slot _ m.key k) room in
      (
        w,
        step,
        kept,
        wrote.valid,
        λ x j l.
            wrote.reads j
            ∙ ap₂ (λ (a b : TValue F). if values_equal a b then m.value else get t j) self l,
      )

  abbrev pub Fills : List (TableNode (TValue F) (TValue F)) → Table F → Type 0
  Fills h t = (u : Table F) × (insert_nodes h t ≡ ok u) × Filled h t u

  skip_node :
      (m : TableNode (TValue F) (TValue F)) (h : List (TableNode (TValue F) (TValue F)))
      (t : Table F)
      → (m.used ≡ false) ⊎ (is_nil m.value ≡ true)
      → Fills h t
      → Fills (m ∷ h) t
  unfolding insert_nodes
  skip_node m h t dead (u, run, f) =
      let step : (if m.used then raw_insert t m.key m.value else ok t) ≡ ok t =
        ground (arith, raw_insert_nil t m.key m.value) in
      (
        u,
        ap (λ (r : Result TableError (Table F)). r >>= insert_nodes h) step ∙ run,
        record {
          valid = f.valid;
          array_size = f.array_size;
          room = f.room;
          reads = λ j. f.reads j ∙ sym (scan_dead m h (lookup_key j) (get t j) dead);
        },
      )

  take_node :
      (m : TableNode (TValue F) (TValue F)) (h : List (TableNode (TValue F) (TValue F)))
      (t w : Table F)
      → m.used ≡ true
      → is_nil m.value ≡ false
      → raw_insert t m.key m.value ≡ ok w
      → Kept t w
      → ((x : TValue F) (j : TValue F)
          → lookup_key j ≡ x
          → get w j ≡ (if values_equal m.key x then m.value else get t j))
      → Fills h w
      → Fills (m ∷ h) t
  unfolding insert_nodes
  take_node m h t w used live step kept reads (u, run, f) =
      let taken : (if m.used then raw_insert t m.key m.value else ok t) ≡ ok w = rw used step in
      (
        u,
        ap (λ (r : Result TableError (Table F)). r >>= insert_nodes h) taken ∙ run,
        record {
          valid = f.valid;
          array_size = f.array_size ∙ kept.array_size;
          room = f.room;
          reads = λ j.
              f.reads j
              ∙ ap (scan h (lookup_key j)) (reads (lookup_key j) j refl)
              ∙ sym (scan_live m h (lookup_key j) (get t j) used live);
        },
      )

  pub insert_nodes-Filled :
      (h : List (TableNode (TValue F) (TValue F))) (t : Table F)
      → IsValid laws t
      → AllEntries (length t.array) h
      → used_count t.hash + count_nodes h < length t.hash
      → Fills h t
  unfolding insert_nodes count_nodes
  insert_nodes-Filled [] t valid all room =
      (t, refl, record { valid = valid; array_size = refl; room = omega arith; reads = λ j. refl })
  insert_nodes-Filled (m ∷ h) t valid (entry, all) room = elim (Bool-cases m.used) [
    | inr unused ↦ skip_node m h t (inl unused) (insert_nodes-Filled h t valid all (omega arith))
    | inl used ↦ elim (Bool-cases (is_nil m.value)) [
      | inl gone ↦ skip_node m h t (inr gone) (insert_nodes-Filled h t valid all (omega arith))
      | inr live ↦
          let count : count_nodes (m ∷ h) ≡ 1 + count_nodes h = rw (used, live) refl in
          let (w, step, kept, wvalid, reads) =
            insert_live m h t valid used live (entry used live) (omega (arith, count, room)) in
          take_node m h t w used live step kept reads (
            insert_nodes-Filled h w wvalid
              (subst (λ (n : ℕ). AllEntries n h) (sym kept.array_size) all)
              (omega (arith, kept.used, kept.hash_size, count, room)))
    ]
  ]
