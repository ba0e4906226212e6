-- ===== src/Runtime/Table/Rebuilt.antt =====
-- The theorem about `Table::rehash`.
use Prim.Native.Nat.{max}
use native.Mathlib.Nat.{zero-add}
use luajit.Common.{
  ℕ, zero, suc, ◌+◌, ◌≤◌, ◌<◌, true, false, some, List, length, get_or, replicate, ◌≡◌, refl, sym,
  ap, ap₂, subst, ◌∙◌, arith, ◌⊎◌, inl, inr, Option-cases, Bool-cases, get_or-replicate,
  length-replicate,
}
use luajit.Common.Int.{ℤ}
use luajit.Common.Result.{ok}
use luajit.Runtime.Probe.{TableNode, Found, hit, missing, node}
use luajit.Runtime.Probe.Room.{used_count}
use luajit.Runtime.Probe.Store.{value_at, search_congr}
use luajit.Runtime.Table.Laws.{IsKey, key_laws, lookup_key-cases, lookup_key-IsKey}
use luajit.Runtime.Table.Rebuild.{
  IsActive, scan_const, all_entries, IsEntry-at, insert_array-ArrayFilled, overlay, overlay_get,
}
use luajit.Runtime.Table.Rehash.{AllEntries, double_until-le, scan, Filled, insert_nodes-Filled}
use luajit.Runtime.Table.Valid.{
  IsValid, seek, seek-hit, equal_integer, get_at-none, get_at-some, get-get_at, get-get_hash,
  get_hash-value_at,
}
use luajit.Runtime.Table.{
  Strings, Table, blank, array_slot, rehash, double_until, count_values, count_nodes, get, get_hash,
  bump_version,
}
use luajit.Runtime.Value.Equality.{DoubleLaws}
use luajit.Runtime.Value.{Double, TValue, nil, boolean, integer, number, obj, is_nil}

module _ {F : Type 0} ⦃dbl : Double F⦄ ⦃str : Strings⦄ (laws : DoubleLaws F) where
  scan-get_hash :
      (t : Table F) (x : TValue F)
      → IsValid laws t
      → IsKey x
      → scan laws t.hash x nil ≡ get_hash t.hash x
  scan-get_hash t x valid key =
      scan_const laws t.hash x nil (get_hash t.hash x) active (start (seek laws t.hash x) refl)
    where
      at : (s : ℕ) → IsActive laws (node blank t.hash s) x → seek laws t.hash x ≡ hit s
      at s (used, value, e) =
          let k = IsEntry-at laws t valid s used value in
          sym (
            search_congr (key_laws laws) blank refl t.hash (node blank t.hash s).key x k.normal key
              e)
          ∙ valid.placed.found s used k.alive

      active :
          (s : ℕ)
          → IsActive laws (node blank t.hash s) x
          → (node blank t.hash s).value ≡ get_hash t.hash x
      active s a = sym (
          get_hash-value_at laws t.hash x
          ∙ ap (value_at (key_laws laws) blank refl t.hash) (at s a))

      start :
          (f : Found)
          → seek laws t.hash x ≡ f
          → (nil ≡ get_hash t.hash x) ⊎ ((s : ℕ) × IsActive laws (node blank t.hash s) x)
      start missing e = inl (
          sym (get_hash-value_at laws t.hash x ∙ ap (value_at (key_laws laws) blank refl t.hash) e))
      start (hit s) e = elim (Bool-cases (is_nil (node blank t.hash s).value)) [
        | inr live ↦ inr (s, ((seek-hit laws t.hash x s e).0, live, (seek-hit laws t.hash x s e).1))
        | inl gone ↦ inl (
            sym (
              get_hash-value_at laws t.hash x
              ∙ ap (value_at (key_laws laws) blank refl t.hash) e
              ∙ nil_of (node blank t.hash s).value gone))
      ]
        where
          nil_of : (v : TValue F) → is_nil v ≡ true → v ≡ nil
          nil_of nil g = refl
          nil_of (boolean b) g = cc
          nil_of (integer b) g = cc
          nil_of (number b) g = cc
          nil_of (obj o b) g = cc

  -- Keys of the array part are no keys of the hash part.
  scan_array :
      (t : Table F) (i : ℤ) (k : ℕ) (d : TValue F)
      → IsValid laws t
      → array_slot (length t.array) i ≡ some k
      → scan laws t.hash (integer i) d ≡ d
  scan_array t i k d valid e =
      scan_const laws t.hash (integer i) d d
        (λ s a.
          let n = IsEntry-at laws t valid s a.0 a.1 in
          cc ((n.not_array i (equal_integer laws _ i n.normal a.2)).1, e))
        (inl refl)

  pub blank-get_hash : (n : ℕ) (x : TValue F) → get_hash (replicate n blank) x ≡ nil
  blank-get_hash n x = get_hash-value_at laws _ x ∙ go (seek laws (replicate n blank) x) refl
    where
      go :
          (f : Found)
          → seek laws (replicate n blank) x ≡ f
          → value_at (key_laws laws) blank refl (replicate n blank) f ≡ nil
      go missing e = refl
      go (hit s) e =
          ap (λ (m : TableNode (TValue F) (TValue F)). m.value) (get_or-replicate n s blank)

  blank_used :
      (n s : ℕ)
      → (node blank (replicate {A = TableNode (TValue F) (TValue F)} n blank) s).used ≡ false
  blank_used n s = ap (λ (m : TableNode (TValue F) (TValue F)). m.used) (get_or-replicate n s blank)

  pub blank_count :
      (n : ℕ) → used_count (replicate {A = TableNode (TValue F) (TValue F)} n blank) ≡ 0
  unfolding used_count
  blank_count zero = refl
  blank_count (suc n) = omega (arith, blank_count n)

  pub fresh-IsValid : (t : Table F) (n : ℕ) → t.hash ≡ replicate n blank → IsValid laws t
  fresh-IsValid t n e = record {
    placed = record {
      keys = λ s u. cc (u, unused s);
      found = λ s u l. cc (u, unused s);
      cleared = λ s u l. cc (u, unused s);
    };
    outside = λ s i u k. cc (u, unused s);
  }
    where
      unused : (s : ℕ) → (node blank t.hash s).used ≡ false
      unused s =
          ap (λ (h : List (TableNode (TValue F) (TValue F))). (node blank h s).used) e
          ∙ blank_used n s

  -- The reads of the refilled table, from those of the table with the array part filled.
  reads_kept :
      (t w u : Table F)
      → IsValid laws t
      → IsValid laws w
      → length w.array ≡ length t.array
      → ((m : ℕ) → get_or w.array m nil ≡ get_or t.array m nil)
      → ((x : TValue F) → get_hash w.hash x ≡ nil)
      → Filled laws t.hash w u
      → (j : TValue F) → get u j ≡ get t j
  reads_kept t w u valid wvalid size cells empty f j = elim (lookup_key-cases laws j) [
    | inl (e, l) ↦
        f.reads j
        ∙ ap₂ (scan laws t.hash) l (get-get_hash laws w j e ∙ empty j)
        ∙ scan-get_hash t j valid (subst (λ (x : TValue F). IsKey x) l (lookup_key-IsKey laws j))
        ∙ sym (get-get_hash laws t j e)
    | inr (i, e, l) ↦ elim (Option-cases (array_slot (length t.array) i)) [
      | inl a ↦
          f.reads j
          ∙ ap₂ (scan laws t.hash) l (
              get-get_at laws w j i e
              ∙ get_at-none laws w i (ap (λ (n : ℕ). array_slot n i) size ∙ a)
              ∙ empty (integer i))
          ∙ scan-get_hash t (integer i) valid tt
          ∙ sym (get-get_at laws t j i e ∙ get_at-none laws t i a)
      | inr (k, a) ↦
          f.reads j
          ∙ ap₂ (scan laws t.hash) l (
              get-get_at laws w j i e
              ∙ get_at-some laws w i k (ap (λ (n : ℕ). array_slot n i) size ∙ a)
              ∙ cells k)
          ∙ scan_array t i k _ valid a
          ∙ sym (get-get_at laws t j i e ∙ get_at-some laws t i k a)
    ]
  ]

  pub record Rebuilt (t u : Table F) : Type 0 where
    pub valid : IsValid laws u
    pub array_size : length u.array ≡ length t.array
    pub room : used_count u.hash < length u.hash
    pub reads : (j : TValue F) → get u j ≡ get t j

  -- Given the laws of doubles, a rehash of a well-formed table that keeps the size of the array part
  -- does not overflow the new hash part, leaves a slot unused, and changes no read; the result is well
  -- formed.
  pub rehash-Rebuilt :
      (t : Table F) (hint : ℕ)
      → IsValid laws t
      → (u : Table F) × (rehash t (length t.array) hint ≡ ok u) × Rebuilt t u
  unfolding rehash
  rehash-Rebuilt t hint valid =
      let nitems = count_values t.array + count_nodes t.hash in
      let goal = max hint (nitems + 1) in
      let hs = double_until goal goal 8 in
      let big : goal ≤ hs = double_until-le goal goal 8 (omega arith) (omega arith) in
      let fresh : Table F = record t {
        array = replicate (length t.array) nil;
        hash = replicate hs blank;
        structure_version = bump_version t.structure_version;
      } in
      let size : length fresh.array ≡ length t.array = length-replicate (length t.array) nil in
      let (w, run, f) = insert_array-ArrayFilled 0 t.array fresh (omega (arith, size)) in
      let wvalid = fresh-IsValid w hs f.hash in
      let wsize : length w.array ≡ length t.array = f.size ∙ size in
      let (u, run2, g) =
        insert_nodes-Filled laws t.hash w wvalid
          (subst (λ (n : ℕ). AllEntries laws n t.hash) (sym wsize)
            (all_entries laws (length t.array) t.hash (IsEntry-at laws t valid)))
          (omega (
            arith,
            ap used_count f.hash ∙ blank_count hs,
            ap length f.hash ∙ length-replicate hs blank,
            big,
          )) in
      (
        u,
        rw run run2,
        record {
          valid = g.valid;
          array_size = g.array_size ∙ wsize;
          room = g.room;
          reads =
              reads_kept t w u valid wvalid wsize
                (λ m.
                  f.cells m
                  ∙ ap (overlay 0 t.array m) (get_or-replicate (length t.array) m nil)
                  ∙ subst (λ (n : ℕ). overlay 0 t.array n nil ≡ get_or t.array m nil) (zero-add m)
                      (overlay_get 0 t.array m))
                (λ x.
                  ap (λ (h : List (TableNode (TValue F) (TValue F))). get_hash h x) f.hash
                  ∙ blank-get_hash hs x)
                g;
        },
      )
