-- ===== src/Runtime/Table/Rebuild.antt =====
-- `Table::rehash` keeps every read.
use luajit.Common.{
  ℕ, zero, suc, ◌+◌, ◌≤◌, ◌<◌, true, false, not, ◌&&◌, List, [], ◌∷◌, length, get_or, ◌≡◌, refl, ap,
  ◌∙◌, arith, ◌⊎◌, inl, inr, Bool-cases, if◌then◌else◌, ◌==◌, length-set, get_or-set,
}
use luajit.Common.Int.{pos}
use luajit.Common.Result.{Result, ok, ◌>>=◌}
use luajit.Runtime.Probe.{TableNode, node}
use luajit.Runtime.Table.Rehash.{IsEntry, AllEntries, scan}
use luajit.Runtime.Table.Valid.{IsValid, seek-hit}
use luajit.Runtime.Table.{
  Strings, Table, TableError, key_as_integer, key_slot, blank, raw_insert, insert_array,
  write_array,
}
use luajit.Runtime.Value.Equality.{DoubleLaws, is_live}
use luajit.Runtime.Value.{Double, TValue, nil, boolean, integer, number, obj, values_equal, is_nil}

module _ {F : Type 0} where
  -- The cells of an array after the values of `a` were stored from index `i` on.
  abbrev pub overlay : ℕ → List (TValue F) → ℕ → TValue F → TValue F
  overlay i [] m d = d
  overlay i (v ∷ a) m d = overlay (suc i) a m (if not (is_nil v) && m == i then v else d)

  overlay_below : (i : ℕ) (a : List (TValue F)) (m : ℕ) (d : TValue F) → m < i → overlay i a m d ≡ d
  overlay_below i [] m d h = refl
  overlay_below i (v ∷ a) m d h = overlay_below (suc i) a m _ (omega arith) ∙ ground arith

  nil_or : (v : TValue F) → (if not (is_nil v) && true then v else nil) ≡ v
  nil_or nil = refl
  nil_or (boolean b) = refl
  nil_or (integer b) = refl
  nil_or (number b) = refl
  nil_or (obj o b) = refl

  pub overlay_get : (i : ℕ) (a : List (TValue F)) (m : ℕ) → overlay i a (i + m) nil ≡ get_or a m nil
  overlay_get i [] m = refl
  overlay_get i (v ∷ a) zero =
      overlay_below (suc i) a (i + 0) _ (omega arith) ∙ (ground (arith, nil_or v))
  overlay_get i (v ∷ a) (suc m) =
      let e : i + suc m ≡ suc i + m = omega arith in
      let ne : (if not (is_nil v) && (i + suc m) == i then v else nil) ≡ nil = ground arith in
      rw (ne, e) (overlay_get (suc i) a m)

module _ {F : Type 0} ⦃dbl : Double F⦄ ⦃str : Strings⦄ where
  pub record ArrayFilled (i : ℕ) (a : List (TValue F)) (t u : Table F) : Type 0 where
    pub hash : u.hash ≡ t.hash
    pub size : length u.array ≡ length t.array
    pub cells : (m : ℕ) → get_or u.array m nil ≡ overlay i a m (get_or t.array m nil)

  abbrev after : Table F → ℕ → TValue F → Table F
  after t i v = if is_nil v then t else write_array t i v

  raw_insert_cell :
      (t : Table F) (i : ℕ) (v : TValue F)
      → i < length t.array
      → raw_insert t (integer (pos (suc i))) v ≡ ok (after t i v)
  unfolding raw_insert key_slot key_as_integer
  raw_insert_cell t i v l = ground arith

  after_cells :
      (t : Table F) (i : ℕ) (v : TValue F) (m : ℕ)
      → i < length t.array
      → get_or (after t i v).array m nil
        ≡ (if not (is_nil v) && m == i then v else get_or t.array m nil)
  after_cells t i v m l = ground (arith, get_or-set t.array i m v nil)

  after_size : (t : Table F) (i : ℕ) (v : TValue F) → length (after t i v).array ≡ length t.array
  after_size t i v = ground (arith, length-set t.array i v)

  after_hash : (t : Table F) (i : ℕ) (v : TValue F) → (after t i v).hash ≡ t.hash
  after_hash t i v = ground arith

  pub insert_array-ArrayFilled :
      (i : ℕ) (a : List (TValue F)) (t : Table F)
      → i + length a ≤ length t.array
      → (u : Table F) × (insert_array i a t ≡ ok u) × ArrayFilled i a t u
  unfolding insert_array
  insert_array-ArrayFilled i [] t fits =
      (t, refl, record { hash = refl; size = refl; cells = λ m. refl })
  insert_array-ArrayFilled i (v ∷ a) t fits =
      let w = after t i v in
      let (u, run, f) = insert_array-ArrayFilled (suc i) a w (omega (arith, after_size t i v)) in
      (
        u,
        ap (λ (r : Result TableError (Table F)). r >>= insert_array (suc i) a)
              (raw_insert_cell t i v (omega arith))
            ∙ run,
        record {
          hash = f.hash ∙ after_hash t i v;
          size = f.size ∙ after_size t i v;
          cells = λ m. f.cells m ∙ ap (overlay (suc i) a m) (after_cells t i v m (omega arith));
        },
      )

module _ {F : Type 0} ⦃dbl : Double F⦄ ⦃str : Strings⦄ (laws : DoubleLaws F) where
  pub all_entries :
      (size : ℕ) (h : List (TableNode (TValue F) (TValue F)))
      → ((s : ℕ) → IsEntry laws size (node blank h s))
      → AllEntries laws size h
  all_entries size [] f = tt
  all_entries size (m ∷ h) f = (f 0, all_entries size h (λ s. f (suc s)))

  pub IsEntry-at :
      (t : Table F) → IsValid laws t → (s : ℕ) → IsEntry laws (length t.array) (node blank t.hash s)
  IsEntry-at t valid s used value = record {
    normal = valid.placed.keys s used;
    alive = alive;
    self = (seek-hit laws t.hash _ s (valid.placed.found s used alive)).1;
    not_array = λ i e. valid.outside s i used e;
  }
    where
      alive : is_live (node blank t.hash s).key ≡ true
      alive = elim (Bool-cases (is_live (node blank t.hash s).key)) [
        | inl l ↦ l
        | inr d ↦ cc (ap is_nil (valid.placed.cleared s used d), value)
      ]

  abbrev pub IsActive : TableNode (TValue F) (TValue F) → TValue F → Type 0
  IsActive m x = (m.used ≡ true) × (is_nil m.value ≡ false) × (values_equal m.key x ≡ true)

  pub scan_const :
      (h : List (TableNode (TValue F) (TValue F))) (x d g : TValue F)
      → ((s : ℕ) → IsActive (node blank h s) x → (node blank h s).value ≡ g)
      → (d ≡ g) ⊎ ((s : ℕ) × IsActive (node blank h s) x)
      → scan laws h x d ≡ g
  scan_const [] x d g f (inl e) = e
  scan_const [] x d g f (inr (s, a)) = cc (a.0)
  scan_const (m ∷ h) x d g f start = scan_const h x _ g (λ s. f (suc s)) (rest start)
    where
      now : TValue F
      now = if m.used && not (is_nil m.value) && values_equal m.key x then m.value else d

      rest :
          (d ≡ g) ⊎ ((s : ℕ) × IsActive (node blank (m ∷ h) s) x)
          → (now ≡ g) ⊎ ((s : ℕ) × IsActive (node blank h s) x)
      rest (inl e) = inl (ground (arith, f 0))
      rest (inr (zero, a)) = inl (ground (arith, f 0 a))
      rest (inr (suc s, a)) = inr (s, a)
