-- ===== src/Runtime/Probe/Store.antt =====
-- The hash part as a map: what a search returns after a write.
use luajit.Common.{
  ℕ, ◌<◌, Bool, true, false, List, length, set, if◌then◌else◌, ◌==◌, ◌≡◌, refl, sym, arith,
  get_or-set, length-set, ◌∙◌, ap,
}
use luajit.Runtime.Probe.{TableNode, Found, hit, missing, node, find}
use luajit.Runtime.Probe.Find.{find-hit, find-hit_lt, find_congr, find_key_congr}
use luajit.Runtime.Probe.Put.{node-set_value}

-- What the probe loops ask of the keys that are stored: the test is an equivalence, and equal keys
-- have the same home.
pub record KeyLaws {K : Type 0} (eq : K → K → Bool) (home : K → ℕ → ℕ) (live : K → Bool)
    (IsKey : K → Type 0) : Type 0 where
  pub symm : (a b : K) → eq a b ≡ eq b a
  pub trans : (a b c : K) → eq a b ≡ true → eq b c ≡ true → eq a c ≡ true
  pub home_congr : (a b : K) (n : ℕ) → IsKey a → IsKey b → eq a b ≡ true → home a n ≡ home b n
  pub live_congr : (a b : K) → eq a b ≡ true → live a ≡ live b

module _ {K V : Type 0} {eq : K → K → Bool} {home : K → ℕ → ℕ} {live : K → Bool}
    {IsKey : K → Type 0} (laws : KeyLaws eq home live IsKey) (blank : TableNode K V)
    (unused : blank.used ≡ false) where
  abbrev pub search : List (TableNode K V) → K → Found
  search h k = find eq blank h k (home k (length h)) 0 (length h)

  abbrev pub value_at : List (TableNode K V) → Found → V
  value_at h (hit s) = (node blank h s).value
  value_at h missing = blank.value

  -- Every used slot with a live key is where the search for that key ends; a slot whose key was
  -- cleared has a nil value.
  pub record IsPlaced (h : List (TableNode K V)) : Type 0 where
    pub keys : (s : ℕ) → (node blank h s).used ≡ true → IsKey (node blank h s).key
    pub found :
        (s : ℕ)
        → (node blank h s).used ≡ true
        → live (node blank h s).key ≡ true
        → search h (node blank h s).key ≡ hit s
    pub cleared :
        (s : ℕ)
        → (node blank h s).used ≡ true
        → live (node blank h s).key ≡ false
        → (node blank h s).value ≡ blank.value

  eq_congr : (k j x : K) → eq k j ≡ true → eq x k ≡ eq x j
  eq_congr k j x e = ground (arith, laws.trans x k j, laws.trans x j k, laws.symm k j)

  pub search_congr :
      (h : List (TableNode K V)) (k j : K)
      → IsKey k
      → IsKey j
      → eq k j ≡ true
      → search h k ≡ search h j
  search_congr h k j nk nj e =
      rw (laws.home_congr k j (length h) nk nj e)
        (find_key_congr eq blank h k j (home j (length h)) 0 (length h) (λ s. eq_congr k j _ e))

  -- A search that ends at a slot ends there for the slot's own key.
  pub search_own :
      (h : List (TableNode K V)) (k : K) (s : ℕ)
      → IsPlaced h
      → IsKey k
      → search h k ≡ hit s
      → search h (node blank h s).key ≡ hit s
  search_own h k s placed nk e =
      let (u, same) = find-hit eq blank h k (home k (length h)) 0 (length h) s e in
      search_congr h _ k (placed.keys s u) nk same ∙ e

  -- The table `g` is `h` with `v` stored under `k`.
  pub record Stores (h : List (TableNode K V)) (k : K) (v : V) (g : List (TableNode K V))
      : Type 0 where
    pub placed : IsPlaced g
    pub size : length g ≡ length h
    pub reads :
        (j : K)
        → IsKey j
        → value_at g (search g j) ≡ (if eq k j then v else value_at h (search h j))

  module _ (h : List (TableNode K V)) (k : K) (v : V) (placed : IsPlaced h) (key : IsKey k)
      (alive : live k ≡ true) (pos : 0 < length h) where
    abbrev overwrite : ℕ → List (TableNode K V)
    overwrite s = set h s (record (node blank h s) { value = v })

    search-overwrite : (s : ℕ) → s < length h → (j : K) → search (overwrite s) j ≡ search h j
    search-overwrite s l j =
        let e : length (overwrite s) ≡ length h = length-set h s _ in
        rw e (
          find_congr eq blank h (overwrite s) j (home j (length h)) 0 (length h) e
            (λ i. node-set_value eq blank (λ _. false) h s i v l))

    value-overwrite :
        (s i : ℕ)
        → s < length h
        → (node blank (overwrite s) i).value ≡ (if i == s then v else (node blank h i).value)
    value-overwrite s i l =
        ground (arith, get_or-set h s i (record (node blank h s) { value = v }) blank)

    reads_overwrite :
        (s : ℕ) (j : K) (f : Found)
        → IsKey j
        → search h j ≡ f
        → search h k ≡ hit s
        → (node blank h s).used ≡ true
        → eq (node blank h s).key k ≡ true
        → s < length h
        → value_at (overwrite s) f ≡ (if eq k j then v else value_at h f)
    reads_overwrite s j missing nj fe e u same l = ground (arith, search_congr h k j key nj)
    reads_overwrite s j (hit i) nj fe e u same l = rw (value-overwrite s i l) (
        ground (
          arith,
          search_congr h k j key nj,
          find-hit eq blank h j (home j (length h)) 0 (length h) i fe,
          eq_congr (node blank h s).key k j,
          laws.trans k (node blank h s).key j,
          laws.symm (node blank h s).key k,
        ))

    pub overwrite-Stores : (s : ℕ) → search h k ≡ hit s → Stores h k v (overwrite s)
    overwrite-Stores s e =
        let (u, same) = find-hit eq blank h k (home k (length h)) 0 (length h) s e in
        let l = find-hit_lt eq blank h k (home k (length h)) 0 (length h) s pos e in
        let kept = λ (i : ℕ). node-set_value eq blank (λ _. false) h s i v l in
        record {
          size = length-set h s _;
          placed = record {
            keys = λ i ui. rw (kept i).1 (placed.keys i (sym (kept i).0 ∙ ui));
            found = λ i ui li. rw (kept i).1 (
                search-overwrite s l _
                ∙ placed.found i (sym (kept i).0 ∙ ui) (ap live (sym (kept i).1) ∙ li));
            cleared = λ i ui li.
                rw (value-overwrite s i l) (
                  ground (arith, placed.cleared i, kept i, laws.live_congr (node blank h s).key k));
          };
          reads = λ j nj.
              rw (search-overwrite s l j) (reads_overwrite s j (search h j) nj refl e u same l);
        }
