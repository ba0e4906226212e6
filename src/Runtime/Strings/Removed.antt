-- ===== src/Runtime/Strings/Removed.antt =====
-- Removal, as the collector calls it for a string that is dead.
use native.Mathlib.Nat.{mod-lt}
use luajit.Common.{
  ℕ, suc, ◌-◌, ◌<◌, ◌≡◌, ◌≢◌, refl, sym, ap, subst, ◌∙◌, arith, inl, inr, Bool, true, false,
  Bool-cases, List, [], ◌∷◌, length, set, get_or-set_self, get_or-set_ne, length-set, ◌==◌, ==_iff,
  if◌then◌else◌, Option, none, some, Option-cases,
}
use luajit.Runtime.Strings.{LjString, StringTable, bucket, unlink, is_empty, remove}
use luajit.Runtime.Strings.Buckets.{Member, Buckets, At, home, Somewhere}
use luajit.Runtime.Strings.Resized.{In, Valid, At-Somewhere, Somewhere-At}

-- What is left of a chain.
record Rest (a : ℕ) (chain rest : List LjString) : Type 0 where
  back : (x : LjString) → Member x rest → Member x chain
  others : (x : LjString) → Member x chain → x.addr ≢ a → Member x rest
  shorter : suc (length rest) ≡ length chain

unlink-Rest : (a : ℕ) (chain rest : List LjString) → unlink a chain ≡ some rest → Rest a chain rest
unfolding unlink
unlink-Rest a [] rest e = cc
unlink-Rest a (p ∷ chain) rest e = elim (Bool-cases (p.addr == a)) [
  | inl same ↦
      let whole : some chain ≡ some rest = rw same at e in
      let path : chain ≡ rest = cc in
      subst (Rest a (p ∷ chain)) path (here ((==_iff p.addr a).0 same))
  | inr other ↦ elim (Option-cases (unlink a chain)) [
    | inl missing ↦ let nothing : none ≡ some rest = rw (other, missing) at e in cc
    | inr (below, found) ↦
        let whole : some (p ∷ below) ≡ some rest = rw (other, found) at e in
        let path : p ∷ below ≡ rest = cc in
        subst (Rest a (p ∷ chain)) path (there below (unlink-Rest a chain below found))
  ]
]
  where
    here : p.addr ≡ a → Rest a (p ∷ chain) chain
    here same = record {
      back = λ x m. inr m;
      others = λ x m ne. elim m [
        | inl q ↦ absurd (ne (ap (λ (y : LjString). y.addr) q ∙ same))
        | inr m ↦ m
      ];
      shorter = refl;
    }

    there : (below : List LjString) → Rest a chain below → Rest a (p ∷ chain) (p ∷ below)
    there below r = record {
      back = λ x m. elim m [ inl q ↦ inl q | inr m ↦ inr (r.back x m) ];
      others = λ x m ne. elim m [ inl q ↦ inl q | inr m ↦ inr (r.others x m ne) ];
      shorter = ap suc r.shorter;
    }

unlink_found : (s : LjString) (chain : List LjString) → Member s chain → unlink s.addr chain ≢ none
unfolding unlink
unlink_found s [] m e = m
unlink_found s (p ∷ chain) m e = elim (Bool-cases (p.addr == s.addr)) [
  | inl same ↦ let whole : some chain ≡ none = rw same at e in cc
  | inr other ↦ elim m [
    | inl q ↦
        let same : (p.addr == s.addr) ≡ true =
          (==_iff p.addr s.addr).1 (ap (λ (y : LjString). y.addr) (sym q)) in
        cc
    | inr m ↦ elim (Option-cases (unlink s.addr chain)) [
      | inl missing ↦ unlink_found s chain m missing
      | inr (below, found) ↦ let whole : some (p ∷ below) ≡ none = rw (other, found) at e in cc
    ]
  ]
]

-- Removing s from t gives u.
pub record Removes (s : LjString) (t u : StringTable) : Type 0 where
  pub valid : Valid u
  pub back : (x : LjString) → In x u → In x t
  pub others : (x : LjString) → In x t → x.addr ≢ s.addr → In x u
  pub shorter :
      suc (length (bucket u.hash (home (length t.hash) s)))
      ≡ length (bucket t.hash (home (length t.hash) s))
  pub counted : u.nuse ≡ t.nuse - 1

module _ (t : StringTable) (s : LjString) (rest : List LjString) (h : 0 < length t.hash) where
  abbrev i : ℕ
  i = home (length t.hash) s

  inside : i < length t.hash
  inside = mod-lt s.hash (omega (arith, h))

  At-unlinked :
      Rest s.addr (bucket t.hash i) rest
      → (x : LjString) (j : ℕ) → At x j (set t.hash i rest)
      → At x j t.hash
  At-unlinked r x j a = elim (Bool-cases (i == j)) [
    | inl e ↦
        let path : i ≡ j = (==_iff i j).0 e in
        subst (λ k. At x k t.hash) path
          (r.back x (
            subst (Member x) (get_or-set_self t.hash i rest [] inside)
              (subst (λ k. At x k (set t.hash i rest)) (sym path) a)))
    | inr e ↦
        subst (Member x) (get_or-set_ne t.hash i j rest [] (λ q. differs e ((==_iff i j).1 q))) a
  ]
    where
      differs : {b : Bool} → b ≡ false → b ≡ true → ⊥
      differs e q = cc

  unlinked-At :
      Rest s.addr (bucket t.hash i) rest
      → (x : LjString) (j : ℕ) → At x j t.hash
      → x.addr ≢ s.addr
      → At x j (set t.hash i rest)
  unlinked-At r x j a ne = elim (Bool-cases (i == j)) [
    | inl e ↦
        let path : i ≡ j = (==_iff i j).0 e in
        subst (λ k. At x k (set t.hash i rest)) path
          (subst (Member x) (sym (get_or-set_self t.hash i rest [] inside))
            (r.others x (subst (λ k. At x k t.hash) (sym path) a) ne))
    | inr e ↦
        subst (Member x)
          (sym (get_or-set_ne t.hash i j rest [] (λ q. differs e ((==_iff i j).1 q)))) a
  ]
    where
      differs : {b : Bool} → b ≡ false → b ≡ true → ⊥
      differs e q = cc

  unlinked-Removes :
      Valid t
      → Rest s.addr (bucket t.hash i) rest
      → Removes s t (record { hash = set t.hash i rest; nuse = t.nuse - 1 })
  unlinked-Removes v r = record {
    valid = record {
      hashed = λ x a. v.hashed x (backwards x a);
      placed = λ x j a.
          v.placed x j (At-unlinked r x j a) ∙ ap (λ n. home n x) (sym (length-set t.hash i rest));
      one = λ x y a b e. v.one x y (backwards x a) (backwards y b) e;
    };
    back = backwards;
    others = λ x a ne.
        let (j, b) = Somewhere-At x t.hash a in
        At-Somewhere x j (set t.hash i rest) (unlinked-At r x j b ne);
    shorter =
        ap (λ (c : List LjString). suc (length c)) (get_or-set_self t.hash i rest [] inside)
        ∙ r.shorter;
    counted = refl;
  }
    where
      backwards : (x : LjString) → Somewhere x (set t.hash i rest) → In x t
      backwards x a =
          let (j, b) = Somewhere-At x (set t.hash i rest) a in
          At-Somewhere x j t.hash (At-unlinked r x j b)

-- Removing a string that a valid table holds takes exactly one entry out of its bucket and from the
-- count; the table stays valid, gains nothing, and keeps every string at another address.
pub remove-Removes : (t : StringTable) (s : LjString) → Valid t → In s t → Removes s t (remove t s)
unfolding remove
remove-Removes t s v a = go t.hash refl
  where
    found : Member s (bucket t.hash (home (length t.hash) s))
    found = let (j, b) = Somewhere-At s t.hash a in subst (λ k. At s k t.hash) (v.placed s j b) b

    unlinked :
        0 < length t.hash
        → (o : Option (List LjString)) → unlink s.addr (bucket t.hash (home (length t.hash) s)) ≡ o
        → Removes s t (elim o as (λ _. StringTable) [
          | some rest ↦ record {
            hash = set t.hash (home (length t.hash) s) rest;
            nuse = t.nuse - 1;
          }
          | none ↦ t
        ])
    unlinked h (some rest) e = unlinked-Removes t s rest h v (unlink-Rest s.addr _ rest e)
    unlinked h none e = absurd (unlink_found s _ found e)

    go :
        (bs : Buckets)
        → t.hash ≡ bs
        → Removes s t (
            if is_empty t.hash
            then t
            else elim (unlink s.addr (bucket t.hash (home (length t.hash) s)))
                as (λ _. StringTable) [
                  | some rest ↦ record {
                    hash = set t.hash (home (length t.hash) s) rest;
                    nuse = t.nuse - 1;
                  }
                  | none ↦ t
                ])
    go [] e = absurd (subst (Somewhere s) e a)
    go (chain ∷ chains) e =
        let full : is_empty t.hash ≡ false = ap is_empty e in
        let some_bucket : 0 < length t.hash = subst (λ bs. 0 < length bs) (sym e) (omega arith) in
        rw full (unlinked some_bucket _ refl)
