-- ===== src/Runtime/Strings/Resized.antt =====
-- Valid tables of strings, and what a resize keeps.
use Prim.Native.Nat.{max}
use luajit.Common.{
  ℕ, zero, suc, ◌*◌, ◌≤◌, ◌<◌, ◌≡◌, refl, sym, ap, subst, ◌∙◌, arith, inl, inr, Bool, true, false,
  [], ◌∷◌, length, replicate, get_or-replicate, length-replicate, leb, if◌then◌else◌,
}
use luajit.Runtime.Table.{double_until}
use luajit.Runtime.Table.Rehash.{double_until-le}
use luajit.Runtime.Strings.{
  LjString, StringTable, hash_bytes, relink_all, resize, is_empty, ready, roomy,
}
use luajit.Runtime.Strings.Buckets.{
  Member, Buckets, At, home, Somewhere, length-relink_all, At-relink_all, relink_all-At,
}

abbrev pub In : LjString → StringTable → Type 0
In x t = Somewhere x t.hash

-- Each string is in the bucket of the hash of its bytes, and no two objects have the same bytes.
pub record Valid (t : StringTable) : Type 0 where
  pub hashed : (x : LjString) → In x t → x.hash ≡ hash_bytes x.text
  pub placed : (x : LjString) (j : ℕ) → At x j t.hash → j ≡ home (length t.hash) x
  pub one : (x y : LjString) → In x t → In y t → x.text ≡ y.text → x ≡ y

pub At-Somewhere : (x : LjString) (j : ℕ) (bs : Buckets) → At x j bs → Somewhere x bs
At-Somewhere x j [] a = absurd a
At-Somewhere x zero (chain ∷ chains) a = inl a
At-Somewhere x (suc j) (chain ∷ chains) a = inr (At-Somewhere x j chains a)

pub Somewhere-At : (x : LjString) (bs : Buckets) → Somewhere x bs → (j : ℕ) × At x j bs
Somewhere-At x [] a = absurd a
Somewhere-At x (chain ∷ chains) (inl a) = (0, a)
Somewhere-At x (chain ∷ chains) (inr a) = let (j, b) = Somewhere-At x chains a in (suc j, b)

-- The same strings, in a table that is as valid.
pub record Kept (t u : StringTable) : Type 0 where
  pub valid : Valid t → Valid u
  pub forth : (x : LjString) → In x t → In x u
  pub back : (x : LjString) → In x u → In x t

Kept-self : (t : StringTable) → Kept t t
Kept-self t = record { valid = λ v. v; forth = λ x a. a; back = λ x a. a }

if-Kept : (b : Bool) (t u v : StringTable) → Kept t u → Kept t v → Kept t (if b then u else v)
if-Kept true t u v h g = h
if-Kept false t u v h g = g

module _ (t : StringTable) (new_size : ℕ) where
  abbrev goal : ℕ
  goal = max new_size 32

  abbrev size : ℕ
  size = double_until goal goal 1

  abbrev empty_buckets : Buckets
  empty_buckets = replicate size []

  size_pos : 0 < size
  size_pos =
      let reached : goal ≤ size = double_until-le goal goal 1 (omega arith) (omega arith) in
      omega (arith, reached)

  empty_pos : 0 < length empty_buckets
  empty_pos = subst (λ n. 0 < n) (sym (length-replicate size [])) size_pos

  resize_pos : 0 < length (resize t new_size).hash
  unfolding resize
  resize_pos = subst (λ n. 0 < n) (sym (length-relink_all empty_buckets t.hash)) empty_pos

  At-resize :
      (x : LjString) (j : ℕ)
      → At x j (resize t new_size).hash
      → Somewhere x t.hash × (j ≡ home (length (resize t new_size).hash) x)
  unfolding resize
  At-resize x j a = elim (At-relink_all x j empty_buckets t.hash empty_pos a) [
    | inl b ↦ absurd (subst (Member x) (get_or-replicate size j []) b)
    | inr b ↦ (b.0, b.1 ∙ ap (λ n. home n x) (sym (length-relink_all empty_buckets t.hash)))
  ]

  resize_forth : (x : LjString) → In x t → In x (resize t new_size)
  unfolding resize
  resize_forth x a =
      At-Somewhere x (home (length empty_buckets) x) (relink_all empty_buckets t.hash) (
        relink_all-At x (home (length empty_buckets) x) empty_buckets t.hash empty_pos
          (inr (a, refl)))

  resize_back : (x : LjString) → In x (resize t new_size) → In x t
  resize_back x a = let (j, b) = Somewhere-At x (resize t new_size).hash a in (At-resize x j b).0

  resize-Kept : Kept t (resize t new_size)
  resize-Kept = record {
    valid = λ v. record {
      hashed = λ x a. v.hashed x (resize_back x a);
      placed = λ x j a. (At-resize x j a).1;
      one = λ x y a b e. v.one x y (resize_back x a) (resize_back y b) e;
    };
    forth = resize_forth;
    back = resize_back;
  }

pub ready-Kept : (t : StringTable) → Kept t (ready t)
ready-Kept t = if-Kept (is_empty t.hash) t (resize t 128) t (resize-Kept t 128) (Kept-self t)

pub ready_pos : (t : StringTable) → 0 < length (ready t).hash
ready_pos t = go t.hash
  where
    go :
        (bs : Buckets)
        → 0 < length (if is_empty bs then resize t 128 else record t { hash = bs }).hash
    go [] = resize_pos t 128
    go (chain ∷ chains) = omega arith

pub roomy-Kept : (t : StringTable) → Kept t (roomy t)
roomy-Kept t =
    if-Kept (leb (length t.hash) t.nuse) t (resize t (length t.hash * 2)) t
      (resize-Kept t (length t.hash * 2)) (Kept-self t)

pub roomy_pos : (t : StringTable) → 0 < length t.hash → 0 < length (roomy t).hash
roomy_pos t h = go (leb (length t.hash) t.nuse)
  where
    go : (b : Bool) → 0 < length (if b then resize t (length t.hash * 2) else t).hash
    go true = resize_pos t (length t.hash * 2)
    go false = h
