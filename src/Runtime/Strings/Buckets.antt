-- ===== src/Runtime/Strings/Buckets.antt =====
-- What strings the buckets hold after they were linked anew.
use native.Mathlib.Nat.{mod-lt}
use luajit.Common.{
  ℕ, ◌%◌, ◌<◌, ◌≡◌, ◌≢◌, refl, sym, ap, subst, ◌∙◌, arith, ◌⊎◌, inl, inr, true, false, Bool-cases,
  List, [], ◌∷◌, length, get_or, set, get_or-set_self, get_or-set_ne, length-set, ◌==◌, ==_iff,
}
use luajit.Runtime.Strings.{LjString, bucket, push, relink, relink_all}

abbrev pub Member : LjString → List LjString → Type 0
Member x [] = ⊥
Member x (y ∷ ys) = (x ≡ y) ⊎ Member x ys

abbrev pub Buckets : Type 0
Buckets = List (List LjString)

-- x is in the bucket j.
abbrev pub At : LjString → ℕ → Buckets → Type 0
At x j bs = Member x (bucket bs j)

pub length-push : (bs : Buckets) (s : LjString) → length (push bs s) ≡ length bs
unfolding push
length-push bs s = length-set bs (s.hash % length bs) (s ∷ bucket bs (s.hash % length bs))

module _ (x s : LjString) (bs : Buckets) (i j : ℕ) (h : i < length bs) where
  differs : (i == j) ≡ false → i ≢ j
  differs e q = absurd (false_true (sym e ∙ (==_iff i j).1 q))
    where
      false_true : false ≡ true → ⊥
      false_true h = cc

  -- Behind a push a bucket holds what it held, and the new string if it is the one that was pushed to.
  At-set : At x j (set bs i (s ∷ bucket bs i)) → At x j bs ⊎ ((x ≡ s) × (j ≡ i))
  At-set a = elim (Bool-cases (i == j)) [
    | inl e ↦ same ((==_iff i j).0 e)
    | inr e ↦ inl (subst (Member x) (get_or-set_ne bs i j _ [] (differs e)) a)
  ]
    where
      same : i ≡ j → At x j bs ⊎ ((x ≡ s) × (j ≡ i))
      same e =
          elim (subst (Member x)
            (ap (λ k. get_or (set bs i (s ∷ bucket bs i)) k []) (sym e)
              ∙ get_or-set_self bs i (s ∷ bucket bs i) [] h)
            a) [ inl q ↦ inr (q, sym e) | inr m ↦ inl (subst (λ k. At x k bs) e m) ]

  set-At : At x j bs ⊎ ((x ≡ s) × (j ≡ i)) → At x j (set bs i (s ∷ bucket bs i))
  set-At a = elim (Bool-cases (i == j)) [
    | inl e ↦ same ((==_iff i j).0 e) a
    | inr e ↦ subst (Member x) (sym (get_or-set_ne bs i j _ [] (differs e))) (only (differs e) a)
  ]
    where
      only : i ≢ j → At x j bs ⊎ ((x ≡ s) × (j ≡ i)) → At x j bs
      only ne (inl m) = m
      only ne (inr (q, e)) = absurd (ne (sym e))

      same : i ≡ j → At x j bs ⊎ ((x ≡ s) × (j ≡ i)) → At x j (set bs i (s ∷ bucket bs i))
      same e a =
          subst (Member x)
            (sym (
              ap (λ k. get_or (set bs i (s ∷ bucket bs i)) k []) (sym e)
              ∙ get_or-set_self bs i (s ∷ bucket bs i) [] h))
            (elim a as (λ _. Member x (s ∷ bucket bs i)) [
              | inl m ↦ inr (subst (λ k. At x k bs) (sym e) m)
              | inr r ↦ inl r.0
            ])

-- A string's bucket among n.
abbrev pub home : ℕ → LjString → ℕ
home n s = s.hash % n

module _ (x : LjString) (j : ℕ) where
  pub At-push :
      (bs : Buckets) (s : LjString)
      → 0 < length bs
      → At x j (push bs s)
      → At x j bs ⊎ ((x ≡ s) × (j ≡ home (length bs) s))
  unfolding push
  At-push bs s h a = At-set x s bs (home (length bs) s) j (mod-lt s.hash (omega (arith, h))) a

  pub push-At :
      (bs : Buckets) (s : LjString)
      → 0 < length bs
      → At x j bs ⊎ ((x ≡ s) × (j ≡ home (length bs) s))
      → At x j (push bs s)
  unfolding push
  push-At bs s h a = set-At x s bs (home (length bs) s) j (mod-lt s.hash (omega (arith, h))) a

pub length-relink : (bs : Buckets) (chain : List LjString) → length (relink bs chain) ≡ length bs
unfolding relink
length-relink bs [] = refl
length-relink bs (s ∷ chain) = length-relink (push bs s) chain ∙ length-push bs s

module _ (x : LjString) (j : ℕ) where
  At-relink :
      (bs : Buckets) (chain : List LjString)
      → 0 < length bs
      → At x j (relink bs chain)
      → At x j bs ⊎ (Member x chain × (j ≡ home (length bs) x))
  unfolding relink
  At-relink bs [] h a = inl a
  At-relink bs (s ∷ chain) h a =
      elim (At-relink (push bs s) chain (subst (λ n. 0 < n) (sym (length-push bs s)) h) a) [
        | inl b ↦ elim (At-push x j bs s h b) [
          | inl c ↦ inl c
          | inr c ↦ inr (inl c.0, c.1 ∙ ap (home (length bs)) (sym c.0))
        ]
        | inr b ↦ inr (inr b.0, b.1 ∙ ap (λ n. home n x) (length-push bs s))
      ]

  relink-At :
      (bs : Buckets) (chain : List LjString)
      → 0 < length bs
      → At x j bs ⊎ (Member x chain × (j ≡ home (length bs) x))
      → At x j (relink bs chain)
  unfolding relink
  relink-At bs [] h (inl a) = a
  relink-At bs [] h (inr (m, e)) = absurd m
  relink-At bs (s ∷ chain) h a =
      relink-At (push bs s) chain (subst (λ n. 0 < n) (sym (length-push bs s)) h) (sorted a)
    where
      sorted :
          At x j bs ⊎ (Member x (s ∷ chain) × (j ≡ home (length bs) x))
          → At x j (push bs s) ⊎ (Member x chain × (j ≡ home (length (push bs s)) x))
      sorted (inl a) = inl (push-At x j bs s h (inl a))
      sorted (inr (inl q, e)) = inl (push-At x j bs s h (inr (q, e ∙ ap (home (length bs)) q)))
      sorted (inr (inr m, e)) = inr (m, e ∙ ap (λ n. home n x) (sym (length-push bs s)))

-- x is in one of the chains.
abbrev pub Somewhere : LjString → Buckets → Type 0
Somewhere x [] = ⊥
Somewhere x (chain ∷ chains) = Member x chain ⊎ Somewhere x chains

pub length-relink_all : (bs chains : Buckets) → length (relink_all bs chains) ≡ length bs
unfolding relink_all
length-relink_all bs [] = refl
length-relink_all bs (chain ∷ chains) =
    length-relink_all (relink bs chain) chains ∙ length-relink bs chain

module _ (x : LjString) (j : ℕ) where
  -- Linked anew, the strings of the old buckets are in the buckets of their hashes, and no others.
  pub At-relink_all :
      (bs chains : Buckets)
      → 0 < length bs
      → At x j (relink_all bs chains)
      → At x j bs ⊎ (Somewhere x chains × (j ≡ home (length bs) x))
  unfolding relink_all
  At-relink_all bs [] h a = inl a
  At-relink_all bs (chain ∷ chains) h a =
      elim (At-relink_all (relink bs chain) chains
        (subst (λ n. 0 < n) (sym (length-relink bs chain)) h) a) [
          | inl b ↦ elim (At-relink x j bs chain h b) [ inl c ↦ inl c | inr c ↦ inr (inl c.0, c.1) ]
          | inr b ↦ inr (inr b.0, b.1 ∙ ap (λ n. home n x) (length-relink bs chain))
        ]

  pub relink_all-At :
      (bs chains : Buckets)
      → 0 < length bs
      → At x j bs ⊎ (Somewhere x chains × (j ≡ home (length bs) x))
      → At x j (relink_all bs chains)
  unfolding relink_all
  relink_all-At bs [] h (inl a) = a
  relink_all-At bs [] h (inr (m, e)) = absurd m
  relink_all-At bs (chain ∷ chains) h a =
      relink_all-At (relink bs chain) chains (subst (λ n. 0 < n) (sym (length-relink bs chain)) h)
        (sorted a)
    where
      sorted :
          At x j bs ⊎ (Somewhere x (chain ∷ chains) × (j ≡ home (length bs) x))
          → At x j (relink bs chain)
            ⊎ (Somewhere x chains × (j ≡ home (length (relink bs chain)) x))
      sorted (inl a) = inl (relink-At x j bs chain h (inl a))
      sorted (inr (inl m, e)) = inl (relink-At x j bs chain h (inr (m, e)))
      sorted (inr (inr m, e)) = inr (m, e ∙ ap (λ n. home n x) (sym (length-relink bs chain)))
