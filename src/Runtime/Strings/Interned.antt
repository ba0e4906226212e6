-- ===== src/Runtime/Strings/Interned.antt =====
-- Interning: a table holds one object for each text, and the object of a text never changes.
use luajit.Common.{
  ℕ, ◌%◌, ◌<◌, ◌≡◌, ◌≢◌, refl, sym, ap, subst, ◌∙◌, ◌⊎◌, ◌↔◌, inl, inr, Bool, true, false,
  Bool-cases, ◌&&◌, List, [], ◌∷◌, length, same_bytes, same_bytes_sound, ◌==◌, ==_iff, Option, none,
  some,
}
use luajit.Runtime.Strings.{
  LjString, StringTable, hash_bytes, bucket, push, is_string, search, ready, roomy, link, intern,
}
use luajit.Runtime.Strings.Buckets.{Member, At, home, length-push, At-push, push-At}
use luajit.Runtime.Strings.Resized.{
  In, Valid, At-Somewhere, Somewhere-At, ready-Kept, ready_pos, roomy-Kept, roomy_pos,
}

same_bytes_self : (s : List ℕ) → same_bytes s s ≡ true
same_bytes_self [] = refl
same_bytes_self (c ∷ s) = rw ((==_iff c c).1 refl, same_bytes_self s) refl

is_string_text : (h : ℕ) (s : List ℕ) (p : LjString) → is_string h s p ≡ true → p.text ≡ s
is_string_text h s p e = same_bytes_sound p.text s (second (p.hash == h) (same_bytes p.text s) e)
  where
    second : (a b : Bool) → (a && b) ≡ true → b ≡ true
    second true b e = e
    second false b e = cc

is_string_self :
    (h : ℕ) (s : List ℕ) (p : LjString) → p.hash ≡ h → p.text ≡ s → is_string h s p ≡ true
is_string_self h s p e q =
    let hashes : (p.hash == h) ≡ true = (==_iff p.hash h).1 e in
    let texts : same_bytes p.text s ≡ true =
      subst (λ u. same_bytes p.text u ≡ true) q (same_bytes_self p.text) in
    rw (hashes, texts) refl

search-some :
    (h : ℕ) (s : List ℕ) (chain : List LjString) (p : LjString)
    → search h s chain ≡ some p
    → Member p chain × (p.text ≡ s)
unfolding search
search-some h s [] p e = cc
search-some h s (q ∷ chain) p e = elim (Bool-cases (is_string h s q)) [
  | inl same ↦
      let found : some q ≡ some p = rw same at e in
      let path : p ≡ q = cc in
      (inl path, ap (λ (x : LjString). x.text) path ∙ is_string_text h s q same)
  | inr other ↦
      let deeper : search h s chain ≡ some p = rw other at e in
      let (m, t) = search-some h s chain p deeper in (inr m, t)
]

search-none :
    (h : ℕ) (s : List ℕ) (chain : List LjString) (p : LjString)
    → search h s chain ≡ none
    → Member p chain
    → p.hash ≡ h
    → p.text ≢ s
unfolding search
search-none h s [] p e m hash text = m
search-none h s (q ∷ chain) p e m hash text = elim (Bool-cases (is_string h s q)) [
  | inl same ↦ let found : some q ≡ none = rw same at e in cc
  | inr other ↦
      let deeper : search h s chain ≡ none = rw other at e in
      elim m [
        | inl path ↦
            let same : is_string h s q ≡ true =
              subst (λ x. is_string h s x ≡ true) path (is_string_self h s p hash text) in
            cc
        | inr m ↦ search-none h s chain p deeper m hash text
      ]
]

-- What interning s gives: its object p in a table that holds what t held, and p.
pub record Interns (s : List ℕ) (t : StringTable) (p : LjString) (u : StringTable) : Type 0 where
  pub text : p.text ≡ s
  pub inside : In p u
  pub valid : Valid u
  pub kept : (x : LjString) → In x t → In x u
  pub only : (x : LjString) → In x u → In x t ⊎ (x ≡ p)

module _ (t : StringTable) (made : LjString) (h : 0 < length t.hash) where
  In-link : (x : LjString) → In x (link t made) → In x t ⊎ (x ≡ made)
  In-link x a =
      let (j, b) = Somewhere-At x (push t.hash made) a in
      elim (At-push x j t.hash made h b) [
        | inl c ↦ inl (At-Somewhere x j t.hash c)
        | inr c ↦ inr c.0
      ]

  link_kept : (x : LjString) → In x t → In x (link t made)
  link_kept x a =
      let (j, b) = Somewhere-At x t.hash a in
      At-Somewhere x j (push t.hash made) (push-At x j t.hash made h (inl b))

  link_inside : In made (link t made)
  link_inside =
      At-Somewhere made (home (length t.hash) made) (push t.hash made)
        (push-At made (home (length t.hash) made) t.hash made h (inr (refl, refl)))

  link-Valid :
      Valid t
      → made.hash ≡ hash_bytes made.text
      → ((x : LjString) → In x t → x.text ≢ made.text)
      → Valid (link t made)
  link-Valid v hash new = record {
    hashed = λ x a. elim (In-link x a) [
      | inl b ↦ v.hashed x b
      | inr e ↦ subst (λ (y : LjString). y.hash ≡ hash_bytes y.text) (sym e) hash
    ];
    placed = λ x j a. elim (At-push x j t.hash made h a) [
      | inl b ↦ v.placed x j b ∙ ap (λ n. home n x) (sym (length-push t.hash made))
      | inr b ↦
          b.1
          ∙ (ap (home (length t.hash)) (sym b.0)
              ∙ ap (λ n. home n x) (sym (length-push t.hash made)))
    ];
    one = λ x y a b e. pair x y (In-link x a) (In-link y b) e;
  }
    where
      pair : (x y : LjString) → In x t ⊎ (x ≡ made) → In y t ⊎ (y ≡ made) → x.text ≡ y.text → x ≡ y
      pair x y (inl a) (inl b) e = v.one x y a b e
      pair x y (inl a) (inr q) e = absurd (new x a (e ∙ ap (λ (z : LjString). z.text) q))
      pair x y (inr q) (inl b) e = absurd (new y b (sym e ∙ ap (λ (z : LjString). z.text) q))
      pair x y (inr q) (inr r) e = q ∙ sym r

-- Interning a text in a valid table gives its object: one that was there, or a new one, in a table that is
-- valid again and holds the strings it held, and beside them at most the new object.
pub intern-Interns :
    (fresh : ℕ) (t : StringTable) (s : List ℕ)
    → Valid t
    → Interns s t (intern fresh t s).0 (intern fresh t s).1
unfolding intern
intern-Interns fresh t s v = go (search h s chain) refl
  where
    h : ℕ
    h = hash_bytes s

    chain : List LjString
    chain = bucket (ready t).hash (h % length (ready t).hash)

    made : LjString
    made = record { addr = fresh; hash = h; text = s }

    valid : Valid (ready t)
    valid = (ready-Kept t).valid v

    new : search h s chain ≡ none → (x : LjString) → In x (roomy (ready t)) → x.text ≢ s
    new e x a text =
        let b = (roomy-Kept (ready t)).back x a in
        let (j, c) = Somewhere-At x (ready t).hash b in
        let hash : x.hash ≡ h = valid.hashed x b ∙ ap hash_bytes text in
        let place : j ≡ h % length (ready t).hash =
          valid.placed x j c ∙ ap (λ k. k % length (ready t).hash) hash in
        search-none h s chain x e (subst (λ k. At x k (ready t).hash) place c) hash text

    go :
        (o : Option LjString)
        → search h s chain ≡ o
        → Interns s t
            (elim o as (λ _. LjString × StringTable) [
              | some p ↦ (p, ready t)
              | none ↦ (made, link (roomy (ready t)) made)
            ]).0
            (elim o as (λ _. LjString × StringTable) [
              | some p ↦ (p, ready t)
              | none ↦ (made, link (roomy (ready t)) made)
            ]).1
    go (some p) e =
        let (m, text) = search-some h s chain p e in
        record {
          text = text;
          inside = At-Somewhere p (h % length (ready t).hash) (ready t).hash m;
          valid = valid;
          kept = (ready-Kept t).forth;
          only = λ x a. inl ((ready-Kept t).back x a);
        }
    go none e =
        let wide = roomy_pos (ready t) (ready_pos t) in
        record {
          text = refl;
          inside = link_inside (roomy (ready t)) made wide;
          valid =
              link-Valid (roomy (ready t)) made wide ((roomy-Kept (ready t)).valid valid) refl
                (new e);
          kept = λ x a.
              link_kept (roomy (ready t)) made wide x
                ((roomy-Kept (ready t)).forth x ((ready-Kept t).forth x a));
          only = λ x a. elim (In-link (roomy (ready t)) made wide x a) [
            | inl b ↦ inl ((ready-Kept t).back x ((roomy-Kept (ready t)).back x b))
            | inr q ↦ inr q
          ];
        }

-- Two texts that are interned one after the other get the same object exactly if they are the same bytes.
pub intern_same :
    (a b : ℕ) (t : StringTable) (s r : List ℕ)
    → Valid t
    → ((intern a t s).0 ≡ (intern b (intern a t s).1 r).0) ↔ (s ≡ r)
intern_same a b t s r v =
    let first = intern-Interns a t s v in
    let second = intern-Interns b (intern a t s).1 r first.valid in
    (
      λ e. sym first.text ∙ (ap (λ (x : LjString). x.text) e ∙ second.text),
      λ e.
          second.valid.one _ _ (second.kept _ first.inside) second.inside
            (first.text ∙ (e ∙ sym second.text)),
    )
