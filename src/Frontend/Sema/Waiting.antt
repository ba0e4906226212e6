-- ===== src/Frontend/Sema/Waiting.antt =====
-- The gotos that wait in a context of src/frontend/sema.cpp, and what the end of a block does to them.
use luajit.Common.{
  ℕ, ◌≡◌, refl, sym, ap, ◌∙◌, subst, Bool, true, false, ◌||◌, ◌⊎◌, List, [], ◌∷◌, ◌++◌, length,
  Option, some, none, Option-cases, Bool-cases, inl, inr, arith, if◌then◌else◌, same_bytes,
  same_bytes_sound, leb,
}
use luajit.Common.Result.{ok, err}
use luajit.Frontend.Ast.{Name}
use luajit.Frontend.Sema.{
  Labels, Ctx, PendingGoto, find_visible, has_name, all_visible, innermost, around, resize,
  push_goto, bind_gotos, leave_block, check_gotos, jumps_into_scope, no_visible_label,
}
use luajit.Frontend.Sema.Frame.{bind-ok, ok-inj, names_of}

-- A goto to n waits.
abbrev pub waits : Name → List PendingGoto → Bool
waits n [] = false
waits n (g ∷ gs) = if same_bytes g.label n then true else waits n gs

pub waits-append :
    (n : Name) (gs hs : List PendingGoto) → waits n (gs ++ hs) ≡ (waits n gs || waits n hs)
waits-append n [] hs = refl
waits-append n (g ∷ gs) hs = elim (Bool-cases (same_bytes g.label n)) [
  | inl e ↦ rw e
  | inr e ↦ rw e (waits-append n gs hs)
]

-- What waits or is jumped to now waits afterwards, or has its label here.
abbrev pub Carried : Bool → Bool → Bool → Bool → Type 0
Carried before jumped after labelled = (before || jumped) ≡ true → (after || labelled) ≡ true

same_refl : (a : Name) → same_bytes a a ≡ true
same_refl [] = refl
same_refl (x ∷ a) = ground (arith, same_refl a)

same_trans : (a b c : Name) → same_bytes a b ≡ true → same_bytes b c ≡ true → same_bytes a c ≡ true
same_trans a b c p q = subst (λ (x : Name). same_bytes x c ≡ true) (sym (same_bytes_sound a b p)) q

found-has_name :
    (m n : Name) (ls : Labels) (v : List Name)
    → find_visible m ls ≡ some v
    → same_bytes m n ≡ true
    → has_name n (names_of ls) ≡ true
found-has_name m n [] v h e = absurd (differ h)
  where
    differ : none ≡ some v → ⊥
    differ h = cc
found-has_name m n ((l, w) ∷ ls) v h e = elim (Bool-cases (same_bytes l m)) [
  | inl p ↦ rw (same_trans l m n p e)
  | inr p ↦ elim (Bool-cases (same_bytes l n)) [
    | inl q ↦ rw q
    | inr q ↦ rw q (found-has_name m n ls v (rw p at h) e)
  ]
]

if-some :
    (b : Bool) (o : Option (List Name)) (v : List Name)
    → (if b then o else none) ≡ some v
    → o ≡ some v
if-some true o v h = h
if-some false o v h = absurd (differ h)
  where
    differ : none ≡ some v → ⊥
    differ h = cc

pub or-right : (a b : Bool) → b ≡ true → (a || b) ≡ true
or-right true b h = refl
or-right false b h = h

bind_gotos-Carried :
    (n : Name) (labels : Labels) (depth : ℕ) (gs remain : List PendingGoto)
    → bind_gotos labels depth gs ≡ ok remain
    → waits n gs ≡ true
    → (waits n remain || has_name n (names_of labels)) ≡ true
unfolding bind_gotos
bind_gotos-Carried n labels depth [] remain h w = absurd (differ w)
  where
    differ : false ≡ true → ⊥
    differ h = cc
bind_gotos-Carried n labels depth (g ∷ gs) remain h w =
    elim (Option-cases (if leb depth g.scope_depth then find_visible g.label labels else none)) [
      | inl e ↦
          let (r, hr, hd) =
            bind-ok (bind_gotos labels depth gs) (λ remain. ok (g ∷ remain)) remain
              (rw (e, bind_gotos) at h) in
          let kept : (g ∷ r) ≡ remain = ok-inj _ _ _ refl hd in
          subst (λ (x : List PendingGoto). (waits n x || has_name n (names_of labels)) ≡ true) kept
            (elim (Bool-cases (same_bytes g.label n)) [
              | inl p ↦ rw p
              | inr p ↦ rw p (bind_gotos-Carried n labels depth gs r hr (rw p at w))
            ])
      | inr (names, e) ↦ elim (Bool-cases (all_visible names g.visible)) [
        | inr bad ↦ absurd (refused (rw (e, bind_gotos, bad) at h))
        | inl fits ↦ elim (Bool-cases (same_bytes g.label n)) [
          | inl p ↦ or-right (waits n remain) _ (
              found-has_name g.label n labels names (if-some (leb depth g.scope_depth) _ names e) p)
          | inr p ↦
              bind_gotos-Carried n labels depth gs remain (rw (e, bind_gotos, fits) at h)
                (rw p at w)
        ]
      ]
    ]
  where
    refused : err jumps_into_scope ≡ ok remain → ⊥
    refused h = cc

pub or-left : (a b : Bool) → a ≡ true → (a || b) ≡ true
or-left true b h = refl
or-left false b h = absurd (differ h)
  where
    differ : false ≡ true → ⊥
    differ h = cc

pub or-cases : (a b : Bool) → (a || b) ≡ true → (a ≡ true) ⊎ (b ≡ true)
or-cases true b h = inl refl
or-cases false b h = inr h

-- One step after another.
pub chain :
    (b j m l j' a l' : Bool) → Carried b j m l → Carried m j' a l' → Carried b (j || j') a (l || l')
chain b j m l j' a l' f g h = elim (or-cases b (j || j') h) [
  | inl w ↦ first (f (or-left b j w))
  | inr k ↦ elim (or-cases j j' k) [
    | inl w ↦ first (f (or-right b j w))
    | inr w ↦ second (g (or-right m j' w))
  ]
]
  where
    second : (a || l') ≡ true → (a || (l || l')) ≡ true
    second x = elim (or-cases a l' x) [
      | inl w ↦ or-left a _ w
      | inr w ↦ or-right a _ (or-right l l' w)
    ]

    first : (m || l) ≡ true → (a || (l || l')) ≡ true
    first x = elim (or-cases m l x) [
      | inl w ↦ second (g (or-left m j' w))
      | inr w ↦ or-right a _ (or-left l l' w)
    ]

pub some-inj : (a b : Name) → some a ≡ some b → a ≡ b
some-inj a b h = cc

pub some_none : {A : Type 0} {a : Name} → none ≡ some a → A
some_none {a = a} h = absurd (differ h)
  where
    differ : none ≡ some a → ⊥
    differ h = cc

module _ (n : Name) where
  abbrev pub Steps : Ctx → Bool → Ctx → Bool → Type 0
  Steps c jumps c' labels = Carried (waits n c.gotos) jumps (waits n c'.gotos) labels

  pub kept : (c c' : Ctx) → c'.gotos ≡ c.gotos → Steps c false c' false
  kept c c' e h = subst (λ (gs : List PendingGoto). (waits n gs || false) ≡ true) (sym e) h

  left-gotos :
      (before : ℕ) (pop : Bool) (left : Ctx)
      → (if pop then resize before left else left).gotos ≡ left.gotos
  left-gotos before true left = refl
  left-gotos before false left = refl

  pub leave_block-Steps :
      (before : ℕ) (pop : Bool) (last c' : Ctx)
      → leave_block before pop last ≡ ok c'
      → Steps last false c' (has_name n (names_of (innermost last.label_scopes)))
  unfolding leave_block
  leave_block-Steps before pop last c' h w =
      let (remain, bound, done) =
        bind-ok (bind_gotos (innermost last.label_scopes) (length last.label_scopes) last.gotos) _
          c' h in
      let same : c'.gotos ≡ remain =
        sym (ap (λ (x : Ctx). x.gotos) (ok-inj _ _ _ refl done))
        ∙ left-gotos before pop
            (record last { gotos = remain; label_scopes = around last.label_scopes }) in
      let waiting : waits n last.gotos ≡ true = elim (or-cases (waits n last.gotos) false w) [
        | inl x ↦ x
        | inr x ↦ or-left _ _ x
      ] in
      subst
        (λ (gs : List PendingGoto).
          (waits n gs || has_name n (names_of (innermost last.label_scopes))) ≡ true)
        (sym same) (bind_gotos-Carried n _ _ last.gotos remain bound waiting)

  pub waiting : (c : Ctx) → (waits n c.gotos || false) ≡ true → waits n c.gotos ≡ true
  waiting c h = elim (or-cases (waits n c.gotos) false h) [ inl x ↦ x | inr x ↦ or-left _ _ x ]

  pub goto_steps : (m : Name) (c : Ctx) → Steps c (same_bytes m n) (push_goto m c) false
  goto_steps m c h = or-left _ false (
      waits-append n c.gotos _ ∙ elim (or-cases (waits n c.gotos) (same_bytes m n) h) [
        | inl w ↦ or-left _ _ w
        | inr w ↦ or-right (waits n c.gotos) _ (rw w)
      ])

  pub widen : (a b l : Bool) → (a || b) ≡ true → (a || (l || b)) ≡ true
  widen a b l h = elim (or-cases a b h) [
    | inl x ↦ or-left a _ x
    | inr x ↦ or-right a _ (or-right l b x)
  ]

  pub names_under :
      (ls ms : List Labels) (b : Bool)
      → ls ≡ ms
      → (has_name n (names_of (innermost ls)) || b) ≡ true
      → (has_name n (names_of (innermost ms)) || b) ≡ true
  names_under ls ms b e h =
      subst (λ (x : List Labels). (has_name n (names_of (innermost x)) || b) ≡ true) e h

pub no_gotos : (n : Name) (gs : List PendingGoto) → check_gotos gs [] ≡ ok tt → waits n gs ≡ false
unfolding check_gotos
no_gotos n [] h = refl
no_gotos n (g ∷ gs) h = absurd (refused h)
  where
    refused : err no_visible_label ≡ ok tt → ⊥
    refused h = cc
