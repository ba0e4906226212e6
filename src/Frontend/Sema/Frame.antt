-- ===== src/Frontend/Sema/Frame.antt =====
-- What each step of semantic analysis keeps of the context.
use luajit.Common.{
  ℕ, zero, suc, ◌-◌, ◌≡◌, refl, sym, ap, ◌∙◌, subst, Bool, true, false, List, [], ◌∷◌, ◌++◌, length,
  take, none, if◌then◌else◌, arith,
}
use mathlib.Core.List.{append_assoc, append-nil}
use luajit.Common.Result.{Result, ok, err, ◌>>=◌}
use luajit.Frontend.Ast.{Name}
use luajit.Frontend.Sema.{
  Labels, Ctx, find_visible, has_name, innermost, around, declare, resize, enter_loop, leave_loop,
  bind_gotos, leave_block,
}

-- A step keeps the depth of loops and the labels, and only adds locals.
pub record Framed (c c' : Ctx) : Type 0 where
  pub depth : c'.loop_depth ≡ c.loop_depth
  pub scopes : c'.label_scopes ≡ c.label_scopes
  pub declared : List Name
  pub locals : c'.locals ≡ c.locals ++ declared

-- A step inside a block may add labels to the innermost scope.
pub record Grown (outer : List Labels) (c c' : Ctx) : Type 0 where
  pub depth : c'.loop_depth ≡ c.loop_depth
  pub cur : Labels
  pub scopes : c'.label_scopes ≡ cur ∷ outer
  pub declared : List Name
  pub locals : c'.locals ≡ c.locals ++ declared

abbrev pub in_loop : ℕ → Bool
in_loop zero = false
in_loop (suc n) = true

abbrev pub names_of : Labels → List Name
names_of [] = []
names_of ((n, visible) ∷ ls) = n ∷ names_of ls

pub ok-inj : {E A : Type 0} (a b : A) → (r : Result E A) → r ≡ ok a → r ≡ ok b → a ≡ b
ok-inj a b r d e = cc

pub bind-ok :
    {E A B : Type 0} (r : Result E A) (f : A → Result E B) (b : B)
    → (r >>= f) ≡ ok b
    → (a : A) × (r ≡ ok a) × (f a ≡ ok b)
bind-ok (ok a) f b h = (a, refl, h)
bind-ok (err e) f b h = absurd (err-ok h)
  where
    err-ok : err e ≡ ok b → ⊥
    err-ok h = cc

pub take-append : {A : Type 0} (xs ys : List A) → take (length xs) (xs ++ ys) ≡ xs
take-append [] ys = refl
take-append {A = A} (x ∷ xs) ys = ap (λ (l : List A). x ∷ l) (take-append xs ys)

pub find_visible-none :
    (n : Name) (ls : Labels) → find_visible n ls ≡ none → has_name n (names_of ls) ≡ false
find_visible-none n [] h = refl
find_visible-none n ((m, v) ∷ ls) h = ground (arith, h, find_visible-none n ls)

pub has_name-find_visible :
    (n : Name) (ls : Labels) → has_name n (names_of ls) ≡ false → find_visible n ls ≡ none
has_name-find_visible n [] h = refl
has_name-find_visible n ((m, v) ∷ ls) h = ground (arith, h, has_name-find_visible n ls)

pub Framed-refl : (c : Ctx) → Framed c c
Framed-refl c = record {
  depth = refl;
  scopes = refl;
  declared = [];
  locals = sym (append-nil c.locals);
}

pub Framed-trans : (a b c : Ctx) → Framed a b → Framed b c → Framed a c
Framed-trans a b c f g = record {
  depth = g.depth ∙ f.depth;
  scopes = g.scopes ∙ f.scopes;
  declared = f.declared ++ g.declared;
  locals =
      g.locals
      ∙ ap (λ (l : List Name). l ++ g.declared) f.locals
      ∙ append_assoc a.locals f.declared g.declared;
}

pub declare-Framed : (names : List Name) (c : Ctx) → Framed c (declare names c)
declare-Framed names c = record { depth = refl; scopes = refl; declared = names; locals = refl }

-- A loop's body, and the locals dropped at its end.
pub loop-Framed :
    (names : List Name) (c inner : Ctx)
    → Framed (declare names (enter_loop c)) inner
    → Framed c (leave_loop (resize (length c.locals) inner))
loop-Framed names c inner f = record {
  depth = ap (λ (n : ℕ). n - 1) f.depth ∙ omega arith;
  scopes = f.scopes;
  declared = [];
  locals =
      ap (take (length c.locals)) (f.locals ∙ append_assoc c.locals names f.declared)
      ∙ take-append c.locals (names ++ f.declared)
      ∙ sym (append-nil c.locals);
}

pub while-Framed : (c inner : Ctx) → Framed (enter_loop c) inner → Framed c (leave_loop inner)
while-Framed c inner f = record {
  depth = ap (λ (n : ℕ). n - 1) f.depth ∙ omega arith;
  scopes = f.scopes;
  declared = f.declared;
  locals = f.locals;
}

pub repeat-Framed :
    (c inner : Ctx)
    → Framed (enter_loop c) inner
    → Framed c (leave_loop (resize (length c.locals) inner))
repeat-Framed c inner f = loop-Framed [] c inner (record {
  depth = f.depth;
  scopes = f.scopes;
  declared = f.declared;
  locals = f.locals ∙ ap (λ (l : List Name). l ++ f.declared) (sym (append-nil c.locals));
})

-- The end of a block takes its labels away, and its locals where it pops them.
pub leave_block-Framed :
    (pop : Bool) (c last c' : Ctx)
    → Grown c.label_scopes c last
    → leave_block (length c.locals) pop last ≡ ok c'
    → Framed c c' × (pop ≡ true → c'.locals ≡ c.locals)
unfolding leave_block
leave_block-Framed pop c last c' g h =
    let (remain, bound, done) =
      bind-ok (bind_gotos (innermost last.label_scopes) (length last.label_scopes) last.gotos) _ c'
        h in
    let left : Ctx = record last { gotos = remain; label_scopes = around last.label_scopes } in
    let framed : Framed c left = record {
      depth = g.depth;
      scopes = ap around g.scopes;
      declared = g.declared;
      locals = g.locals;
    } in
    let back : take (length c.locals) last.locals ≡ c.locals =
      ap (take (length c.locals)) g.locals ∙ take-append c.locals g.declared in
    subst (λ (x : Ctx). Framed c x × (pop ≡ true → x.locals ≡ c.locals)) (ok-inj _ _ _ refl done)
      (popped pop left framed back)
  where
    popped :
        (pop : Bool) (left : Ctx)
        → Framed c left
        → take (length c.locals) left.locals ≡ c.locals
        → Framed c (if pop then resize (length c.locals) left else left)
          × (pop ≡ true → (if pop then resize (length c.locals) left else left).locals ≡ c.locals)
    popped true left f e = (
      record {
        depth = f.depth;
        scopes = f.scopes;
        declared = [];
        locals = e ∙ sym (append-nil c.locals);
      },
      λ _. e,
    )
    popped false left f e = (f, λ x. absurd (no x))
      where
        no : false ≡ true → ⊥
        no x = cc
