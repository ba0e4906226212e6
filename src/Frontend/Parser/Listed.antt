-- ===== src/Frontend/Parser/Listed.antt =====
-- What the parser's steps do on a list of tokens.
use luajit.Common.{
  ℕ, suc, ◌-◌, ◌<◌, ◌≡◌, refl, ap, ◌∙◌, arith, Bool, true, false, not, ◌&&◌, Bool-cases, inl, inr,
  List, [], ◌∷◌, ◌++◌, ltb, none, some,
}
use luajit.Common.Result.{ok}
use luajit.Frontend.Lexer.Token.{Token, TokenKind}
use luajit.Frontend.Ast.{BinOp}
use luajit.Frontend.Parser.State.{
  is_kind, Parser, Parsing, max_c_calls, pure, continue, ◌>>=◌, peek, next, check, check_any,
  accept, if_token, enterlevel, leavelevel, level, if_nested, first_match,
}
use luajit.Frontend.Parser.Grammar.{listed, Input, first, free}

pub and_parts : (a b : Bool) → (a && b) ≡ true → (a ≡ true) × (b ≡ true)
and_parts true b h = (refl, h)
and_parts false b h = absurd (differ h)
  where
    differ : false ≡ true → ⊥
    differ h = cc

pub not_true : (a : Bool) → not a ≡ true → a ≡ false
not_true true h = cc
not_true false h = refl

abbrev pub kinds : List (TokenKind × BinOp) → List TokenKind
kinds [] = []
kinds ((k, op) ∷ ops) = k ∷ kinds ops

-- The kind is none of those.
abbrev pub NoneOf : TokenKind → List TokenKind → Type 0
NoneOf k [] = Unit
NoneOf k (j ∷ js) = (is_kind k j ≡ false) × NoneOf k js

pub free-NoneOf : (k : TokenKind) (js : List TokenKind) → free k js ≡ true → NoneOf k js
free-NoneOf k [] h = tt
free-NoneOf k (j ∷ js) h =
    let (other, behind) = and_parts (not (is_kind k j)) (free k js) h in
    (not_true (is_kind k j) other, free-NoneOf k js behind)

pub free_parts :
    (k : TokenKind) (js ks : List TokenKind)
    → free k (js ++ ks) ≡ true
    → (free k js ≡ true) × (free k ks ≡ true)
free_parts k [] ks h = (refl, h)
free_parts k (j ∷ js) ks h =
    let (here, there) = and_parts (not (is_kind k j)) (free k (js ++ ks)) h in
    let (before, behind) = free_parts k js ks there in
    (both (not (is_kind k j)) (free k js) here before, behind)
  where
    both : (a b : Bool) → a ≡ true → b ≡ true → (a && b) ≡ true
    both true b h g = g
    both false b h g = h

module _ {F : Type 0} where
  -- The parser in front of those tokens.
  abbrev pub on : Parser F (Input F) → Input F → Parser F (Input F)
  on p ts = record p { lex = ts; ungot = none }

  abbrev pub deeper : Parser F (Input F) → Parser F (Input F)
  deeper p = record p { c_calls = suc p.c_calls }

  module _ {A : Type 0} where
    pub if_token_here :
        (k : TokenKind) (f : Token F → Parsing F (Input F) A) (other : Parsing F (Input F) A)
        (p : Parser F (Input F)) (t : Token F) (ts : Input F)
        → is_kind t.kind k ≡ true
        → if_token k f other (on p (t ∷ ts)) ≡ f t (on p ts)
    unfolding if_token accept check peek next
    if_token_here k f other p t ts h = rw h refl

    pub if_token_there :
        (k : TokenKind) (f : Token F → Parsing F (Input F) A) (other : Parsing F (Input F) A)
        (p : Parser F (Input F)) (ts : Input F)
        → is_kind (first ts).kind k ≡ false
        → if_token k f other (on p ts) ≡ other (on p ts)
    unfolding if_token accept check peek next
    if_token_there k f other p ts h = rw h refl

    pub level_ok :
        (m : Parsing F (Input F) A) (a : A) (p : Parser F (Input F)) (ts us : Input F)
        → p.c_calls < 200
        → m (on (deeper p) ts) ≡ ok (a, on (deeper p) us)
        → level m (on p ts) ≡ ok (a, on p us)
    unfolding level enterlevel leavelevel
    level_ok m a p ts us room h =
        let fits : ltb max_c_calls (suc p.c_calls) ≡ false = ground arith in
        let back : suc p.c_calls - 1 ≡ p.c_calls = omega arith in
        rw (fits, h) (ap (λ (c : ℕ). ok (a, on (record p { c_calls = c }) us)) back)

    pub nested_there :
        (k : TokenKind) (m other : Parsing F (Input F) A) (p : Parser F (Input F)) (ts : Input F)
        → is_kind (first ts).kind k ≡ false
        → if_nested k m other (on p ts) ≡ other (on p ts)
    unfolding if_nested check peek
    nested_there k m other p ts h = rw h refl

    pub nested_here :
        (k : TokenKind) (m other : Parsing F (Input F) A) (a : A) (p : Parser F (Input F))
        (t : Token F) (ts us : Input F)
        → is_kind t.kind k ≡ true
        → p.c_calls < 200
        → m (on (deeper p) ts) ≡ ok (a, on (deeper p) us)
        → if_nested k m other (on p (t ∷ ts)) ≡ ok (a, on p us)
    unfolding if_nested check peek next
    nested_here k m other a p t ts us h room read =
        rw h (level_ok (next >>= (λ _. m)) a p (t ∷ ts) us room read)

  pub first_match-none :
      (ops : List (TokenKind × BinOp)) (p : Parser F (Input F)) (ts : Input F)
      → free (first ts).kind (kinds ops) ≡ true
      → first_match ops (on p ts) ≡ ok (none, on p ts)
  unfolding first_match
  first_match-none [] p ts h = refl
  first_match-none ((k, op) ∷ ops) p ts h =
      let (other, h) =
        and_parts (not (is_kind (first ts).kind k)) (free (first ts).kind (kinds ops)) h in
      if_token_there k (λ _. pure (some op)) (first_match ops) p ts (not_true _ other)
      ∙ first_match-none ops p ts h

  pub check_any_reads :
      (ks : List TokenKind) (p : Parser F (Input F)) (ts : Input F)
      → (b : Bool) × (check_any ks (on p ts) ≡ ok (b, on p ts))
  unfolding check_any check peek
  check_any_reads [] p ts = (false, refl)
  check_any_reads (k ∷ ks) p ts = elim (Bool-cases (is_kind (first ts).kind k)) [
    | inl same ↦ (true, rw same refl)
    | inr other ↦ let (b, e) = check_any_reads ks p ts in (b, rw other e)
  ]

  module _ {A B : Type 0} where
    pub then_ok :
        (m : Parsing F (Input F) A) (f : A → Parsing F (Input F) B) (a : A)
        (p q : Parser F (Input F))
        → m p ≡ ok (a, q)
        → (m >>= f) p ≡ f a q
    then_ok m f a p q h = ap (λ x. continue x f) h
