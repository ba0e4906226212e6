-- ===== src/Library/Dump/Codec.antt =====
-- What each reader returns on what the writer of the same item wrote.
use mathlib.Core.List.{append_assoc}
use native.Mathlib.Nat.{mod-lt}
use luajit.Common.{
  ℕ, zero, suc, ◌+◌, ◌-◌, ◌*◌, ◌/◌, ◌%◌, ◌^◌, ◌≤◌, ◌<◌, ◌≡◌, refl, ap, ◌∙◌, subst, arith, Bool,
  true, false, List, [], ◌∷◌, ◌++◌, length, length-append, take, drop, ltb, ◌==◌, Bool-cases, inl,
  inr,
}
use luajit.Common.Int.{ℤ, pos, negsuc, to_word, of_word-to_word, to_word-lt, IsInt64}
use luajit.Common.Result.{Result, ok, err}
use luajit.Library.Dump.Proto.{DumpError, truncated, to_word32, of_word32}
use luajit.Library.Dump.Read.{
  Reader, pure, continue, ◌>>=◌, read_u8, read_le, read_u32, read_u64, read_i64, read_int,
  read_bool, read_bytes, read_str, read_each, read_list, expect_bytes, expect_u8,
}
use luajit.Library.Dump.Write.{
  write_u8, write_le, write_u32, write_u64, write_i64, write_int, write_bool, write_str, write_each,
  write_list,
}

-- A reader that takes exactly these bytes and returns `a`, and finds every proper prefix of them
-- truncated.
pub record Reads {A : Type 0} (r : Reader A) (bs : List ℕ) (a : A) : Type 0 where
  pub full : (rest : List ℕ) → r (bs ++ rest) ≡ ok (a, rest)
  pub cut : (n : ℕ) → n < length bs → r (take n bs) ≡ err truncated

take_front : (n : ℕ) (bs cs : List ℕ) → n < length bs → take n (bs ++ cs) ≡ take n bs
take_front n [] cs h = absurd (omega arith)
take_front zero (b ∷ bs) cs h = refl
take_front (suc n) (b ∷ bs) cs h = ap (λ (t : List ℕ). b ∷ t) (take_front n bs cs (omega arith))

take_back :
    (n : ℕ) (bs cs : List ℕ) → length bs ≤ n → take n (bs ++ cs) ≡ bs ++ take (n - length bs) cs
take_back n [] cs h = ap (λ (k : ℕ). take k cs) (omega arith)
take_back zero (b ∷ bs) cs h = absurd (omega arith)
take_back (suc n) (b ∷ bs) cs h =
    ap (λ (t : List ℕ). b ∷ t)
      (take_back n bs cs (omega arith) ∙ ap (λ (k : ℕ). bs ++ take k cs) (omega arith))

take_all : (bs rest : List ℕ) → take (length bs) (bs ++ rest) ≡ bs
take_all [] rest = refl
take_all (b ∷ bs) rest = ap (λ (t : List ℕ). b ∷ t) (take_all bs rest)

drop_all : (bs rest : List ℕ) → drop (length bs) (bs ++ rest) ≡ rest
drop_all [] rest = refl
drop_all (b ∷ bs) rest = drop_all bs rest

length-take : (n : ℕ) (bs : List ℕ) → n < length bs → length (take n bs) ≡ n
length-take n [] h = absurd (omega arith)
length-take zero (b ∷ bs) h = refl
length-take (suc n) (b ∷ bs) h = ap suc (length-take n bs (omega arith))

pub pure-Reads : {A : Type 0} (a : A) → Reads (pure a) [] a
pure-Reads a = record { full = λ rest. refl; cut = λ n h. absurd (omega arith) }

module _ {A B : Type 0} {r : Reader A} (f : A → Reader B) where
  pub bind-Reads :
      (bs cs : List ℕ) (a : A) (b : B)
      → Reads r bs a
      → Reads (f a) cs b
      → Reads (r >>= f) (bs ++ cs) b
  bind-Reads bs cs a b first second = record {
    full = λ rest.
        ap (λ (s : List ℕ). continue (r s) f) (append_assoc bs cs rest)
        ∙ ap (λ (x : Result DumpError (A × List ℕ)). continue x f) (first.full (cs ++ rest))
        ∙ second.full rest;
    cut = λ n h. elim (Bool-cases (ltb n (length bs))) [
      | inl e ↦
          ap (λ (s : List ℕ). continue (r s) f) (take_front n bs cs (ground arith))
          ∙ ap (λ (x : Result DumpError (A × List ℕ)). continue x f) (first.cut n (ground arith))
      | inr e ↦
          ap (λ (s : List ℕ). continue (r s) f) (take_back n bs cs (ground arith))
          ∙ ap (λ (x : Result DumpError (A × List ℕ)). continue x f)
              (first.full (take (n - length bs) cs))
          ∙ second.cut (n - length bs) (ground (arith, length-append bs cs))
    ];
  }

  -- The last step of a reader, which takes no bytes.
  pub then-Reads :
      (bs : List ℕ) (a : A) (b : B) → Reads r bs a → f a ≡ pure b → Reads (r >>= f) bs b
  then-Reads bs a b first e = record {
    full = λ rest.
        ap (λ (x : Result DumpError (A × List ℕ)). continue x f) (first.full rest)
        ∙ ap (λ (q : Reader B). q rest) e;
    cut = λ n h. ap (λ (x : Result DumpError (A × List ℕ)). continue x f) (first.cut n h);
  }

-- One byte, of which eight bits are written.
pub read_u8_low : (v : ℕ) → Reads read_u8 (write_u8 v) (v % 256)
unfolding read_u8 write_u8
read_u8_low v = record { full = λ rest. refl; cut = first }
  where
    first : (n : ℕ) → n < 1 → read_u8 (take n (v % 256 ∷ [])) ≡ err truncated
    first zero h = refl
    first (suc n) h = absurd (omega arith)

pub read_u8-Reads : (v : ℕ) → v < 256 → Reads read_u8 (write_u8 v) v
read_u8-Reads v h = subst (Reads read_u8 (write_u8 v)) (omega arith) (read_u8_low v)

abbrev pub le_value : ℕ → ℕ → ℕ → ℕ → ℕ
le_value zero i acc v = acc
le_value (suc k) i acc v = le_value k (suc i) (acc + v / 2 ^ (i * 8) % 256 * 2 ^ (i * 8)) v

read_le-Reads : (k i acc v : ℕ) → Reads (read_le k i acc) (write_le k i v) (le_value k i acc v)
unfolding read_le write_le
read_le-Reads zero i acc v = pure-Reads acc
read_le-Reads (suc k) i acc v =
    bind-Reads _ (write_u8 (v / 2 ^ (i * 8) % 256)) (write_le k (suc i) v) (v / 2 ^ (i * 8) % 256) _
      (read_u8-Reads (v / 2 ^ (i * 8) % 256) (mod-lt _ (omega arith)))
      (read_le-Reads k (suc i) (acc + v / 2 ^ (i * 8) % 256 * 2 ^ (i * 8)) v)

le_value_u32 : (v : ℕ) → v < 2 ^ 32 → le_value 4 0 0 (v % 2 ^ 32) ≡ v
le_value_u32 v h = omega arith

le_value_u64 : (v : ℕ) → v < 2 ^ 64 → le_value 8 0 0 v ≡ v
le_value_u64 v h = omega arith

pub read_u32-Reads : (v : ℕ) → v < 2 ^ 32 → Reads read_u32 (write_u32 v) v
unfolding write_u32
read_u32-Reads v h =
    subst (Reads read_u32 (write_u32 v)) (le_value_u32 v h) (read_le-Reads 4 0 0 (v % 2 ^ 32))

pub read_u64-Reads : (v : ℕ) → v < 2 ^ 64 → Reads read_u64 (write_u64 v) v
unfolding write_u64
read_u64-Reads v h = subst (Reads read_u64 (write_u64 v)) (le_value_u64 v h) (read_le-Reads 8 0 0 v)

pub read_i64-Reads : (n : ℤ) → IsInt64 n → Reads read_i64 (write_i64 n) n
read_i64-Reads n h =
    then-Reads _ (write_i64 n) (to_word n) n (read_u64-Reads (to_word n) (to_word-lt n))
      (ap pure (of_word-to_word n h))

-- The values of an `int`.
abbrev pub IsInt32 : ℤ → Type 0
IsInt32 (pos n) = n < 2 ^ 31
IsInt32 (negsuc n) = n < 2 ^ 31

of_word32-to_word32 : (n : ℤ) → IsInt32 n → of_word32 (to_word32 n) ≡ n
unfolding of_word32 to_word32
of_word32-to_word32 (pos n) h = ground arith
of_word32-to_word32 (negsuc n) h = ground arith

to_word32-lt : (n : ℤ) → to_word32 n < 2 ^ 32
unfolding to_word32
to_word32-lt (pos n) = omega arith
to_word32-lt (negsuc n) = omega arith

pub read_int-Reads : (n : ℤ) → IsInt32 n → Reads read_int (write_int n) n
read_int-Reads n h =
    then-Reads _ (write_int n) (to_word32 n) n (read_u32-Reads (to_word32 n) (to_word32-lt n))
      (ap pure (of_word32-to_word32 n h))

pub read_bool-Reads : (b : Bool) → Reads read_bool (write_bool b) b
read_bool-Reads true = then-Reads _ (write_bool true) 1 true (read_u8-Reads 1 (omega arith)) refl
read_bool-Reads false = then-Reads _ (write_bool false) 0 false (read_u8-Reads 0 (omega arith)) refl

read_bytes-Reads : (s : List ℕ) → Reads (read_bytes (length s)) s s
unfolding read_bytes
read_bytes-Reads s = record {
  full = λ rest.
      let enough : ltb (length (s ++ rest)) (length s) ≡ false =
        ground (arith, length-append s rest) in
      rw (enough, take_all s rest, drop_all s rest);
  cut = λ n h.
      let short : ltb (length (take n s)) (length s) ≡ true = ground (arith, length-take n s h) in
      rw short;
}

pub read_str-Reads : (s : List ℕ) → length s < 2 ^ 32 → Reads read_str (write_str s) s
unfolding write_str
read_str-Reads s h =
    bind-Reads _ (write_u32 (length s)) s (length s) s (read_u32-Reads (length s) h)
      (read_bytes-Reads s)

abbrev pub All : {A : Type 0} → (A → Type 0) → List A → Type 0
All P [] = Unit
All P (x ∷ xs) = P x × All P xs

module _ {A : Type 0} (read : Reader A) where
  -- `write_each`, for a writer that can fail.
  pub read_each-Reads :
      (write : A → List ℕ) (xs : List A)
      → All (λ x. Reads read (write x) x) xs
      → Reads (read_each read (length xs)) (write_each write xs) xs
  unfolding read_each write_each
  read_each-Reads write [] h = pure-Reads []
  read_each-Reads write (x ∷ xs) (hx, h) =
      bind-Reads _ (write x) (write_each write xs) x (x ∷ xs) hx
        (then-Reads _ (write_each write xs) xs (x ∷ xs) (read_each-Reads write xs h) refl)

  pub read_list-Reads :
      (write : A → List ℕ) (xs : List A)
      → length xs < 2 ^ 32
      → All (λ x. Reads read (write x) x) xs
      → Reads (read_list read) (write_list write xs) xs
  read_list-Reads write xs l h =
      bind-Reads _ (write_u32 (length xs)) (write_each write xs) (length xs) xs
        (read_u32-Reads (length xs) l) (read_each-Reads write xs h)

expected :
    (what : DumpError) (e : ℕ) (es : List ℕ)
    → Reads (expect_bytes what es) es tt
    → Reads (expect_bytes what (e ∷ es)) (e ∷ es) tt
unfolding expect_bytes
expected what e es later = record { full = λ rest. rw same (later.full rest); cut = cut_at }
  where
    same : (e == e) ≡ true
    same = ground arith

    cut_at :
        (n : ℕ) → n < suc (length es) → expect_bytes what (e ∷ es) (take n (e ∷ es)) ≡ err truncated
    cut_at zero l = refl
    cut_at (suc n) l = rw same (later.cut n (omega arith))

pub expect_bytes-Reads : (what : DumpError) (es : List ℕ) → Reads (expect_bytes what es) es tt
unfolding expect_bytes
expect_bytes-Reads what [] = pure-Reads tt
expect_bytes-Reads what (e ∷ es) = expected what e es (expect_bytes-Reads what es)

pub expect_u8-Reads :
    (n : ℕ) (what : DumpError) → n < 256 → Reads (expect_u8 n what) (write_u8 n) tt
expect_u8-Reads n what h =
    let same : (n == n) ≡ true = ground arith in
    then-Reads _ (write_u8 n) n tt (read_u8-Reads n h) (rw same)
