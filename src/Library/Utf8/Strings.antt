-- ===== src/Library/Utf8/Strings.antt =====
-- The library's functions over strings that `utf8.char` makes.
use mathlib.Core.List.{append_assoc, append-nil}
use luajit.Common.{
  ℕ, zero, suc, ◌+◌, ◌-◌, ◌%◌, ◌^◌, ◌≤◌, ◌<◌, ◌≡◌, refl, sym, ap, ◌∙◌, true, false, List, [], ◌∷◌,
  ◌++◌, none, some, length, ltb, leb, arith, length-append, map, subst,
}
use luajit.Common.Int.{pos, negsuc}
use luajit.Common.Result.{Result, ok, ◌>>=◌}
use luajit.Library.Utf8.RoundTrip.{decode-encode}
use luajit.Library.Utf8.{
  max_unicode, utf8_decode, utf8_encode, utf8_char, codes_loop, len_loop, utf8_len, utf8_codepoint,
  count, u_posrelat, max_slice, Utf8Error,
}

-- The encodings of the code points, one after the other.
unfoldable pub encoded : List ℕ → List ℕ
encoded [] = []
encoded (c ∷ cs) = utf8_encode c ++ encoded cs

abbrev pub AllCodes : List ℕ → Type 0
AllCodes [] = Unit
AllCodes (c ∷ cs) = (c ≤ max_unicode) × AllCodes cs

encode_nonempty : (c : ℕ) → 1 ≤ length (utf8_encode c)
unfolding utf8_encode
encode_nonempty c = ground arith

length-encoded : (cs : List ℕ) → length cs ≤ length (encoded cs)
unfolding encoded
length-encoded [] = omega arith
length-encoded (c ∷ cs) =
    omega (arith, length-append (utf8_encode c) (encoded cs), encode_nonempty c, length-encoded cs)

utf8_char-encoded : (cs : List ℕ) → AllCodes cs → utf8_char (map pos cs) ≡ ok (encoded cs)
unfolding utf8_char encoded
utf8_char-encoded [] h = refl
utf8_char-encoded (c ∷ cs) (hc, h) =
    let low : c % 2 ^ 32 ≡ c = omega arith in
    let valid : ltb max_unicode c ≡ false = ground arith in rw (low, valid, utf8_char-encoded cs h)

-- A round of each loop.
module _ (fuel : ℕ) (s : List ℕ) (p end code size : ℕ) (e : utf8_decode s p ≡ some (code, size))
    (before : p < end) where
  codes_step :
      codes_loop (suc fuel) s p end ≡ (codes_loop fuel s (p + size) end >>= (λ cs. ok (code ∷ cs)))
  unfolding codes_loop
  codes_step = let more : leb end p ≡ false = ground arith in rw (more, e, codes_loop)

  len_step : (n : ℕ) → len_loop (suc fuel) s p end n ≡ len_loop fuel s (p + size) end (n + 1)
  unfolding len_loop
  len_step n = let more : leb end p ≡ false = ground arith in rw (more, e, len_loop)

-- What stands before a code point, with its encoding.
abbrev after : List ℕ → ℕ → List ℕ
after pre c = pre ++ utf8_encode c

module _ (pre : List ℕ) (c : ℕ) (cs : List ℕ) where
  split_code : pre ++ encoded (c ∷ cs) ≡ after pre c ++ encoded cs
  unfolding encoded
  split_code = sym (append_assoc pre (utf8_encode c) (encoded cs))

  decode_next :
      c ≤ max_unicode
      → utf8_decode (after pre c ++ encoded cs) (length pre) ≡ some (c, length (utf8_encode c))
  decode_next h =
      subst (λ (s : List ℕ). utf8_decode s (length pre) ≡ some (c, length (utf8_encode c)))
        (sym (append_assoc pre (utf8_encode c) (encoded cs))) (decode-encode pre (encoded cs) c h)

  before_end : length pre < length (after pre c ++ encoded cs)
  before_end = omega (
    arith,
    length-append (after pre c) (encoded cs),
    length-append pre (utf8_encode c),
    encode_nonempty c,
  )

ended : (pre : List ℕ) → leb (length (pre ++ encoded [])) (length pre) ≡ true
unfolding encoded
ended pre = rw (append-nil pre) (ground arith)

codes_loop-encoded :
    (cs pre : List ℕ) (fuel : ℕ)
    → AllCodes cs
    → length cs ≤ fuel
    → codes_loop fuel (pre ++ encoded cs) (length pre) (length (pre ++ encoded cs)) ≡ ok cs
unfolding codes_loop
codes_loop-encoded [] pre zero h enough = refl
codes_loop-encoded [] pre (suc fuel) h enough = rw (ended pre, codes_loop)
codes_loop-encoded (c ∷ cs) pre zero h enough = absurd (omega arith)
codes_loop-encoded (c ∷ cs) pre (suc fuel) (top, h) enough =
    ap (λ (s : List ℕ). codes_loop (suc fuel) s (length pre) (length s)) (split_code pre c cs)
    ∙ codes_step fuel _ _ _ c (length (utf8_encode c)) (decode_next pre c cs top)
        (before_end pre c cs)
    ∙ ap
        (λ (p : ℕ).
          codes_loop fuel (after pre c ++ encoded cs) p (length (after pre c ++ encoded cs))
          >>= (λ r. ok (c ∷ r)))
        (sym (length-append pre (utf8_encode c)))
    ∙ ap (λ (r : Result Utf8Error (List ℕ)). r >>= (λ l. ok (c ∷ l)))
        (codes_loop-encoded cs (after pre c) fuel h (omega arith))

len_loop-encoded :
    (cs pre : List ℕ) (fuel n : ℕ)
    → AllCodes cs
    → length cs ≤ fuel
    → len_loop fuel (pre ++ encoded cs) (length pre) (length (pre ++ encoded cs)) n
      ≡ count (n + length cs)
unfolding len_loop
len_loop-encoded [] pre zero n h enough = ap count (omega arith)
len_loop-encoded [] pre (suc fuel) n h enough = rw (ended pre, len_loop) (ap count (omega arith))
len_loop-encoded (c ∷ cs) pre zero n h enough = absurd (omega arith)
len_loop-encoded (c ∷ cs) pre (suc fuel) n (top, h) enough =
    ap (λ (s : List ℕ). len_loop (suc fuel) s (length pre) (length s) n) (split_code pre c cs)
    ∙ len_step fuel _ _ _ c (length (utf8_encode c)) (decode_next pre c cs top)
        (before_end pre c cs) n
    ∙ ap
        (λ (p : ℕ).
          len_loop fuel (after pre c ++ encoded cs) p (length (after pre c ++ encoded cs)) (n + 1))
        (sym (length-append pre (utf8_encode c)))
    ∙ len_loop-encoded cs (after pre c) fuel (n + 1) h (omega arith)
    ∙ ap count (omega arith)

posrelat_last : (n : ℕ) → u_posrelat (negsuc 0) n ≡ n
unfolding u_posrelat
posrelat_last n = ground arith

nonempty_codepoint :
    (s : List ℕ)
    → 1 ≤ length s
    → length s < 2 ^ 31
    → utf8_codepoint s (some (pos 1)) (some (negsuc 0)) ≡ codes_loop (length s) s 0 (length s)
unfolding utf8_codepoint
nonempty_codepoint s some_code short =
    let inside : ltb (length s) (length s) ≡ false = ground arith in
    let start : ltb (length s) 1 ≡ false = ground arith in
    let small : leb max_slice (length s - 1) ≡ false = ground arith in
    rw (posrelat_last (length s), inside, start, small, utf8_codepoint)

whole_codepoint :
    (s : List ℕ)
    → length s < 2 ^ 31
    → utf8_codepoint s (some (pos 1)) (some (negsuc 0)) ≡ codes_loop (length s) s 0 (length s)
unfolding utf8_codepoint
whole_codepoint [] short = refl
whole_codepoint (x ∷ s) short = nonempty_codepoint (x ∷ s) (omega arith) short

whole_len : (s : List ℕ) → utf8_len s none none ≡ ok (len_loop (length s) s 0 (length s) 0)
unfolding utf8_len
whole_len s =
    let first : leb 0 (length s) ≡ true = ground arith in
    let last : leb (length s) (length s) ≡ true = ground arith in
    rw (posrelat_last (length s), first, last, utf8_len)

-- `utf8.codepoint(utf8.char(...), 1, -1)` returns the arguments of `utf8.char`, for code points up to
-- 0x10FFFF and a string shorter than 2 ^ 31 bytes.
pub utf8_codepoint-utf8_char :
    (cs : List ℕ)
    → AllCodes cs
    → length (encoded cs) < 2 ^ 31
    → (utf8_char (map pos cs) >>= (λ s. utf8_codepoint s (some (pos 1)) (some (negsuc 0)))) ≡ ok cs
utf8_codepoint-utf8_char cs h short = rw (utf8_char-encoded cs h) (
    whole_codepoint (encoded cs) short
    ∙ codes_loop-encoded cs [] (length (encoded cs)) h (length-encoded cs))

-- `utf8.len(utf8.char(...))` is the number of arguments, for code points up to 0x10FFFF.
pub utf8_len-utf8_char :
    (cs : List ℕ)
    → AllCodes cs
    → (utf8_char (map pos cs) >>= (λ s. utf8_len s none none)) ≡ ok (count (length cs))
utf8_len-utf8_char cs h = rw (utf8_char-encoded cs h) (
    whole_len (encoded cs)
    ∙ ap ok (
        len_loop-encoded cs [] (length (encoded cs)) 0 h (length-encoded cs)
        ∙ ap count (omega arith)))
