-- ===== src/Library/Utf8/RoundTrip.antt =====
-- Decoding what was encoded.
use luajit.Common.{
  ℕ, zero, suc, ◌+◌, ◌*◌, ◌/◌, ◌%◌, ◌^◌, ◌≤◌, ◌<◌, ◌≡◌, ap, ◌∙◌, true, false, List, [], ◌∷◌, ◌++◌,
  some, length, get_or, ltb, leb, arith, length-append, Bool-cases, inl, inr,
}
use luajit.Library.Utf8.{
  max_unicode, iscont, limit, scan, finish, finish_scan, utf8_decode, utf8_encode,
}

scan_step :
    (fuel : ℕ) (s : List ℕ) (i c res n b : ℕ)
    → get_or s (i + 1 + n) 0 ≡ 0x80 + b
    → b < 64
    → i + 1 + n < length s
    → c / 64 % 2 ≡ 1
    → scan (suc fuel) s i (record { c = c; res = res; count = n })
      ≡ scan fuel s i (record { c = c * 2 % 2 ^ 32; res = (res * 64 + b) % 2 ^ 32; count = suc n })
unfolding scan
scan_step fuel s i c res n b e hb l more =
    let q : (0x80 + b) % 64 ≡ b = omega arith in
    let cont : iscont (0x80 + b) ≡ true = ground arith in
    let short : leb (length s) (i + 1 + n) ≡ false = ground arith in rw (more, e, cont, short, q)

scan_stop :
    (fuel : ℕ) (s : List ℕ) (i c res n : ℕ)
    → c / 64 % 2 ≡ 0
    → scan (suc fuel) s i (record { c = c; res = res; count = n })
      ≡ some (record { c = c; res = res; count = n })
unfolding scan
scan_stop fuel s i c res n stop = rw stop

finish_valid :
    (c res n cp : ℕ)
    → res + c % 128 * 2 ^ (n * 5) ≡ cp
    → n ≤ 3
    → cp ≤ max_unicode
    → limit n < cp
    → finish (record { c = c; res = res; count = n }) ≡ some (cp, suc n)
unfolding finish
finish_valid c res n cp e hn top low =
    let few : ltb 3 n ≡ false = ground arith in
    let valid : ltb max_unicode cp ≡ false = ground arith in
    let shortest : leb cp (limit n) ≡ false = ground arith in rw (e, few, valid, shortest)

module _ (s : List ℕ) (i : ℕ) where
  decode_one : (a : ℕ) → get_or s i 0 ≡ a → a < 0x80 → i < length s → utf8_decode s i ≡ some (a, 1)
  unfolding utf8_decode
  decode_one a e ha l =
      let short : leb (length s) i ≡ false = ground arith in
      let low : ltb a 0x80 ≡ true = ground arith in rw (short, e, low)

  decode_many :
      (c : ℕ)
      → get_or s i 0 ≡ c
      → 0x80 ≤ c
      → i < length s
      → utf8_decode s i ≡ finish_scan (scan 8 s i (record { c = c; res = 0; count = 0 }))
  unfolding utf8_decode
  decode_many c e hc l =
      let short : leb (length s) i ≡ false = ground arith in
      let high : ltb c 0x80 ≡ false = ground arith in rw (short, e, high)

  decode_two :
      (a b : ℕ)
      → get_or s i 0 ≡ 0xC0 + a
      → get_or s (i + 1 + 0) 0 ≡ 0x80 + b
      → a < 32
      → b < 64
      → 2 ≤ a
      → i + 1 + 0 < length s
      → utf8_decode s i ≡ some (a * 64 + b, 2)
  decode_two a b ea eb ha hb low l =
      decode_many (0xC0 + a) ea (omega arith) (omega arith)
      ∙ ap finish_scan (
          scan_step 7 s i (0xC0 + a) 0 0 b eb hb l (omega arith)
          ∙ scan_stop 6 s i ((0xC0 + a) * 2 % 2 ^ 32) ((0 * 64 + b) % 2 ^ 32) 1 (omega arith))
      ∙ finish_valid _ _ 1 (a * 64 + b) (omega arith) (omega arith) (omega arith) (omega arith)

  decode_three :
      (a b d : ℕ)
      → get_or s i 0 ≡ 0xE0 + a
      → get_or s (i + 1 + 0) 0 ≡ 0x80 + b
      → get_or s (i + 1 + 1) 0 ≡ 0x80 + d
      → a < 16
      → b < 64
      → d < 64
      → 0x7FF < a * 2 ^ 12 + b * 64 + d
      → i + 1 + 1 < length s
      → utf8_decode s i ≡ some (a * 2 ^ 12 + b * 64 + d, 3)
  decode_three a b d ea eb ed ha hb hd low l =
      decode_many (0xE0 + a) ea (omega arith) (omega arith)
      ∙ ap finish_scan (
          scan_step 7 s i (0xE0 + a) 0 0 b eb hb (omega arith) (omega arith)
          ∙ scan_step 6 s i _ _ 1 d ed hd l (omega arith)
          ∙ scan_stop 5 s i _ _ 2 (omega arith))
      ∙ finish_valid _ _ 2 (a * 2 ^ 12 + b * 64 + d) (omega arith) (omega arith) (omega arith)
          (omega arith)

  decode_four :
      (a b d f : ℕ)
      → get_or s i 0 ≡ 0xF0 + a
      → get_or s (i + 1 + 0) 0 ≡ 0x80 + b
      → get_or s (i + 1 + 1) 0 ≡ 0x80 + d
      → get_or s (i + 1 + 2) 0 ≡ 0x80 + f
      → a < 8
      → b < 64
      → d < 64
      → f < 64
      → 0xFFFF < a * 2 ^ 18 + b * 2 ^ 12 + d * 64 + f
      → a * 2 ^ 18 + b * 2 ^ 12 + d * 64 + f ≤ max_unicode
      → i + 1 + 2 < length s
      → utf8_decode s i ≡ some (a * 2 ^ 18 + b * 2 ^ 12 + d * 64 + f, 4)
  decode_four a b d f ea eb ed ef ha hb hd hf low top l =
      decode_many (0xF0 + a) ea (omega arith) (omega arith)
      ∙ ap finish_scan (
          scan_step 7 s i (0xF0 + a) 0 0 b eb hb (omega arith) (omega arith)
          ∙ scan_step 6 s i _ _ 1 d ed hd (omega arith) (omega arith)
          ∙ scan_step 5 s i _ _ 2 f ef hf l (omega arith)
          ∙ scan_stop 4 s i _ _ 3 (omega arith))
      ∙ finish_valid _ _ 3 (a * 2 ^ 18 + b * 2 ^ 12 + d * 64 + f) (omega arith) (omega arith) top
          (omega arith)

get_or-append :
    (pre t : List ℕ) (j k : ℕ) → j ≡ length pre + k → get_or (pre ++ t) j 0 ≡ get_or t k 0
get_or-append [] t j k e = ap (λ (n : ℕ). get_or t n 0) (omega arith)
get_or-append (x ∷ pre) t zero k e = absurd (omega arith)
get_or-append (x ∷ pre) t (suc j) k e = get_or-append pre t j k (omega arith)

short_code : (cp : ℕ) → cp < 0x80 → utf8_encode cp ≡ cp ∷ []
unfolding utf8_encode
short_code cp h = let a : ltb cp 0x80 ≡ true = ground arith in rw a

two_byte_code :
    (cp : ℕ) → 0x80 ≤ cp → cp < 0x800 → utf8_encode cp ≡ (0xC0 + cp / 2 ^ 6) ∷ (0x80 + cp % 64) ∷ []
unfolding utf8_encode
two_byte_code cp l h =
    let a : ltb cp 0x80 ≡ false = ground arith in
    let b : ltb cp 0x800 ≡ true = ground arith in rw (a, b)

three_byte_code :
    (cp : ℕ)
    → 0x800 ≤ cp
    → cp < 0x10000
    → utf8_encode cp ≡ (0xE0 + cp / 2 ^ 12) ∷ (0x80 + cp / 2 ^ 6 % 64) ∷ (0x80 + cp % 64) ∷ []
unfolding utf8_encode
three_byte_code cp l h =
    let a : ltb cp 0x80 ≡ false = ground arith in
    let b : ltb cp 0x800 ≡ false = ground arith in
    let c : ltb cp 0x10000 ≡ true = ground arith in rw (a, b, c)

four_byte_code :
    (cp : ℕ)
    → 0x10000 ≤ cp
    → utf8_encode cp
      ≡ (0xF0 + cp / 2 ^ 18)
        ∷ (0x80 + cp / 2 ^ 12 % 64)
        ∷ (0x80 + cp / 2 ^ 6 % 64)
        ∷ (0x80 + cp % 64)
        ∷ []
unfolding utf8_encode
four_byte_code cp l =
    let a : ltb cp 0x80 ≡ false = ground arith in
    let b : ltb cp 0x800 ≡ false = ground arith in
    let c : ltb cp 0x10000 ≡ false = ground arith in rw (a, b, c)

abbrev Decodes : List ℕ → ℕ → List ℕ → List ℕ → Type 0
Decodes pre cp code post = utf8_decode (pre ++ (code ++ post)) (length pre) ≡ some (cp, length code)

module _ (pre post : List ℕ) (cp : ℕ) where
  decode_short : cp < 0x80 → Decodes pre cp (utf8_encode cp) post
  decode_short h =
      let t = cp ∷ post in
      let at = λ (j k : ℕ). get_or-append pre t j k in
      rw (short_code cp h) (
        decode_one (pre ++ t) (length pre) cp (at _ 0 (omega arith)) h
          (omega (arith, length-append pre t)))

  decode_two_bytes : 0x80 ≤ cp → cp < 0x800 → Decodes pre cp (utf8_encode cp) post
  decode_two_bytes l h =
      let t = (0xC0 + cp / 2 ^ 6) ∷ (0x80 + cp % 64) ∷ post in
      let at = λ (j k : ℕ). get_or-append pre t j k in
      rw (two_byte_code cp l h) (
        decode_two (pre ++ t) (length pre) (cp / 2 ^ 6) (cp % 64) (at _ 0 (omega arith))
          (at _ 1 (omega arith)) (omega arith) (omega arith) (omega arith)
          (omega (arith, length-append pre t))
        ∙ ap (λ (c : ℕ). some (c, 2)) (omega arith))

  decode_three_bytes : 0x800 ≤ cp → cp < 0x10000 → Decodes pre cp (utf8_encode cp) post
  decode_three_bytes l h =
      let t = (0xE0 + cp / 2 ^ 12) ∷ (0x80 + cp / 2 ^ 6 % 64) ∷ (0x80 + cp % 64) ∷ post in
      let at = λ (j k : ℕ). get_or-append pre t j k in
      rw (three_byte_code cp l h) (
        decode_three (pre ++ t) (length pre) (cp / 2 ^ 12) (cp / 2 ^ 6 % 64) (cp % 64)
          (at _ 0 (omega arith)) (at _ 1 (omega arith)) (at _ 2 (omega arith)) (omega arith)
          (omega arith) (omega arith) (omega arith) (omega (arith, length-append pre t))
        ∙ ap (λ (c : ℕ). some (c, 3)) (omega arith))

  decode_four_bytes : 0x10000 ≤ cp → cp ≤ max_unicode → Decodes pre cp (utf8_encode cp) post
  decode_four_bytes l h =
      let t =
        (0xF0 + cp / 2 ^ 18)
        ∷ (0x80 + cp / 2 ^ 12 % 64)
        ∷ (0x80 + cp / 2 ^ 6 % 64)
        ∷ (0x80 + cp % 64)
        ∷ post in
      let at = λ (j k : ℕ). get_or-append pre t j k in
      rw (four_byte_code cp l) (
        decode_four (pre ++ t) (length pre) (cp / 2 ^ 18) (cp / 2 ^ 12 % 64) (cp / 2 ^ 6 % 64)
          (cp % 64) (at _ 0 (omega arith)) (at _ 1 (omega arith)) (at _ 2 (omega arith))
          (at _ 3 (omega arith)) (omega arith) (omega arith) (omega arith) (omega arith)
          (omega arith) (omega arith) (omega (arith, length-append pre t))
        ∙ ap (λ (c : ℕ). some (c, 4)) (omega arith))

-- Each code point up to 0x10FFFF decodes from its encoding, wherever in a string that stands, together
-- with the encoding's length.
pub decode-encode :
    (pre post : List ℕ) (cp : ℕ)
    → cp ≤ max_unicode
    → utf8_decode (pre ++ (utf8_encode cp ++ post)) (length pre)
      ≡ some (cp, length (utf8_encode cp))
decode-encode pre post cp h = elim (Bool-cases (ltb cp 0x80)) [
  | inl a ↦ decode_short pre post cp (ground arith)
  | inr a ↦ elim (Bool-cases (ltb cp 0x800)) [
    | inl b ↦ decode_two_bytes pre post cp (ground arith) (ground arith)
    | inr b ↦ elim (Bool-cases (ltb cp 0x10000)) [
      | inl c ↦ decode_three_bytes pre post cp (ground arith) (ground arith)
      | inr c ↦ decode_four_bytes pre post cp (ground arith) h
    ]
  ]
]
