-- ===== src/Library/Utf8.antt =====
-- The UTF-8 library (src/lib/lutf8lib.cpp). A string is a list of bytes; `&` with a mask of low bits is
-- `%`, a shift to the right is `/`, and `|` of disjoint fields is `+`. The arguments that a call leaves
-- out are `none`, and a result is the list of values that the call pushes.
pub mod RoundTrip
pub mod Strings
use luajit.Common.{
  ℕ, zero, suc, ◌+◌, ◌-◌, ◌*◌, ◌/◌, ◌%◌, ◌^◌, Bool, not, ◌&&◌, ◌||◌, List, [], ◌∷◌, ◌++◌, Option,
  none, some, length, get_or, ltb, leb, ◌==◌, if◌then◌else◌,
}
use luajit.Common.Int.{ℤ, pos, negsuc}
use luajit.Common.Result.{Result, ok, err, ◌>>=◌}

abbrev pub max_unicode : ℕ
max_unicode = 0x10FFFF

abbrev pub iscont : ℕ → Bool
iscont c = c / 64 % 4 == 2

-- The result is never negative.
unfoldable pub u_posrelat : ℤ → ℕ → ℕ
u_posrelat (pos p) len = p
u_posrelat (negsuc p) len = if ltb len (suc p) then 0 else len - p

-- The variables of the loop of `utf8_decode`.
pub record Scan : Type 0 where
  pub c : ℕ
  pub res : ℕ
  pub count : ℕ

-- `while (c & 0x40)`; `none` is a return of 0.
unfoldable pub scan : ℕ → List ℕ → ℕ → Scan → Option Scan
scan zero s i v = some v
scan (suc fuel) s i v =
    let at = i + 1 + v.count in
    let cc = get_or s at 0 in
    let rest = scan fuel s i (record {
      c = v.c * 2 % 2 ^ 32;
      res = (v.res * 64 + cc % 64) % 2 ^ 32;
      count = suc v.count;
    }) in
    if v.c / 64 % 2 == 1
    then (if leb (length s) at || not (iscont cc) then none else rest)
    else some v

abbrev pub limit : ℕ → ℕ
limit zero = 0xFF
limit (suc zero) = 0x7F
limit (suc (suc zero)) = 0x7FF
limit (suc (suc (suc n))) = 0xFFFF

-- The code point and the number of bytes, from the end of the loop on.
unfoldable pub finish : Scan → Option (ℕ × ℕ)
finish v =
    let res = v.res + v.c % 128 * 2 ^ (v.count * 5) in
    if ltb 3 v.count || ltb max_unicode res || leb res (limit v.count)
    then none
    else some (res, suc v.count)

abbrev pub finish_scan : Option Scan → Option (ℕ × ℕ)
finish_scan none = none
finish_scan (some v) = finish v

-- A byte has at most seven bits below the top, so the loop makes at most seven rounds.
unfoldable pub utf8_decode : List ℕ → ℕ → Option (ℕ × ℕ)
unfolding scan finish
utf8_decode s i =
    let c = get_or s i 0 in
    if leb (length s) i
    then none
    else if ltb c 0x80
    then some (c, 1)
    else finish_scan (scan 8 s i (record { c = c; res = 0; count = 0 }))

unfoldable pub utf8_encode : ℕ → List ℕ
utf8_encode cp =
    if ltb cp 0x80
    then cp ∷ []
    else if ltb cp 0x800
    then (0xC0 + cp / 2 ^ 6) ∷ (0x80 + cp % 64) ∷ []
    else if ltb cp 0x10000
    then (0xE0 + cp / 2 ^ 12) ∷ (0x80 + cp / 2 ^ 6 % 64) ∷ (0x80 + cp % 64) ∷ []
    else (0xF0 + cp / 2 ^ 18)
      ∷ (0x80 + cp / 2 ^ 12 % 64)
      ∷ (0x80 + cp / 2 ^ 6 % 64)
      ∷ (0x80 + cp % 64)
      ∷ []

pub data Utf8Error : Type 0 where
  value_out_of_range initial_position final_position out_of_range slice_too_long invalid_code
        position_range continuation_byte :
      Utf8Error

-- The loop of `utf8_char` over its arguments. The test is on `static_cast<uint32_t>(code)`.
unfoldable pub utf8_char : List ℤ → Result Utf8Error (List ℕ)
unfolding utf8_encode
utf8_char [] = ok []
utf8_char (pos code ∷ codes) =
    if ltb max_unicode (code % 2 ^ 32)
    then err value_out_of_range
    else utf8_char codes >>= (λ out. ok (utf8_encode (code % 2 ^ 32) ++ out))
utf8_char (negsuc code ∷ codes) = err value_out_of_range

-- What `utf8_len` pushes: the count, or nil and a position.
pub data LenResult : Type 0 where
  count : ℕ → LenResult
  invalid_at : ℕ → LenResult

-- `while (posi <= posj)`, on positions from 0 up to `end`; a round moves on by at least one byte.
unfoldable pub len_loop : ℕ → List ℕ → ℕ → ℕ → ℕ → LenResult
unfolding utf8_decode
len_loop zero s p end n = count n
len_loop (suc fuel) s p end n = if leb end p then count n else elim (utf8_decode s p) [
  | none ↦ invalid_at (p + 1)
  | some (code, size) ↦ len_loop fuel s (p + size) end (n + 1)
]

abbrev pub arg_or : Option ℤ → ℤ → ℤ
arg_or none d = d
arg_or (some i) d = i

unfoldable pub utf8_len : List ℕ → Option ℤ → Option ℤ → Result Utf8Error LenResult
unfolding u_posrelat len_loop
utf8_len s i j =
    let posi = u_posrelat (arg_or i (pos 1)) (length s) in
    let posj = u_posrelat (arg_or j (negsuc 0)) (length s) in
    if not (leb 1 posi && leb (posi - 1) (length s))
    then err initial_position
    else if not (leb posj (length s))
    then err final_position
    else ok (len_loop (length s) s (posi - 1) posj 0)

-- `while (p < end)` of `utf8_codepoint`
unfoldable pub codes_loop : ℕ → List ℕ → ℕ → ℕ → Result Utf8Error (List ℕ)
unfolding utf8_decode
codes_loop zero s p end = ok []
codes_loop (suc fuel) s p end = if leb end p then ok [] else elim (utf8_decode s p) [
  | none ↦ err invalid_code
  | some (code, size) ↦ codes_loop fuel s (p + size) end >>= (λ codes. ok (code ∷ codes))
]

-- `INT_MAX`
abbrev pub max_slice : ℕ
max_slice = 2 ^ 31 - 1

unfoldable pub utf8_codepoint : List ℕ → Option ℤ → Option ℤ → Result Utf8Error (List ℕ)
unfolding u_posrelat codes_loop
utf8_codepoint s i j =
    let posi = u_posrelat (arg_or i (pos 1)) (length s) in
    let pose = u_posrelat (arg_or j (pos posi)) (length s) in
    if ltb posi 1
    then err out_of_range
    else if ltb (length s) pose
    then err out_of_range
    else if ltb pose posi
    then ok []
    else if leb max_slice (pose - posi)
    then err slice_too_long
    else codes_loop (length s) s (posi - 1) pose
