-- ===== src/Tests/Utf8.antt =====
-- UTF-8 at concrete strings.
use luajit.Common.{ℕ, List, [], ◌∷◌, ◌++◌, some, none, length, map, ◌≡◌, refl, arith}
use luajit.Common.Int.{pos, negsuc}
use luajit.Common.Result.{ok, ◌>>=◌}
use luajit.Library.Utf8.RoundTrip.{decode-encode}
use luajit.Library.Utf8.Strings.{encoded, AllCodes, utf8_codepoint-utf8_char, utf8_len-utf8_char}
use luajit.Library.Utf8.{count, utf8_char, utf8_codepoint, utf8_decode, utf8_encode, utf8_len}

-- One code point for each length of an encoding.
abbrev letters : List ℕ
letters = 0x41 ∷ 0xE9 ∷ 0x20AC ∷ 0x1F600 ∷ []

abbrev letters-AllCodes : AllCodes letters
letters-AllCodes = (omega arith, (omega arith, (omega arith, (omega arith, tt))))

abbrev before : List ℕ
before = 0x41 ∷ []

decode-encode_example :
    utf8_decode (before ++ (utf8_encode 0x20AC ++ (0x42 ∷ []))) (length before)
    ≡ some (0x20AC, length (utf8_encode 0x20AC))
decode-encode_example = decode-encode before (0x42 ∷ []) 0x20AC (omega arith)

utf8_codepoint-utf8_char_example :
    (utf8_char (map pos letters) >>= (λ s. utf8_codepoint s (some (pos 1)) (some (negsuc 0))))
    ≡ ok letters
unfolding encoded utf8_encode
utf8_codepoint-utf8_char_example = utf8_codepoint-utf8_char letters letters-AllCodes (omega arith)

utf8_len-utf8_char_example :
    (utf8_char (map pos letters) >>= (λ s. utf8_len s none none)) ≡ ok (count (length letters))
utf8_len-utf8_char_example = utf8_len-utf8_char letters letters-AllCodes

-- An encoding of 0 in two bytes is refused.
overlong : utf8_decode (0xC0 ∷ 0x80 ∷ []) 0 ≡ none
unfolding utf8_decode
overlong = refl
