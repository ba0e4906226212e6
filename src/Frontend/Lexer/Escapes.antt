-- ===== src/Frontend/Lexer/Escapes.antt =====
-- Escapes in strings against the UTF-8 library, src/lib/lutf8lib.cpp.
use luajit.Common.{ℕ, ◌≤◌, ◌≡◌, arith}
use luajit.Frontend.Lexer.Strings.{utf8_bytes}
use luajit.Library.Utf8.{utf8_encode}

-- The bytes of a \u{} escape are those of `utf8.char`, for each code point that the lexer takes.
pub utf8_bytes-utf8_encode : (cp : ℕ) → cp ≤ 0x10FFFF → utf8_bytes cp ≡ utf8_encode cp
unfolding utf8_bytes utf8_encode
utf8_bytes-utf8_encode cp h = ground arith
