-- ===== src/Vm/Bytecode/Laws.antt =====
-- Encoding and decoding of instruction words (src/vm/bytecode.hpp).
use luajit.Common.{ℕ, ◌^◌, ◌<◌, ◌≡◌, arith}
use luajit.Common.Int.{ℤ, pos, negsuc}
use luajit.Vm.Bytecode.{op_get, op_a, op_b, op_c, op_sbx, op_ax, encode_abc, encode_asbx, encode_ax}

-- The four fields read back what was encoded, when each fits in its byte.
pub decode-encode_abc :
    (op a b c : ℕ)
    → op < 2 ^ 8
    → a < 2 ^ 8
    → b < 2 ^ 8
    → c < 2 ^ 8
    → (op_get (encode_abc op a b c) ≡ op)
      × (op_a (encode_abc op a b c) ≡ a)
      × (op_b (encode_abc op a b c) ≡ b)
      × (op_c (encode_abc op a b c) ≡ c)
unfolding op_get op_a op_b op_c encode_abc
decode-encode_abc op a b c ho ha hb hc = omega arith

-- Every 32-bit word is the encoding of the fields that are read from it.
pub encode_abc-decode : (i : ℕ) → i < 2 ^ 32 → encode_abc (op_get i) (op_a i) (op_b i) (op_c i) ≡ i
unfolding op_get op_a op_b op_c encode_abc
encode_abc-decode i h = omega arith

abbrev pub IsJump : ℤ → Type 0
IsJump (pos n) = n < 32768
IsJump (negsuc n) = n < 32768

-- A jump in the 16-bit range reads back with its sign, and leaves opcode and A alone.
pub decode-encode_asbx :
    (op a : ℕ) (sbx : ℤ)
    → op < 2 ^ 8
    → a < 2 ^ 8
    → IsJump sbx
    → (op_get (encode_asbx op a sbx) ≡ op)
      × (op_a (encode_asbx op a sbx) ≡ a)
      × (op_sbx (encode_asbx op a sbx) ≡ sbx)
unfolding op_get op_a op_sbx encode_asbx
decode-encode_asbx op a (pos n) ho ha hs = (omega arith, omega arith, ground arith)
decode-encode_asbx op a (negsuc n) ho ha hs = (omega arith, omega arith, ground arith)

-- The 24-bit operand of EXTRAARG reads back, and the opcode is kept.
decode-encode_ax :
    (op ax : ℕ)
    → op < 2 ^ 8
    → ax < 2 ^ 24
    → (op_get (encode_ax op ax) ≡ op) × (op_ax (encode_ax op ax) ≡ ax)
unfolding op_get op_ax encode_ax
decode-encode_ax op ax ho ha = omega arith
