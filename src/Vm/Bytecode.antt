-- ===== src/Vm/Bytecode.antt =====
-- The instruction word of src/vm/bytecode.hpp: 8-bit opcode, A, B, C; Bx and sBx over B and C.
-- `&` with 2 ^ k - 1 is `%`, a shift to the right is `/`, and `|` of disjoint fields is `+`.
pub mod Laws
use luajit.Common.{ℕ, ◌+◌, ◌-◌, ◌*◌, ◌/◌, ◌%◌, ◌^◌}
use luajit.Common.Int.{ℤ, pos, negsuc, sub_ℕ}

-- The opcode's number, `static_cast<uint8_t>(op)`.
unfoldable pub op_get : ℕ → ℕ
op_get i = i % 2 ^ 8

unfoldable pub op_a : ℕ → ℕ
op_a i = i / 2 ^ 8 % 2 ^ 8

unfoldable pub op_b : ℕ → ℕ
op_b i = i / 2 ^ 16 % 2 ^ 8

unfoldable pub op_c : ℕ → ℕ
op_c i = i / 2 ^ 24 % 2 ^ 8

unfoldable pub op_bx : ℕ → ℕ
op_bx i = i / 2 ^ 16 % 2 ^ 16

unfoldable pub op_sbx : ℕ → ℤ
unfolding op_bx
op_sbx i = sub_ℕ (op_bx i) 32768

unfoldable pub op_ax : ℕ → ℕ
op_ax i = i / 2 ^ 8

unfoldable pub encode_abc : ℕ → ℕ → ℕ → ℕ → ℕ
encode_abc op a b c = op + a * 2 ^ 8 + b * 2 ^ 16 + c * 2 ^ 24

unfoldable pub encode_abx : ℕ → ℕ → ℕ → ℕ
encode_abx op a bx = op + a * 2 ^ 8 + bx * 2 ^ 16

-- `static_cast<uint16_t>(sbx + 32768)`
unfoldable pub bias : ℤ → ℕ
bias (pos n) = (n + 32768) % 2 ^ 16
bias (negsuc n) = (2 ^ 16 - 1 - n % 2 ^ 16 + 32768) % 2 ^ 16

unfoldable pub encode_asbx : ℕ → ℕ → ℤ → ℕ
unfolding encode_abx bias
encode_asbx op a sbx = encode_abx op a (bias sbx)

unfoldable pub encode_ax : ℕ → ℕ → ℕ
encode_ax op ax = op + ax % 2 ^ 24 * 2 ^ 8
