-- ===== src/Tests/Words.antt =====
-- Instruction words and integer arithmetic at concrete inputs.
use luajit.Common.{suc, ◌*◌, ◌/◌, ◌%◌, ◌^◌, [], ◌∷◌, ◌≡◌, arith}
use luajit.Common.Int.{pos, negsuc, ◌+ℤ◌, to_word, word_mod}
use luajit.Jit.Ic.{fresh_slot, observe_all, observe_all-summary, summary}
use luajit.Runtime.Value.{ValueTag}
use luajit.Vm.Arith.Floor.{Divides, idiv_mod-IsFloor}
use luajit.Vm.Arith.Wrap.{intop_add-exact, to_word-shiftl}
use luajit.Vm.Arith.{int_idiv, int_mod, intop_add, shiftl}
use luajit.Vm.Bytecode.Laws.{decode-encode_abc, encode_abc-decode, decode-encode_asbx}
use luajit.Vm.Bytecode.{op_get, op_a, op_b, op_c, op_sbx, encode_abc, encode_asbx}

idiv_mod-IsFloor_example :
    Divides (negsuc 6) (pos 2) (int_idiv (negsuc 6) (pos 2)) (int_mod (negsuc 6) (pos 2))
idiv_mod-IsFloor_example =
    idiv_mod-IsFloor (negsuc 6) (pos 2) (omega arith) (λ e. ground arith) (λ e. ground arith)

intop_add-exact_example : intop_add (pos 5) (negsuc 8) ≡ pos 5 +ℤ negsuc 8
unfolding ◌+ℤ◌
intop_add-exact_example =
    intop_add-exact (pos 5) (negsuc 8) (omega arith) (omega arith) (omega arith)

to_word-shiftl_example :
    (to_word (shiftl (negsuc 0) (pos 70)) ≡ to_word (negsuc 0) * 2 ^ 70 % word_mod)
    × (to_word (shiftl (negsuc 0) (negsuc 70)) ≡ to_word (negsuc 0) / 2 ^ suc 70)
to_word-shiftl_example = to_word-shiftl (negsuc 0) 70

decode-encode_abc_example :
    (op_get (encode_abc 8 1 2 3) ≡ 8)
    × (op_a (encode_abc 8 1 2 3) ≡ 1)
    × (op_b (encode_abc 8 1 2 3) ≡ 2)
    × (op_c (encode_abc 8 1 2 3) ≡ 3)
decode-encode_abc_example =
    decode-encode_abc 8 1 2 3 (omega arith) (omega arith) (omega arith) (omega arith)

encode_abc-decode_example :
    encode_abc (op_get 0x01020304) (op_a 0x01020304) (op_b 0x01020304) (op_c 0x01020304)
    ≡ 0x01020304
encode_abc-decode_example = encode_abc-decode 0x01020304 (omega arith)

decode-encode_asbx_example :
    (op_get (encode_asbx 51 0 (negsuc 9)) ≡ 51)
    × (op_a (encode_asbx 51 0 (negsuc 9)) ≡ 0)
    × (op_sbx (encode_asbx 51 0 (negsuc 9)) ≡ negsuc 9)
decode-encode_asbx_example =
    decode-encode_asbx 51 0 (negsuc 9) (omega arith) (omega arith) (omega arith)

observe_all-summary_example :
    observe_all fresh_slot (ValueTag.int ∷ ValueTag.int ∷ ValueTag.float ∷ [])
    ≡ summary (ValueTag.int ∷ ValueTag.int ∷ ValueTag.float ∷ [])
observe_all-summary_example =
    observe_all-summary (ValueTag.int ∷ ValueTag.int ∷ ValueTag.float ∷ [])
