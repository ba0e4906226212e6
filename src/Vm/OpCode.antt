-- ===== src/Vm/OpCode.antt =====
-- The operation codes of src/vm/bytecode.hpp.

pub data OpCode : Type 0 where
  move loadnil loadbool loadint loadfloat loadk loadkx extraarg : OpCode
  add sub mul div idiv modulo pow band bor bxor shl shr unm bnot not len concat : OpCode
  eq lt le test testset : OpCode
  newtable gettable settable getfield setfield geti seti gettabup settabup setlist : OpCode
  closure getupval setupval call tailcall return vararg self : OpCode
  jmp forprep forloop tforcall tforloop checkgc safepoint op_count : OpCode
