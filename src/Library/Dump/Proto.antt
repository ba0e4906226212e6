-- ===== src/Library/Dump/Proto.antt =====
-- Prototypes as a chunk holds them (`Proto` and `LocVar` of src/runtime/closure.hpp, `UpvalDesc` of
-- src/vm/bytecode.hpp). A string is its bytes, a constant that is a string too, since strings are
-- interned; `other` is a constant of a kind that no chunk holds. An `int` is an integer. The cached
-- closure of a prototype is no part of it.
use luajit.Common.{ℕ, ◌-◌, ◌%◌, ◌^◌, Bool, List, [], ◌∷◌, ltb, if◌then◌else◌}
use luajit.Common.Int.{ℤ, pos, negsuc}

-- A double as its eight bytes, and back: `memcpy`.
pub record DoubleBits (F : Type 0) : Type 0 where
  pub bits : F → ℕ
  pub of_bits : ℕ → F
  pub eq : F → F → Bool

pub data Constant (F : Type 0) : Type 0 where
  nil : Constant F
  boolean : Bool → Constant F
  integer : ℤ → Constant F
  number : F → Constant F
  string : List ℕ → Constant F
  other : Constant F

pub record UpvalDesc : Type 0 where
  pub instack : Bool
  pub idx : ℕ
  pub name : List ℕ

pub record LocVar : Type 0 where
  pub name : List ℕ
  pub reg : ℤ
  pub startpc : ℤ
  pub endpc : ℤ

-- The fields of a prototype but for the prototypes inside it.
pub record ProtoInfo (F : Type 0) : Type 0 where
  pub numparams : ℤ
  pub is_vararg : Bool
  pub maxstack : ℤ
  pub code : List ℕ
  pub constants : List (Constant F)
  pub source : List ℕ
  pub linedefined : ℤ
  pub lastlinedefined : ℤ
  pub upvalues : List UpvalDesc
  pub lineinfo : List ℤ
  pub locvars : List LocVar

mutual
  pub data Proto (F : Type 0) : Type 0 where
    proto : ProtoInfo F → Protos F → Proto F

  pub data Protos (F : Type 0) : Type 0 where
    no_protos : Protos F
    more : Proto F → Protos F → Protos F

pub data DumpError : Type 0 where
  unsupported_constant truncated not_a_binary_chunk version_mismatch format_mismatch corrupted :
      DumpError
  int_size_mismatch size_t_size_mismatch instruction_size_mismatch integer_size_mismatch : DumpError
  number_size_mismatch endianness_mismatch float_format_mismatch bad_constant_tag out_of_fuel :
      DumpError

-- `static_cast<uint32_t>` of an `int`, and back.
unfoldable pub to_word32 : ℤ → ℕ
to_word32 (pos n) = n % 2 ^ 32
to_word32 (negsuc n) = 2 ^ 32 - 1 - n % 2 ^ 32

unfoldable pub of_word32 : ℕ → ℤ
of_word32 w = if ltb w (2 ^ 31) then pos w else negsuc (2 ^ 32 - 1 - w)

-- The header's constants.
abbrev pub signature : List ℕ
signature = 0x1B ∷ b'L' ∷ b'u' ∷ b'a' ∷ []

abbrev pub luac_data : List ℕ
luac_data = 0x19 ∷ 0x93 ∷ b'\r' ∷ b'\n' ∷ 0x1A ∷ b'\n' ∷ []

abbrev pub luac_int : ℤ
luac_int = pos 0x5678
