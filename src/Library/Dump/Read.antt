-- ===== src/Library/Dump/Read.antt =====
-- The reader of binary chunks: `Reader`, `read_const`, `read_proto`, `check_header` and `undump_proto`
-- of src/lib/ldump.cpp. A reader's state is the data from `pos_` on.
use luajit.Common.{
  ℕ, zero, suc, ◌+◌, ◌*◌, ◌^◌, Bool, not, List, [], ◌∷◌, length, take, drop, ltb, ◌==◌,
  if◌then◌else◌,
}
use luajit.Common.Int.{ℤ, of_word}
use luajit.Common.Result.{Result, ok, err}
use luajit.Runtime.Value.{int_eq}
use luajit.Library.Dump.Proto.{
  DoubleBits, Constant, nil, boolean, integer, number, string, UpvalDesc, LocVar, ProtoInfo, Proto,
  proto, Protos, no_protos, more, DumpError, of_word32, signature, luac_data, luac_int, truncated,
  not_a_binary_chunk, version_mismatch, format_mismatch, corrupted, int_size_mismatch,
  size_t_size_mismatch, instruction_size_mismatch, integer_size_mismatch, number_size_mismatch,
  endianness_mismatch, float_format_mismatch, bad_constant_tag, out_of_fuel,
}

abbrev pub Reader : Type 0 → Type 0
Reader A = List ℕ → Result DumpError (A × List ℕ)

abbrev pub pure : {A : Type 0} → A → Reader A
pure a s = ok (a, s)

abbrev pub panic : {A : Type 0} → DumpError → Reader A
panic e s = err e

abbrev pub continue :
    {A B : Type 0} → Result DumpError (A × List ℕ) → (A → Reader B) → Result DumpError (B × List ℕ)
continue (ok (a, s)) f = f a s
continue (err e) f = err e

infixl 5 ◌>>=◌
infixr 4 ◌>>◌
abbrev pub ◌>>=◌ : {A B : Type 0} → Reader A → (A → Reader B) → Reader B
r >>= f = λ s. continue (r s) f

abbrev pub ◌>>◌ : {A B : Type 0} → Reader A → Reader B → Reader B
r >> q = r >>= (λ _. q)

unfoldable pub read_u8 : Reader ℕ
read_u8 [] = err truncated
read_u8 (b ∷ s) = ok (b, s)

-- `v |= u8() << (i * 8)`, from round i on with k rounds left
unfoldable pub read_le : ℕ → ℕ → ℕ → Reader ℕ
unfolding read_u8
read_le zero i v = pure v
read_le (suc k) i v = read_u8 >>= (λ b. read_le k (suc i) (v + b * 2 ^ (i * 8)))

abbrev pub read_u32 : Reader ℕ
read_u32 = read_le 4 0 0

abbrev pub read_u64 : Reader ℕ
read_u64 = read_le 8 0 0

abbrev pub read_i64 : Reader ℤ
read_i64 = read_u64 >>= (λ u. pure (of_word u))

abbrev pub read_int : Reader ℤ
read_int = read_u32 >>= (λ u. pure (of_word32 u))

-- `u8() != 0`
abbrev pub read_bool : Reader Bool
read_bool = read_u8 >>= (λ b. pure (not (b == 0)))

-- The test `pos_ + n > data_.size()` and the copy.
unfoldable pub read_bytes : ℕ → Reader (List ℕ)
read_bytes n s = if ltb (length s) n then err truncated else ok (take n s, drop n s)

abbrev pub read_str : Reader (List ℕ)
read_str = read_u32 >>= read_bytes

-- `for (i = 0; i < n; ++i)`
unfoldable pub read_each : {A : Type 0} → Reader A → ℕ → Reader (List A)
read_each read zero = pure []
read_each read (suc n) = read >>= (λ x. read_each read n >>= (λ xs. pure (x ∷ xs)))

abbrev pub read_list : {A : Type 0} → Reader A → Reader (List A)
read_list read = read_u32 >>= read_each read

unfoldable pub read_upvalue : Reader UpvalDesc
read_upvalue = read_bool >>= (λ b.
    read_u8 >>= (λ i. read_str >>= (λ s. pure (record { instack = b; idx = i; name = s }))))

unfoldable pub read_locvar : Reader LocVar
read_locvar = read_str >>= (λ s. read_int >>= (λ r.
    read_int
    >>= (λ a. read_int >>= (λ b. pure (record { name = s; reg = r; startpc = a; endpc = b })))))

unfoldable pub expect_bytes : DumpError → List ℕ → Reader Unit
unfolding read_u8
expect_bytes what [] = pure tt
expect_bytes what (e ∷ es) =
    read_u8 >>= (λ b s. if b == e then expect_bytes what es s else err what)

-- `if (r.u8() != n) panic(what)`
abbrev pub expect_u8 : ℕ → DumpError → Reader Unit
expect_u8 n what = read_u8 >>= (λ b. if b == n then pure tt else panic what)

abbrev pub to_protos : {F : Type 0} → List (Proto F) → Protos F
to_protos [] = no_protos
to_protos (p ∷ ps) = more p (to_protos ps)

-- `src.empty() ? parent_source : src`
abbrev pub source_or : List ℕ → List ℕ → List ℕ
source_or parent [] = parent
source_or parent (c ∷ s) = c ∷ s

abbrev pub result_of : {A : Type 0} → Result DumpError (A × List ℕ) → Result DumpError A
result_of (ok (a, s)) = ok a
result_of (err e) = err e

module _ {F : Type 0} where
  -- What stands behind the prototypes inside.
  unfoldable pub read_back : ProtoInfo F → Reader (ProtoInfo F)
  unfolding read_upvalue read_locvar
  read_back p = read_list read_upvalue >>= (λ ups. read_list read_int >>= (λ lines.
      read_list read_locvar
      >>= (λ vars. pure (record p { upvalues = ups; lineinfo = lines; locvars = vars }))))

module _ {F : Type 0} ⦃dbl : DoubleBits F⦄ where
  abbrev pub const_with : ℕ → Reader (Constant F)
  const_with zero = pure nil
  const_with (suc zero) = read_u8 >>= (λ b. pure (boolean (not (b == 0))))
  const_with (suc (suc zero)) = read_i64 >>= (λ n. pure (integer n))
  const_with (suc (suc (suc zero))) = read_u64 >>= (λ b. pure (number (dbl.of_bits b)))
  const_with (suc (suc (suc (suc zero)))) = read_str >>= (λ s. pure (string s))
  const_with _ = panic bad_constant_tag

  unfoldable pub read_const : Reader (Constant F)
  read_const = read_u8 >>= const_with

  -- What stands before the prototypes inside.
  unfoldable pub read_front : List ℕ → Reader (ProtoInfo F)
  unfolding read_const
  read_front parent = read_int >>= (λ params. read_bool >>= (λ vararg. read_int >>= (λ size.
      read_list read_u32 >>= (λ instructions. read_list read_const >>= (λ consts.
        read_str >>= (λ src. read_int >>= (λ first. read_int >>= (λ last. pure (record {
          numparams = params;
          is_vararg = vararg;
          maxstack = size;
          code = instructions;
          constants = consts;
          source = source_or parent src;
          linedefined = first;
          lastlinedefined = last;
          upvalues = [];
          lineinfo = [];
          locvars = [];
        })))))))))

  -- Fuel for the depth of the prototypes.
  unfoldable pub read_proto : ℕ → List ℕ → Reader (Proto F)
  unfolding read_front read_back
  read_proto zero parent = panic out_of_fuel
  read_proto (suc fuel) parent = read_front parent >>= (λ front.
      read_list (read_proto fuel front.source)
      >>= (λ inner. read_back front >>= (λ whole. pure (proto whole (to_protos inner)))))

  unfoldable pub check_header : F → Reader Unit
  unfolding expect_bytes
  check_header luac_num =
      expect_bytes not_a_binary_chunk signature
      >> expect_u8 0x53 version_mismatch
      >> expect_u8 0 format_mismatch
      >> expect_bytes corrupted luac_data
      >> expect_u8 4 int_size_mismatch
      >> expect_u8 8 size_t_size_mismatch
      >> expect_u8 4 instruction_size_mismatch
      >> expect_u8 8 integer_size_mismatch
      >> expect_u8 8 number_size_mismatch
      >> (read_i64 >>= (λ i. if int_eq i luac_int then pure tt else panic endianness_mismatch))
      >> (read_u64 >>= (λ b.
          if dbl.eq (dbl.of_bits b) luac_num then pure tt else panic float_format_mismatch))

  unfoldable pub chunk_reader : ℕ → F → List ℕ → Reader (Proto F)
  unfolding check_header read_proto
  chunk_reader fuel luac_num name =
      check_header luac_num >> read_u8 >> read_u8 >> read_proto fuel name

  -- The number of upvalues and the strip flag are read and not used.
  unfoldable pub undump_proto : ℕ → F → List ℕ → List ℕ → Result DumpError (Proto F)
  unfolding chunk_reader
  undump_proto fuel luac_num [] name = err not_a_binary_chunk
  undump_proto fuel luac_num (b ∷ blob) name =
      if not (b == 0x1B)
      then err not_a_binary_chunk
      else result_of (chunk_reader fuel luac_num name (b ∷ blob))
