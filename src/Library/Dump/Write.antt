-- ===== src/Library/Dump/Write.antt =====
-- The writer of binary chunks: `Writer`, `write_const`, `write_proto` and `dump_proto` of
-- src/lib/ldump.cpp. Each function returns the bytes that it appends.
use luajit.Common.{
  ℕ, zero, suc, ◌*◌, ◌/◌, ◌%◌, ◌^◌, Bool, false, List, same_bytes, [], ◌∷◌, ◌++◌, length,
  if◌then◌else◌, Option, some, none,
}
use luajit.Common.Int.{ℤ, to_word}
use luajit.Common.Result.{Result, ok, err, ◌>>=◌}
use luajit.Library.Dump.Proto.{
  DoubleBits, Constant, nil, boolean, integer, number, string, other, UpvalDesc, LocVar, ProtoInfo,
  Proto, proto, Protos, no_protos, more, DumpError, unsupported_constant, to_word32, signature,
  luac_data, luac_int,
}

unfoldable pub write_u8 : ℕ → List ℕ
write_u8 v = v % 256 ∷ []

-- `for (int i = 0; i < n; ++i) u8((v >> (i * 8)) & 0xFF)`, from round i on with k rounds left
unfoldable pub write_le : ℕ → ℕ → ℕ → List ℕ
unfolding write_u8
write_le zero i v = []
write_le (suc k) i v = write_u8 (v / 2 ^ (i * 8) % 256) ++ write_le k (suc i) v

unfoldable pub write_u32 : ℕ → List ℕ
unfolding write_le
write_u32 v = write_le 4 0 (v % 2 ^ 32)

unfoldable pub write_u64 : ℕ → List ℕ
unfolding write_le
write_u64 v = write_le 8 0 v

abbrev pub write_i64 : ℤ → List ℕ
write_i64 v = write_u64 (to_word v)

abbrev pub write_int : ℤ → List ℕ
write_int v = write_u32 (to_word32 v)

abbrev pub write_bool : Bool → List ℕ
write_bool b = write_u8 (if b then 1 else 0)

unfoldable pub write_str : List ℕ → List ℕ
unfolding write_u32
write_str s = write_u32 (length s) ++ s

-- A count and the items, one after the other.
unfoldable pub write_each : {A : Type 0} → (A → List ℕ) → List A → List ℕ
write_each write [] = []
write_each write (x ∷ xs) = write x ++ write_each write xs

abbrev pub write_list : {A : Type 0} → (A → List ℕ) → List A → List ℕ
write_list write xs = write_u32 (length xs) ++ write_each write xs

-- `parent_source && *parent_source == effective_source`
abbrev pub same_source : Option (List ℕ) → List ℕ → Bool
same_source none s = false
same_source (some parent) s = same_bytes parent s

unfoldable pub write_upvalue : Bool → UpvalDesc → List ℕ
write_upvalue strip uv =
    write_bool uv.instack ++ (write_u8 uv.idx ++ write_str (if strip then [] else uv.name))

unfoldable pub write_locvar : LocVar → List ℕ
write_locvar lv =
    write_str lv.name ++ (write_int lv.reg ++ (write_int lv.startpc ++ write_int lv.endpc))

module _ {F : Type 0} where
  abbrev pub effective_source : Bool → ProtoInfo F → List ℕ
  effective_source strip p = if strip then b'=' ∷ b'?' ∷ [] else p.source

  -- What stands before the prototypes inside, given the bytes of the constants.
  abbrev pub write_front : Bool → Option (List ℕ) → ProtoInfo F → List ℕ → List ℕ
  write_front strip parent p consts =
      let source = effective_source strip p in
      write_int p.numparams
      ++ (write_bool p.is_vararg
          ++ (write_int p.maxstack
              ++ (write_list write_u32 p.code
                  ++ ((write_u32 (length p.constants) ++ consts)
                      ++ (write_str (if same_source parent source then [] else source)
                          ++ (write_int p.linedefined ++ write_int p.lastlinedefined))))))

  -- What stands behind them.
  abbrev pub write_back : Bool → ProtoInfo F → List ℕ
  write_back strip p =
      write_list (write_upvalue strip) p.upvalues
      ++ (if strip
          then write_u32 0 ++ write_u32 0
          else write_list write_int p.lineinfo ++ write_list write_locvar p.locvars)

  abbrev pub count_protos : Protos F → ℕ
  count_protos no_protos = 0
  count_protos (more p ps) = suc (count_protos ps)

  abbrev pub upvalue_count : Proto F → ℕ
  upvalue_count (proto p inner) = length p.upvalues

module _ {F : Type 0} ⦃dbl : DoubleBits F⦄ where
  unfoldable pub write_const : Constant F → Result DumpError (List ℕ)
  write_const nil = ok (write_u8 0)
  write_const (boolean b) = ok (write_u8 1 ++ write_bool b)
  write_const (integer n) = ok (write_u8 2 ++ write_i64 n)
  write_const (number d) = ok (write_u8 3 ++ write_u64 (dbl.bits d))
  write_const (string s) = ok (write_u8 4 ++ write_str s)
  write_const other = err unsupported_constant

  unfoldable pub write_consts : List (Constant F) → Result DumpError (List ℕ)
  unfolding write_const
  write_consts [] = ok []
  write_consts (k ∷ ks) = do first ← write_const k; rest ← write_consts ks; ok (first ++ rest)

  unfoldable mutual
    unfolding write_consts

    pub write_proto : Proto F → Bool → Option (List ℕ) → Result DumpError (List ℕ)
    write_proto (proto p inner) strip parent = do
      consts ← write_consts p.constants
      protos ← write_protos inner strip (some (effective_source strip p))
      ok (
          write_front strip parent p consts
          ++ ((write_u32 (count_protos inner) ++ protos) ++ write_back strip p))

    pub write_protos : Protos F → Bool → Option (List ℕ) → Result DumpError (List ℕ)
    write_protos no_protos strip parent = ok []
    write_protos (more p ps) strip parent = do
      first ← write_proto p strip parent
      rest ← write_protos ps strip parent
      ok (first ++ rest)

  -- `sizeof` is 4 for int, and 8 for size_t, int64_t and double. `luac_num` is the double 370.5.
  abbrev pub header : F → List ℕ
  header luac_num =
      signature
      ++ (write_u8 0x53
          ++ (write_u8 0
              ++ (luac_data
                  ++ (write_u8 4
                      ++ (write_u8 8
                          ++ (write_u8 4
                              ++ (write_u8 8
                                  ++ (write_u8 8
                                      ++ (write_i64 luac_int
                                          ++ write_u64 (dbl.bits luac_num))))))))))

  unfoldable pub dump_proto : F → Proto F → Bool → Result DumpError (List ℕ)
  unfolding write_proto
  dump_proto luac_num p strip = do
    body ← write_proto p strip none
    ok (header luac_num ++ (write_u8 (upvalue_count p) ++ (write_bool strip ++ body)))
