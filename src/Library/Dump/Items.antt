-- ===== src/Library/Dump/Items.antt =====
-- The parts of a prototype, written and read back.
use luajit.Common.{
  ℕ, ◌<◌, ◌^◌, ◌≡◌, refl, ap, arith, Bool, true, false, List, [], ◌∷◌, ◌++◌, length, ◌==◌,
}
use mathlib.Core.Bool.{not}
use luajit.Common.Int.{IsInt64}
use luajit.Common.Result.{ok}
use luajit.Library.Dump.Codec.{
  Reads, pure-Reads, bind-Reads, then-Reads, read_u8-Reads, read_u64-Reads, read_i64-Reads, IsInt32,
  read_int-Reads, read_bool-Reads, read_str-Reads, All, read_list-Reads,
}
use luajit.Library.Dump.Proto.{
  DoubleBits, Constant, nil, boolean, integer, number, string, other, UpvalDesc, LocVar, ProtoInfo,
}
use luajit.Library.Dump.Read.{
  pure, ◌>>=◌, read_u8, read_each, read_const, read_upvalue, read_locvar, read_back, source_or,
}
use luajit.Library.Dump.Write.{
  write_u8, write_u64, write_i64, write_int, write_bool, write_str, write_list, write_upvalue,
  write_locvar, write_const, write_consts, write_back,
}

-- What the code relies on: a double is its eight bytes.
pub record BitsLaws (F : Type 0) ⦃dbl : DoubleBits F⦄ : Type 0 where
  pub bits_lt : (d : F) → dbl.bits d < 2 ^ 64
  pub of_bits-bits : (d : F) → dbl.of_bits (dbl.bits d) ≡ d

-- Sizes and numbers that fit in the fields of a chunk, and no constant of another kind.
abbrev pub IsConstant : {F : Type 0} → Constant F → Type 0
IsConstant (integer n) = IsInt64 n
IsConstant (string s) = length s < 2 ^ 32
IsConstant other = ⊥
IsConstant _ = Unit

pub record IsInfo {F : Type 0} (p : ProtoInfo F) : Type 0 where
  pub params : IsInt32 p.numparams
  pub stack : IsInt32 p.maxstack
  pub size : length p.code < 2 ^ 32
  pub instructions : All (λ i. i < 2 ^ 32) p.code
  pub consts : length p.constants < 2 ^ 32
  pub kinds : All IsConstant p.constants
  pub name : length p.source < 2 ^ 32
  pub first : IsInt32 p.linedefined
  pub last : IsInt32 p.lastlinedefined
  pub ups : length p.upvalues < 2 ^ 32
  pub each_up : All (λ uv. (uv.idx < 256) × (length uv.name < 2 ^ 32)) p.upvalues
  pub lines : length p.lineinfo < 2 ^ 32
  pub each_line : All IsInt32 p.lineinfo
  pub vars : length p.locvars < 2 ^ 32
  pub each_var :
      All
        (λ lv. (length lv.name < 2 ^ 32) × IsInt32 lv.reg × IsInt32 lv.startpc × IsInt32 lv.endpc)
        p.locvars

module _ {F : Type 0} ⦃dbl : DoubleBits F⦄ (laws : BitsLaws F) where
  const_Reads :
      (k : Constant F)
      → IsConstant k
      → (bs : List ℕ) × (write_const k ≡ ok bs) × Reads read_const bs k
  unfolding write_const read_const
  const_Reads nil h =
      (write_u8 0, refl, then-Reads _ (write_u8 0) 0 nil (read_u8-Reads 0 (omega arith)) refl)
  const_Reads (boolean b) h = (
    _,
    refl,
    bind-Reads _ (write_u8 1) (write_bool b) 1 (boolean b) (read_u8-Reads 1 (omega arith))
        (bool_Reads b),
  )
    where
      bool_Reads :
          (b : Bool)
          → Reads
              (read_u8 >>= (λ n. pure {A = Constant F} (boolean (not (n == 0)))))
              (write_bool b)
              (boolean b)
      bool_Reads true =
          then-Reads _ (write_u8 1) 1 (boolean true) (read_u8-Reads 1 (omega arith)) refl
      bool_Reads false =
          then-Reads _ (write_u8 0) 0 (boolean false) (read_u8-Reads 0 (omega arith)) refl
  const_Reads (integer n) h = (
    _,
    refl,
    bind-Reads _ (write_u8 2) (write_i64 n) 2 (integer n) (read_u8-Reads 2 (omega arith))
        (then-Reads _ (write_i64 n) n (integer n) (read_i64-Reads n h) refl),
  )
  const_Reads (number d) h = (
    _,
    refl,
    bind-Reads _ (write_u8 3) (write_u64 (dbl.bits d)) 3 (number d) (read_u8-Reads 3 (omega arith))
        (then-Reads _ (write_u64 (dbl.bits d)) (dbl.bits d) (number d)
          (read_u64-Reads (dbl.bits d) (laws.bits_lt d))
          (ap (λ (x : F). pure (number x)) (laws.of_bits-bits d))),
  )
  const_Reads (string s) h = (
    _,
    refl,
    bind-Reads _ (write_u8 4) (write_str s) 4 (string s) (read_u8-Reads 4 (omega arith))
        (then-Reads _ (write_str s) s (string s) (read_str-Reads s h) refl),
  )
  const_Reads other h = absurd h

  pub consts_Reads :
      (ks : List (Constant F))
      → All IsConstant ks
      → (bs : List ℕ) × (write_consts ks ≡ ok bs) × Reads (read_each read_const (length ks)) bs ks
  unfolding write_consts read_each
  consts_Reads [] h = ([], refl, pure-Reads [])
  consts_Reads (k ∷ ks) (hk, h) =
      let (b, wb, rb) = const_Reads k hk in
      let (bs, wbs, rbs) = consts_Reads ks h in
      (
        b ++ bs,
        rw (wb, wbs),
        bind-Reads _ b bs k (k ∷ ks) rb (then-Reads _ bs ks (k ∷ ks) rbs refl),
      )

upvalue_Reads :
    (uv : UpvalDesc)
    → uv.idx < 256
    → length uv.name < 2 ^ 32
    → Reads read_upvalue (write_upvalue false uv) uv
unfolding read_upvalue write_upvalue
upvalue_Reads uv hi hn =
    bind-Reads _ (write_bool uv.instack) _ uv.instack uv (read_bool-Reads uv.instack) (
      bind-Reads _ (write_u8 uv.idx) _ uv.idx uv (read_u8-Reads uv.idx hi)
        (then-Reads _ (write_str uv.name) uv.name uv (read_str-Reads uv.name hn) refl))

locvar_Reads :
    (lv : LocVar)
    → length lv.name < 2 ^ 32
    → IsInt32 lv.reg
    → IsInt32 lv.startpc
    → IsInt32 lv.endpc
    → Reads read_locvar (write_locvar lv) lv
unfolding read_locvar write_locvar
locvar_Reads lv hn hr ha hb =
    bind-Reads _ (write_str lv.name) _ lv.name lv (read_str-Reads lv.name hn) (
      bind-Reads _ (write_int lv.reg) _ lv.reg lv (read_int-Reads lv.reg hr) (
        bind-Reads _ (write_int lv.startpc) _ lv.startpc lv (read_int-Reads lv.startpc ha)
          (then-Reads _ (write_int lv.endpc) lv.endpc lv (read_int-Reads lv.endpc hb) refl)))

pub All-map :
    {A : Type 0} {P Q : A → Type 0} (f : (x : A) → P x → Q x) (xs : List A) → All P xs → All Q xs
All-map f [] h = tt
All-map f (x ∷ xs) (hx, h) = (f x hx, All-map f xs h)

module _ {F : Type 0} where
  abbrev pub front_of : List ℕ → ProtoInfo F → ProtoInfo F
  front_of res p = record p {
    source = source_or res p.source;
    upvalues = [];
    lineinfo = [];
    locvars = [];
  }

  pub back_Reads :
      (res : List ℕ) (p : ProtoInfo F)
      → IsInfo p
      → Reads
          (read_back (front_of res p))
          (write_back false p)
          (record p { source = source_or res p.source })
  unfolding read_back
  back_Reads res p h =
      bind-Reads _ (write_list (write_upvalue false) p.upvalues) _ p.upvalues _
        (read_list-Reads read_upvalue (write_upvalue false) p.upvalues h.ups
          (All-map (λ uv k. upvalue_Reads uv k.0 k.1) p.upvalues h.each_up))
        (bind-Reads _ (write_list write_int p.lineinfo) (write_list write_locvar p.locvars)
          p.lineinfo _
          (read_list-Reads _ write_int p.lineinfo h.lines
            (All-map read_int-Reads p.lineinfo h.each_line))
          (then-Reads _ (write_list write_locvar p.locvars) p.locvars _
            (read_list-Reads read_locvar write_locvar p.locvars h.vars
              (All-map (λ lv (n, r, a, b). locvar_Reads lv n r a b) p.locvars h.each_var))
            refl))
