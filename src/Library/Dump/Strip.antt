-- ===== src/Library/Dump/Strip.antt =====
-- A stripped dump is the dump of a prototype without its names.
use luajit.Common.{
  ℕ, suc, ◌≡◌, refl, ap, true, false, List, [], ◌∷◌, ◌++◌, length-map, map, Option, some,
}
use luajit.Library.Dump.Proto.{
  DoubleBits, UpvalDesc, ProtoInfo, Proto, proto, Protos, no_protos, more,
}
use luajit.Library.Dump.Write.{
  write_u8, write_u32, write_bool, write_str, write_each, write_upvalue, effective_source,
  write_back, count_protos, write_proto, write_protos,
}

abbrev nameless : UpvalDesc → UpvalDesc
nameless uv = record uv { name = [] }

module _ {F : Type 0} where
  -- What is left of a prototype when a dump strips it.
  abbrev strip_info : ProtoInfo F → ProtoInfo F
  strip_info p = record p {
    source = effective_source true p;
    upvalues = map nameless p.upvalues;
    lineinfo = [];
    locvars = [];
  }

  unfoldable mutual
    pub stripped : Proto F → Proto F
    stripped (proto p inner) = proto (strip_info p) (stripped_all inner)

    pub stripped_all : Protos F → Protos F
    stripped_all no_protos = no_protos
    stripped_all (more p ps) = more (stripped p) (stripped_all ps)

  count-stripped : (ps : Protos F) → count_protos (stripped_all ps) ≡ count_protos ps
  unfolding stripped
  count-stripped no_protos = refl
  count-stripped (more p ps) = ap suc (count-stripped ps)

write_each-nameless :
    (ups : List UpvalDesc)
    → write_each (write_upvalue true) ups ≡ write_each (write_upvalue false) (map nameless ups)
unfolding write_each write_upvalue
write_each-nameless [] = refl
write_each-nameless (uv ∷ ups) =
    ap (λ (bs : List ℕ). (write_bool uv.instack ++ (write_u8 uv.idx ++ write_str [])) ++ bs)
      (write_each-nameless ups)

module _ {F : Type 0} ⦃dbl : DoubleBits F⦄ where
  back-stripped : (p : ProtoInfo F) → write_back true p ≡ write_back false (strip_info p)
  unfolding write_each write_u32
  back-stripped p = rw (length-map p.upvalues nameless, write_each-nameless p.upvalues)

  mutual
    unfolding write_proto stripped

    pub write-stripped :
        (p : Proto F) (parent : Option (List ℕ))
        → write_proto p true parent ≡ write_proto (stripped p) false parent
    write-stripped (proto p inner) parent = rw (
      write_all-stripped inner (some (effective_source true p)),
      count-stripped inner,
      back-stripped p,
    )

    write_all-stripped :
        (ps : Protos F) (parent : Option (List ℕ))
        → write_protos ps true parent ≡ write_protos (stripped_all ps) false parent
    write_all-stripped no_protos parent = refl
    write_all-stripped (more p ps) parent =
        rw (write-stripped p parent, write_all-stripped ps parent)
