-- ===== src/Library/Dump/RoundTrip.antt =====
-- Undumping what was dumped, whole or cut short.
use Prim.Native.Nat.{max}
use luajit.Common.{
  ℕ, zero, suc, ◌≤◌, ◌<◌, ◌^◌, ◌≡◌, refl, ap, arith, false, List, same_bytes, same_bytes_sound, [],
  ◌∷◌, ◌++◌, length, length-append, Option, none, some, ◌⊎◌, inl, inr, Bool-cases, if◌then◌else◌,
}
use luajit.Common.Result.{ok}
use luajit.Library.Dump.Codec.{
  Reads, pure-Reads, bind-Reads, then-Reads, read_u32-Reads, read_int-Reads, read_bool-Reads,
  read_str-Reads, read_list-Reads,
}
use luajit.Library.Dump.Items.{BitsLaws, IsInfo, consts_Reads, back_Reads, front_of, All-map}
use luajit.Library.Dump.Proto.{DoubleBits, ProtoInfo, Proto, proto, Protos, no_protos, more}
use luajit.Library.Dump.Read.{
  pure, read_each, read_const, read_front, read_proto, source_or, to_protos,
}
use luajit.Library.Dump.Write.{
  write_u8, write_u32, write_int, write_bool, write_str, write_list, same_source, write_front,
  write_back, count_protos, write_proto, write_protos,
}

-- What the writer knows of the enclosing source, against what the reader has.
abbrev pub Agree : Option (List ℕ) → List ℕ → Type 0
Agree none res = Unit
Agree (some s) res = (s ≡ []) ⊎ (s ≡ res)

abbrev written_source : Option (List ℕ) → List ℕ → List ℕ
written_source parent s = if same_source parent s then [] else s

source_or_same : (s src res : List ℕ) → (s ≡ []) ⊎ (s ≡ res) → s ≡ src → res ≡ source_or res src
source_or_same s [] res agree e = refl
source_or_same s (c ∷ src) res (inl empty) e = cc
source_or_same s (c ∷ src) res (inr same) e = cc

source_or-written :
    (parent : Option (List ℕ)) (src res : List ℕ)
    → Agree parent res
    → source_or res (written_source parent src) ≡ source_or res src
source_or-written none src res agree = refl
source_or-written (some s) src res agree = elim (Bool-cases (same_bytes s src)) [
  | inr e ↦ rw e
  | inl e ↦ rw e (source_or_same s src res agree (same_bytes_sound s src e))
]

source_Agree : (src res : List ℕ) → Agree (some src) (source_or res src)
source_Agree [] res = inl refl
source_Agree (c ∷ src) res = inr refl

length-written :
    (parent : Option (List ℕ)) (src : List ℕ)
    → length src < 2 ^ 32
    → length (written_source parent src) < 2 ^ 32
length-written parent src h = ground arith

length-write_int : (p : ℕ) → length (write_u32 p) ≡ 4
unfolding write_u32 write_u8
length-write_int p = refl

module _ {F : Type 0} where
  -- The prototype that a chunk stands for: an empty source is the enclosing one's.
  unfoldable mutual
    pub resolved : List ℕ → Proto F → Proto F
    resolved res (proto p inner) =
        proto (record p { source = source_or res p.source })
          (to_protos (resolved_all (source_or res p.source) inner))

    pub resolved_all : List ℕ → Protos F → List (Proto F)
    resolved_all res no_protos = []
    resolved_all res (more p ps) = resolved res p ∷ resolved_all res ps

  unfoldable mutual
    pub depth : Proto F → ℕ
    depth (proto p inner) = suc (depth_all inner)

    depth_all : Protos F → ℕ
    depth_all no_protos = 0
    depth_all (more p ps) = max (depth p) (depth_all ps)

  -- Every part of every prototype fits in the fields of a chunk.
  unfoldable mutual
    pub IsDumpable : Proto F → Type 0
    IsDumpable (proto p inner) = IsInfo p × (count_protos inner < 2 ^ 32) × AllDumpable inner

    pub AllDumpable : Protos F → Type 0
    AllDumpable no_protos = Unit
    AllDumpable (more p ps) = IsDumpable p × AllDumpable ps

module _ {F : Type 0} ⦃dbl : DoubleBits F⦄ (laws : BitsLaws F) where
  front_Reads :
      (parent : Option (List ℕ)) (res : List ℕ) (p : ProtoInfo F) (consts : List ℕ)
      → Agree parent res
      → IsInfo p
      → Reads (read_each read_const (length p.constants)) consts p.constants
      → Reads (read_front res) (write_front false parent p consts) (front_of res p)
  unfolding read_front
  front_Reads parent res p consts agree h ks =
      bind-Reads _ (write_int p.numparams) _ p.numparams _ (read_int-Reads p.numparams h.params) (
        bind-Reads _ (write_bool p.is_vararg) _ p.is_vararg _ (read_bool-Reads p.is_vararg) (
          bind-Reads _ (write_int p.maxstack) _ p.maxstack _ (read_int-Reads p.maxstack h.stack) (
            bind-Reads _ (write_list write_u32 p.code) _ p.code _
              (read_list-Reads _ write_u32 p.code h.size
                (All-map read_u32-Reads p.code h.instructions))
              (bind-Reads _ (write_u32 (length p.constants) ++ consts) _ p.constants _
                (bind-Reads _ (write_u32 (length p.constants)) consts (length p.constants)
                  p.constants (read_u32-Reads (length p.constants) h.consts) ks)
                (bind-Reads _ (write_str (written_source parent p.source)) _
                  (written_source parent p.source) _
                  (read_str-Reads (written_source parent p.source)
                    (length-written parent p.source h.name))
                  (bind-Reads _ (write_int p.linedefined) (write_int p.lastlinedefined)
                    p.linedefined _ (read_int-Reads p.linedefined h.first)
                    (then-Reads _ (write_int p.lastlinedefined) p.lastlinedefined _
                      (read_int-Reads p.lastlinedefined h.last)
                      (ap
                        (λ (s : List ℕ).
                          pure
                            (record p { source = s; upvalues = []; lineinfo = []; locvars = [] }))
                        (source_or-written parent p.source res agree)))))))))

  abbrev pub Whole : Option (List ℕ) → List ℕ → Proto F → Type 0
  Whole parent res p =
      (bs : List ℕ) × (write_proto p false parent ≡ ok bs)
      × ((fuel : ℕ) → depth p ≤ fuel → Reads (read_proto fuel res) bs (resolved res p))
      × (depth p ≤ length bs)

  abbrev Wholes : Option (List ℕ) → List ℕ → Protos F → Type 0
  Wholes parent res ps =
      (bs : List ℕ) × (write_protos ps false parent ≡ ok bs)
      × ((fuel : ℕ)
          → depth_all ps ≤ fuel
          → Reads (read_each (read_proto fuel res) (count_protos ps)) bs (resolved_all res ps))
      × (depth_all ps ≤ length bs)

  assembled :
      (parent : Option (List ℕ)) (res : List ℕ) (p : ProtoInfo F) (inner : Protos F)
      → Agree parent res
      → IsInfo p
      → count_protos inner < 2 ^ 32
      → Wholes (some p.source) (source_or res p.source) inner
      → Whole parent res (proto p inner)
  unfolding write_proto read_proto depth resolved
  assembled parent res p inner agree h l (bs, wrote, reads, deep) =
      let (consts, wc, rc) = consts_Reads laws p.constants h.kinds in
      let front = write_front false parent p consts in
      let back = write_back false p in
      let count = write_u32 (count_protos inner) in
      (
        front ++ ((count ++ bs) ++ back),
        rw (wc, wrote),
        reads_at consts rc,
        omega (
          arith,
          deep,
          length-append front ((count ++ bs) ++ back),
          length-append (count ++ bs) back,
          length-append count bs,
          length-write_int (count_protos inner),
        ),
      )
    where
      reads_at :
          (consts : List ℕ)
          → Reads (read_each read_const (length p.constants)) consts p.constants
          → (fuel : ℕ) → suc (depth_all inner) ≤ fuel
          → Reads
              (read_proto fuel res)
              (write_front false parent p consts
                ++ ((write_u32 (count_protos inner) ++ bs) ++ write_back false p))
              (resolved res (proto p inner))
      reads_at consts rc zero d = absurd (omega arith)
      reads_at consts rc (suc fuel) d =
          bind-Reads _ (write_front false parent p consts) _ (front_of res p) _
            (front_Reads parent res p consts agree h rc)
            (bind-Reads _ (write_u32 (count_protos inner) ++ bs) (write_back false p)
              (resolved_all (source_or res p.source) inner) _
              (bind-Reads _ (write_u32 (count_protos inner)) bs (count_protos inner) _
                (read_u32-Reads (count_protos inner) l) (reads fuel (omega arith)))
              (then-Reads _ (write_back false p) (record p { source = source_or res p.source }) _
                (back_Reads res p h) refl))

  mutual
    unfolding write_proto depth resolved read_each IsDumpable

    pub proto_Reads :
        (p : Proto F) (parent : Option (List ℕ)) (res : List ℕ)
        → Agree parent res
        → IsDumpable p
        → Whole parent res p
    proto_Reads (proto p inner) parent res agree (h, l, all) =
        assembled parent res p inner agree h l (
          protos_Reads inner (some p.source) (source_or res p.source) (source_Agree p.source res)
            all)

    protos_Reads :
        (ps : Protos F) (parent : Option (List ℕ)) (res : List ℕ)
        → Agree parent res
        → AllDumpable ps
        → Wholes parent res ps
    protos_Reads no_protos parent res agree h = ([], refl, λ fuel d. pure-Reads [], omega arith)
    protos_Reads (more p ps) parent res agree (hp, h) =
        let (b, wb, rb, db) = proto_Reads p parent res agree hp in
        let (bs, wbs, rbs, dbs) = protos_Reads ps parent res agree h in
        (
          b ++ bs,
          rw (wb, wbs),
          λ fuel d.
              bind-Reads _ b bs (resolved res p) (resolved_all res (more p ps))
                (rb fuel (omega arith))
                (then-Reads _ bs (resolved_all res ps) (resolved_all res (more p ps))
                  (rbs fuel (omega arith)) refl),
          omega (arith, length-append b bs, db, dbs),
        )
