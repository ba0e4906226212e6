-- ===== src/Library/Dump/Total.antt =====
-- Undumping ends on any data: each reader moves forward or stops, and a prototype reads at least one
-- byte before the prototypes inside it.
use luajit.Common.{
  ℕ, zero, suc, ◌+◌, ◌*◌, ◌≤◌, ◌<◌, ◌^◌, ◌≡◌, ◌≢◌, arith, Bool, true, false, Bool-cases, inl, inr,
  List, [], ◌∷◌, length, length-drop_le, ltb, ◌==◌, if◌then◌else◌, not,
}
use luajit.Common.Result.{Result, ok, err}
use luajit.Runtime.Value.{int_eq}
use luajit.Library.Dump.Proto.{
  DoubleBits, DumpError, Proto, ProtoInfo, signature, luac_data, luac_int, truncated,
  not_a_binary_chunk, out_of_fuel,
}
use luajit.Library.Dump.Read.{
  Reader, pure, panic, continue, ◌>>=◌, read_u8, read_le, read_u32, read_u64, read_i64, read_int,
  read_bool, read_bytes, read_str, read_each, read_list, read_upvalue, read_locvar, expect_bytes,
  expect_u8, result_of, read_back, const_with, read_const, read_front, read_proto, check_header,
  chunk_reader, undump_proto,
}

-- A read of s stops with an error of its own, or leaves at least k bytes fewer.
abbrev pub Ends : {A : Type 0} → ℕ → List ℕ → Result DumpError (A × List ℕ) → Type 0
Ends k s (ok (a, rest)) = length rest + k ≤ length s
Ends k s (err e) = e ≢ out_of_fuel

-- It does on data shorter than n.
abbrev pub Drops : {A : Type 0} → ℕ → ℕ → Reader A → Type 0
Drops k n r = (s : List ℕ) → length s < n → Ends k s (r s)

module _ {A : Type 0} where
  Ends-after :
      (k : ℕ) (s rest : List ℕ) (x : Result DumpError (A × List ℕ))
      → length rest + k ≤ length s
      → Ends 0 rest x
      → Ends k s x
  Ends-after k s rest (ok (a, t)) l h = omega (arith, l, h)
  Ends-after k s rest (err e) l h = h

  pure-Drops : (n : ℕ) (a : A) → Drops 0 n (pure a)
  pure-Drops n a s l = omega arith

  weaken : (n : ℕ) (r : Reader A) → Drops 1 n r → Drops 0 n r
  weaken n r h s l = go (r s) (h s l)
    where
      go : (x : Result DumpError (A × List ℕ)) → Ends 1 s x → Ends 0 s x
      go (ok (a, t)) e = omega (arith, e)
      go (err e) h = h

module _ {A B : Type 0} where
  bind-Drops :
      (k n m : ℕ) (r : Reader A) (f : A → Reader B)
      → n ≤ k + m
      → Drops k n r
      → ((a : A) → Drops 0 m (f a))
      → Drops k n (r >>= f)
  bind-Drops k n m r f le h g s l = go (r s) (h s l)
    where
      go : (x : Result DumpError (A × List ℕ)) → Ends k s x → Ends k s (continue x f)
      go (ok (a, t)) e = Ends-after k s t (f a t) e (g a t (omega (arith, e, l, le)))
      go (err e) h = h

  then-Drops :
      (n : ℕ) (r : Reader A) (f : A → Reader B)
      → Drops 0 n r
      → ((a : A) → Drops 0 n (f a))
      → Drops 0 n (r >>= f)
  then-Drops n r f h g = bind-Drops 0 n n r f (omega arith) h g

module _ (n : ℕ) where
  read_u8_moves : Drops 1 n read_u8
  unfolding read_u8
  read_u8_moves [] l = λ e. cc
  read_u8_moves (b ∷ s) l = omega arith

  read_u8-Drops : Drops 0 n read_u8
  read_u8-Drops = weaken n read_u8 read_u8_moves

  read_le-Drops : (k i v : ℕ) → Drops 0 n (read_le k i v)
  unfolding read_le
  read_le-Drops zero i v = pure-Drops n v
  read_le-Drops (suc k) i v =
      then-Drops n read_u8 _ read_u8-Drops (λ b. read_le-Drops k (suc i) (v + b * 2 ^ (i * 8)))

  read_u32_moves : Drops 1 n read_u32
  unfolding read_le
  read_u32_moves =
      bind-Drops 1 n n read_u8 _ (omega arith) read_u8_moves
        (λ b. read_le-Drops 3 1 (0 + b * 2 ^ (0 * 8)))

  read_int_moves : Drops 1 n read_int
  read_int_moves = bind-Drops 1 n n read_u32 _ (omega arith) read_u32_moves (λ u s l. omega arith)

  read_int-Drops : Drops 0 n read_int
  read_int-Drops = weaken n read_int read_int_moves

  read_bool-Drops : Drops 0 n read_bool
  read_bool-Drops = then-Drops n read_u8 _ read_u8-Drops (λ b s l. omega arith)

  read_i64-Drops : Drops 0 n read_i64
  read_i64-Drops = then-Drops n read_u64 _ (read_le-Drops 8 0 0) (λ u s l. omega arith)

  read_bytes-Drops : (k : ℕ) → Drops 0 n (read_bytes k)
  unfolding read_bytes
  read_bytes-Drops k s l = elim (Bool-cases (ltb (length s) k)) [
    | inl e ↦ rw e (λ (c : truncated ≡ out_of_fuel). cc)
    | inr e ↦ rw e (omega (arith, length-drop_le k s))
  ]

  read_str-Drops : Drops 0 n read_str
  read_str-Drops = then-Drops n read_u32 read_bytes (read_le-Drops 4 0 0) read_bytes-Drops

  read_each-Drops :
      (A : Type 0) (read : Reader A) → Drops 0 n read → (k : ℕ) → Drops 0 n (read_each read k)
  unfolding read_each
  read_each-Drops A read h zero = pure-Drops {A = List A} n []
  read_each-Drops A read h (suc k) = then-Drops n read _ h (λ x.
      then-Drops n (read_each read k) _ (read_each-Drops A read h k) (λ xs. pure-Drops n (x ∷ xs)))

  read_list-Drops : {A : Type 0} (read : Reader A) → Drops 0 n read → Drops 0 n (read_list read)
  read_list-Drops read h =
      then-Drops n read_u32 (read_each read) (read_le-Drops 4 0 0) (read_each-Drops _ read h)

  read_upvalue-Drops : Drops 0 n read_upvalue
  unfolding read_upvalue
  read_upvalue-Drops = then-Drops n read_bool _ read_bool-Drops (λ b.
      then-Drops n read_u8 _ read_u8-Drops
        (λ i. then-Drops n read_str _ read_str-Drops (λ name s l. omega arith)))

  read_locvar-Drops : Drops 0 n read_locvar
  unfolding read_locvar
  read_locvar-Drops = then-Drops n read_str _ read_str-Drops (λ name.
      then-Drops n read_int _ read_int-Drops (λ r.
        then-Drops n read_int _ read_int-Drops
          (λ a. then-Drops n read_int _ read_int-Drops (λ b s l. omega arith))))

  expect_bytes-Drops :
      (what : DumpError) → what ≢ out_of_fuel → (bs : List ℕ) → Drops 0 n (expect_bytes what bs)
  unfolding expect_bytes
  expect_bytes-Drops what h [] = pure-Drops n tt
  expect_bytes-Drops what h (e ∷ es) = then-Drops n read_u8 _ read_u8-Drops (λ b s l.
      elim (Bool-cases (b == e)) [
        | inl same ↦ rw same (expect_bytes-Drops what h es s l)
        | inr other ↦ rw other h
      ])

  check :
      {A : Type 0} (r : Reader A) (test : A → Bool) (what : DumpError)
      → Drops 0 n r
      → what ≢ out_of_fuel
      → Drops 0 n (r >>= (λ b. if test b then pure tt else panic what))
  check r test what h ne = then-Drops n r _ h (λ b s l. elim (Bool-cases (test b)) [
    | inl holds ↦ rw holds (pure-Drops n tt s l)
    | inr fails ↦ rw fails ne
  ])

  module _ {F : Type 0} where
    read_back-Drops : (p : ProtoInfo F) → Drops 0 n (read_back p)
    unfolding read_back
    read_back-Drops p =
        then-Drops n (read_list read_upvalue) _ (read_list-Drops read_upvalue read_upvalue-Drops)
          (λ ups.
            then-Drops n (read_list read_int) _ (read_list-Drops read_int read_int-Drops) (λ lines.
              then-Drops n (read_list read_locvar) _ (read_list-Drops read_locvar read_locvar-Drops)
                (λ vars s l. omega arith)))

  module _ (F : Type 0) ⦃dbl : DoubleBits F⦄ where
    const_with-Drops : (k : ℕ) → Drops 0 n (const_with {F = F} k)
    const_with-Drops zero = λ s l. omega arith
    const_with-Drops (suc zero) = then-Drops n read_u8 _ read_u8-Drops (λ b s l. omega arith)
    const_with-Drops (suc (suc zero)) =
        then-Drops n read_i64 _ read_i64-Drops (λ b s l. omega arith)
    const_with-Drops (suc (suc (suc zero))) =
        then-Drops n read_u64 _ (read_le-Drops 8 0 0) (λ b s l. omega arith)
    const_with-Drops (suc (suc (suc (suc zero)))) =
        then-Drops n read_str _ read_str-Drops (λ b s l. omega arith)
    const_with-Drops (suc (suc (suc (suc (suc k))))) = λ s l e. cc

    read_const-Drops : Drops 0 n (read_const {F = F})
    unfolding read_const
    read_const-Drops = then-Drops n read_u8 const_with read_u8-Drops const_with-Drops

    read_front_moves : (parent : List ℕ) → Drops 1 n (read_front {F = F} parent)
    unfolding read_front
    read_front_moves parent = bind-Drops 1 n n read_int _ (omega arith) read_int_moves (λ params.
        then-Drops n read_bool _ read_bool-Drops (λ vararg.
          then-Drops n read_int _ read_int-Drops (λ size.
            then-Drops n (read_list read_u32) _ (read_list-Drops read_u32 (read_le-Drops 4 0 0))
              (λ instructions.
                then-Drops n (read_list read_const) _ (read_list-Drops read_const read_const-Drops)
                  (λ consts. then-Drops n read_str _ read_str-Drops (λ src.
                    then-Drops n read_int _ read_int-Drops (λ first.
                      then-Drops n read_int _ read_int-Drops (λ last s l. omega arith))))))))

module _ (F : Type 0) ⦃dbl : DoubleBits F⦄ where
  read_proto-Drops : (fuel : ℕ) (parent : List ℕ) → Drops 0 fuel (read_proto {F = F} fuel parent)
  unfolding read_proto
  read_proto-Drops zero parent = λ s l. absurd (omega (arith, l))
  read_proto-Drops (suc fuel) parent = weaken (suc fuel) (read_proto (suc fuel) parent) (
      bind-Drops 1 (suc fuel) fuel (read_front parent) _ (omega arith)
        (read_front_moves (suc fuel) F parent)
        (λ front.
          then-Drops fuel (read_list (read_proto fuel front.source)) _
            (read_list-Drops fuel (read_proto fuel front.source)
              (read_proto-Drops fuel front.source))
            (λ inner.
              then-Drops fuel (read_back front) _ (read_back-Drops fuel front)
                (λ whole s l. omega arith))))

  module _ (luac_num : F) where
    check_header-Drops : (n : ℕ) → Drops 0 n (check_header luac_num)
    unfolding check_header
    check_header-Drops n =
        then-Drops n (expect_bytes _ signature) _ (expect_bytes-Drops n _ (λ e. cc) signature) (λ _.
          then-Drops n _ _ (byte 0x53 _ (λ e. cc)) (λ _. then-Drops n _ _ (byte 0 _ (λ e. cc)) (λ _.
            then-Drops n (expect_bytes _ luac_data) _ (expect_bytes-Drops n _ (λ e. cc) luac_data)
              (λ _. then-Drops n _ _ (byte 4 _ (λ e. cc)) (λ _.
                then-Drops n _ _ (byte 8 _ (λ e. cc)) (λ _.
                  then-Drops n _ _ (byte 4 _ (λ e. cc)) (λ _.
                    then-Drops n _ _ (byte 8 _ (λ e. cc)) (λ _.
                      then-Drops n _ _ (byte 8 _ (λ e. cc)) (λ _.
                        then-Drops n _ _
                          (check n read_i64 (λ i. int_eq i luac_int) _ (read_i64-Drops n) (λ e. cc))
                          (λ _.
                            check n read_u64 (λ b. dbl.eq (dbl.of_bits b) luac_num) _
                              (read_le-Drops n 8 0 0) (λ e. cc)))))))))))
      where
        byte : (k : ℕ) (what : DumpError) → what ≢ out_of_fuel → Drops 0 n (expect_u8 k what)
        byte k what ne = check n read_u8 (λ b. b == k) what (read_u8-Drops n) ne

    chunk_Drops : (fuel : ℕ) (name : List ℕ) → Drops 0 (suc fuel) (chunk_reader fuel luac_num name)
    unfolding chunk_reader
    chunk_Drops fuel name =
        then-Drops (suc fuel) (check_header luac_num) _ (check_header-Drops (suc fuel)) (λ _.
          weaken (suc fuel) _ (
            bind-Drops 1 (suc fuel) fuel read_u8 _ (omega arith) (read_u8_moves (suc fuel)) (λ _.
              then-Drops fuel read_u8 _ (read_u8-Drops fuel) (λ _. read_proto-Drops fuel name))))

    -- Undumping any data at all ends: fuel for as many nested prototypes as the data has bytes is enough.
    pub undump_proto-total :
        (fuel : ℕ) (blob name : List ℕ)
        → length blob ≤ fuel
        → undump_proto fuel luac_num blob name ≢ err out_of_fuel
    unfolding undump_proto
    undump_proto-total fuel [] name l = λ e. cc
    undump_proto-total fuel (b ∷ blob) name l = marked (b == 0x1B) (
        go (chunk_reader fuel luac_num name (b ∷ blob))
          (chunk_Drops fuel name (b ∷ blob) (omega (arith, l))))
      where
        marked :
            (test : Bool) {x : Result DumpError (Proto F)}
            → x ≢ err out_of_fuel
            → (if not test then err not_a_binary_chunk else x) ≢ err out_of_fuel
        marked true h = h
        marked false h = λ e. cc

        go :
            (x : Result DumpError (Proto F × List ℕ))
            → Ends 0 (b ∷ blob) x
            → result_of x ≢ err out_of_fuel
        go (ok (p, rest)) h = λ e. cc
        go (err e) h = λ same. h cc
