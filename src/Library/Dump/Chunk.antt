-- ===== src/Library/Dump/Chunk.antt =====
-- Whole chunks: `dump_proto` and `undump_proto` of src/lib/ldump.cpp.
use luajit.Common.{
  ℕ, zero, suc, ◌≤◌, ◌<◌, ◌%◌, ◌≡◌, refl, sym, ap, ◌∙◌, subst, arith, Bool, true, false, List, [],
  ◌∷◌, ◌++◌, length, length-append, take, none, if◌then◌else◌,
}
use mathlib.Core.List.{append-nil}
use luajit.Common.Result.{ok, err, ◌>>=◌}
use luajit.Library.Dump.Codec.{
  Reads, bind-Reads, then-Reads, read_u8-Reads, read_u8_low, read_i64-Reads, read_u64-Reads,
  expect_bytes-Reads, expect_u8-Reads,
}
use luajit.Library.Dump.Items.{BitsLaws}
use luajit.Library.Dump.Proto.{
  DoubleBits, Proto, DumpError, signature, luac_data, luac_int, truncated, not_a_binary_chunk,
  version_mismatch, format_mismatch, corrupted, int_size_mismatch, size_t_size_mismatch,
  instruction_size_mismatch, integer_size_mismatch, number_size_mismatch,
}
use luajit.Library.Dump.Read.{check_header, chunk_reader, undump_proto, result_of}
use luajit.Library.Dump.RoundTrip.{proto_Reads, IsDumpable, resolved, depth}
use luajit.Library.Dump.Strip.{stripped, write-stripped}
use luajit.Library.Dump.Write.{
  write_u8, write_bool, write_i64, write_u64, header, upvalue_count, write_proto, dump_proto,
}

-- What a dump keeps.
abbrev pub kept : {F : Type 0} → Bool → Proto F → Proto F
kept strip p = if strip then stripped p else p

-- The error where n bytes are left.
abbrev pub cut_error : ℕ → DumpError
cut_error zero = not_a_binary_chunk
cut_error (suc n) = truncated

module _ {F : Type 0} ⦃dbl : DoubleBits F⦄ (laws : BitsLaws F) (luac_num : F)
    (exact : dbl.eq luac_num luac_num ≡ true) where
  header-Reads : Reads (check_header luac_num) (header luac_num) tt
  unfolding check_header
  header-Reads = bind-Reads _ signature _ tt tt (expect_bytes-Reads not_a_binary_chunk signature) (
      bind-Reads _ (write_u8 0x53) _ tt tt (expect_u8-Reads 0x53 version_mismatch (omega arith)) (
        bind-Reads _ (write_u8 0) _ tt tt (expect_u8-Reads 0 format_mismatch (omega arith)) (
          bind-Reads _ luac_data _ tt tt (expect_bytes-Reads corrupted luac_data) (
            bind-Reads _ (write_u8 4) _ tt tt (expect_u8-Reads 4 int_size_mismatch (omega arith)) (
              bind-Reads _ (write_u8 8) _ tt tt
                (expect_u8-Reads 8 size_t_size_mismatch (omega arith))
                (bind-Reads _ (write_u8 4) _ tt tt
                  (expect_u8-Reads 4 instruction_size_mismatch (omega arith))
                  (bind-Reads _ (write_u8 8) _ tt tt
                    (expect_u8-Reads 8 integer_size_mismatch (omega arith))
                    (bind-Reads _ (write_u8 8) _ tt tt
                      (expect_u8-Reads 8 number_size_mismatch (omega arith))
                      (bind-Reads _ (write_i64 luac_int) (write_u64 (dbl.bits luac_num)) tt tt
                        (then-Reads _ (write_i64 luac_int) luac_int tt
                          (read_i64-Reads luac_int (omega arith)) refl)
                        (then-Reads _ (write_u64 (dbl.bits luac_num)) (dbl.bits luac_num) tt
                          (read_u64-Reads (dbl.bits luac_num) (laws.bits_lt luac_num))
                          (rw (laws.of_bits-bits luac_num, exact))))))))))))

  chunk_Reads :
      (p : Proto F) (strip : Bool) (name : List ℕ)
      → IsDumpable (kept strip p)
      → (blob : List ℕ) × (dump_proto luac_num p strip ≡ ok blob)
        × ((fuel : ℕ)
            → depth (kept strip p) ≤ fuel
            → Reads (chunk_reader fuel luac_num name) blob (resolved name (kept strip p)))
        × (depth (kept strip p) ≤ length blob)
        × ((tail : List ℕ) × (blob ≡ 0x1B ∷ tail))
  unfolding dump_proto chunk_reader
  chunk_Reads p strip name h =
      let (body, wrote, reads, deep) = proto_Reads laws (kept strip p) none name tt h in
      let ups = write_u8 (upvalue_count p) in
      (
        header luac_num ++ (ups ++ (write_bool strip ++ body)),
        rw (write-kept p strip ∙ wrote),
        λ fuel d. bind-Reads _ (header luac_num) _ tt _ header-Reads (
            bind-Reads _ ups _ (upvalue_count p % 256) _ (read_u8_low (upvalue_count p)) (
              bind-Reads _ (write_bool strip) body (if strip then 1 else 0) _
                (read_u8-Reads (if strip then 1 else 0) (ground arith)) (reads fuel d))),
        omega (
          arith,
          deep,
          length-append (header luac_num) (ups ++ (write_bool strip ++ body)),
          length-append ups (write_bool strip ++ body),
          length-append (write_bool strip) body,
        ),
        (_, refl),
      )
    where
      write-kept :
          (p : Proto F) (strip : Bool)
          → write_proto p strip none ≡ write_proto (kept strip p) false none
      write-kept p true = write-stripped p none
      write-kept p false = refl

  module _ (fuel : ℕ) (name : List ℕ) where
    undump_marked :
        (blob tail : List ℕ)
        → blob ≡ 0x1B ∷ tail
        → undump_proto fuel luac_num blob name ≡ result_of (chunk_reader fuel luac_num name blob)
    unfolding undump_proto
    undump_marked blob tail e =
        subst
          (λ (s : List ℕ).
            undump_proto fuel luac_num s name ≡ result_of (chunk_reader fuel luac_num name s))
          (sym e) (opened tail)
      where
        opened :
            (tail : List ℕ)
            → undump_proto fuel luac_num (0x1B ∷ tail) name
              ≡ result_of (chunk_reader fuel luac_num name (0x1B ∷ tail))
        opened tail = refl

  -- Undumping a dump returns the prototype, stripped if the dump was, where an empty source name is
  -- the enclosing prototype's and the outermost one's is `name`. The sizes and numbers must fit in the
  -- chunk's fields, no constant may be of a kind that a chunk does not hold, and the fuel is at least
  -- the depth of the prototypes.
  pub undump_proto-dump_proto :
      (p : Proto F) (strip : Bool) (name : List ℕ) (fuel : ℕ)
      → IsDumpable (kept strip p)
      → depth (kept strip p) ≤ fuel
      → (dump_proto luac_num p strip >>= (λ blob. undump_proto fuel luac_num blob name))
        ≡ ok (resolved name (kept strip p))
  undump_proto-dump_proto p strip name fuel h d =
      let (blob, wrote, reads, deep, (tail, marked)) = chunk_Reads p strip name h in
      rw wrote (
        undump_marked fuel name blob tail marked
        ∙ ap (λ (s : List ℕ). result_of (chunk_reader fuel luac_num name s)) (sym (append-nil blob))
        ∙ ap result_of ((reads fuel d).full []))

  -- A dump that is cut short is refused: as truncated, or as no binary chunk where nothing is left.
  pub undump_proto_truncated :
      (p : Proto F) (strip : Bool) (name : List ℕ) (fuel n : ℕ)
      → IsDumpable (kept strip p)
      → depth (kept strip p) ≤ fuel
      → (blob : List ℕ) → dump_proto luac_num p strip ≡ ok blob
      → n < length blob
      → undump_proto fuel luac_num (take n blob) name ≡ err (cut_error n)
  unfolding undump_proto
  undump_proto_truncated p strip name fuel n h d blob dumped l =
      let (whole, wrote, reads, deep, (tail, marked)) = chunk_Reads p strip name h in
      let same : whole ≡ blob = cc in
      subst (λ (b : List ℕ). undump_proto fuel luac_num (take n b) name ≡ err (cut_error n)) same
        (go n whole tail marked (reads fuel d) (omega (arith, ap length same, l)))
    where
      go :
          (n : ℕ) (blob tail : List ℕ)
          → blob ≡ 0x1B ∷ tail
          → Reads (chunk_reader fuel luac_num name) blob (resolved name (kept strip p))
          → n < length blob
          → undump_proto fuel luac_num (take n blob) name ≡ err (cut_error n)
      go zero blob tail marked reads l = refl
      go (suc n) blob tail marked reads l =
          undump_marked fuel name (take (suc n) blob) (take n tail) (ap (take (suc n)) marked)
          ∙ ap result_of (reads.cut (suc n) l)
