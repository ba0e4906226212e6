-- ===== src/Tests/Chunks.antt =====
-- Dumping and undumping a nested prototype, on two doubles.
use luajit.Common.{
  ℕ, ◌<◌, ◌^◌, ◌≤◌, length, ◌≡◌, ◌≢◌, ◌++◌, refl, arith, Bool, true, false, List, [], ◌∷◌, take,
  ◌==◌, if◌then◌else◌,
}
use luajit.Common.Int.{pos, negsuc}
use luajit.Common.Result.{Result, ok, err, ◌>>=◌}
use luajit.Library.Dump.Items.{BitsLaws, IsInfo}
use luajit.Library.Dump.Proto.{
  DoubleBits, Proto, proto, no_protos, more, ProtoInfo, nil, boolean, integer, number, string,
  DumpError, truncated, out_of_fuel,
}
use luajit.Library.Dump.Read.{undump_proto}
use luajit.Library.Dump.Write.{header, dump_proto, write_u8, write_u32, write_u64}
use luajit.Library.Dump.RoundTrip.{IsDumpable, resolved, depth}
use luajit.Library.Dump.Chunk.{undump_proto-dump_proto, undump_proto_truncated}
use luajit.Library.Dump.Total.{undump_proto-total}

-- The double 370.5 of the header, and 1.0.
data Bits : Type 0 where
  header_number one : Bits

abbrev bits_of : Bits → ℕ
bits_of header_number = 0x4077280000000000
bits_of one = 0x3FF0000000000000

abbrev bits_equal : Bits → Bits → Bool
bits_equal a b = bits_of a == bits_of b

instance abbrev bit_samples : DoubleBits Bits
bit_samples = record {
  bits = bits_of;
  of_bits = λ w. if w == 0x3FF0000000000000 then one else header_number;
  eq = bits_equal;
}

bit_laws : BitsLaws Bits
bit_laws = record { bits_lt = fits; of_bits-bits = back }
  where
    fits : (d : Bits) → bits_of d < 2 ^ 64
    fits header_number = omega arith
    fits one = omega arith

    back : (d : Bits) → bit_samples.of_bits (bits_of d) ≡ d
    back header_number = refl
    back one = refl

abbrev inner_info : ProtoInfo Bits
inner_info = record {
  numparams = pos 1;
  is_vararg = false;
  maxstack = pos 2;
  code = 0x12345678 ∷ [];
  constants = string (b'x' ∷ []) ∷ boolean true ∷ [];
  source = b'@' ∷ b'f' ∷ [];
  linedefined = pos 3;
  lastlinedefined = pos 4;
  upvalues = (record { instack = true; idx = 0; name = b'u' ∷ [] }) ∷ [];
  lineinfo = pos 3 ∷ [];
  locvars = (record { name = b'a' ∷ []; reg = pos 0; startpc = pos 0; endpc = pos 1 }) ∷ [];
}

-- A main chunk and a function of the same source.
abbrev main_info : ProtoInfo Bits
main_info = record {
  numparams = pos 0;
  is_vararg = true;
  maxstack = pos 5;
  code = 1 ∷ 2 ∷ [];
  constants = nil ∷ integer (negsuc 6) ∷ number one ∷ [];
  source = b'@' ∷ b'f' ∷ [];
  linedefined = pos 0;
  lastlinedefined = pos 0;
  upvalues = [];
  lineinfo = pos 1 ∷ negsuc 0 ∷ [];
  locvars = [];
}

abbrev nested : Proto Bits
nested = proto main_info (more (proto inner_info no_protos) no_protos)

inner_info-IsInfo : IsInfo inner_info
inner_info-IsInfo = record {
  params = omega arith;
  stack = omega arith;
  size = omega arith;
  instructions = (omega arith, tt);
  consts = omega arith;
  kinds = (omega arith, (tt, tt));
  name = omega arith;
  first = omega arith;
  last = omega arith;
  ups = omega arith;
  each_up = ((omega arith, omega arith), tt);
  lines = omega arith;
  each_line = (omega arith, tt);
  vars = omega arith;
  each_var = ((omega arith, omega arith, omega arith, omega arith), tt);
}

main_info-IsInfo : IsInfo main_info
main_info-IsInfo = record {
  params = omega arith;
  stack = omega arith;
  size = omega arith;
  instructions = (omega arith, (omega arith, tt));
  consts = omega arith;
  kinds = (tt, (omega arith, (tt, tt)));
  name = omega arith;
  first = omega arith;
  last = omega arith;
  ups = omega arith;
  each_up = tt;
  lines = omega arith;
  each_line = (omega arith, (omega arith, tt));
  vars = omega arith;
  each_var = tt;
}

nested-IsDumpable : IsDumpable nested
unfolding IsDumpable
nested-IsDumpable = (main_info-IsInfo, omega arith, ((inner_info-IsInfo, omega arith, tt), tt))

depth-nested : depth nested ≤ 5
unfolding depth
depth-nested = omega arith

abbrev chunk_name : List ℕ
chunk_name = b'=' ∷ []

abbrev result_bytes : Result DumpError (List ℕ) → List ℕ
result_bytes (ok bs) = bs
result_bytes (err e) = []

abbrev nested_blob : List ℕ
nested_blob = result_bytes (dump_proto header_number nested false)

dumped_nested : dump_proto header_number nested false ≡ ok nested_blob
unfolding dump_proto
dumped_nested = refl

longer : 40 < length nested_blob
unfolding dump_proto write_u8 write_u64 write_u32
longer = omega arith

undump_proto-dump_proto_example :
    (dump_proto header_number nested false
      >>= (λ blob. undump_proto 5 header_number blob chunk_name))
    ≡ ok (resolved chunk_name nested)
undump_proto-dump_proto_example =
    undump_proto-dump_proto bit_laws header_number refl nested false chunk_name 5 nested-IsDumpable
      depth-nested

undump_proto_truncated_example :
    undump_proto 5 header_number (take 40 nested_blob) chunk_name ≡ err truncated
undump_proto_truncated_example =
    undump_proto_truncated bit_laws header_number refl nested false chunk_name 5 40
      nested-IsDumpable depth-nested nested_blob dumped_nested longer

-- A chunk whose header is whole and whose body says four billion instructions.
abbrev overlong : List ℕ
overlong =
    header header_number ++ (0 ∷ 0 ∷ 1 ∷ 0 ∷ 0 ∷ 0 ∷ 0 ∷ 2 ∷ 0 ∷ 0 ∷ 0 ∷ 255 ∷ 255 ∷ 255 ∷ 255 ∷ [])

undump_proto-total_example :
    undump_proto (length overlong) header_number overlong chunk_name ≢ err out_of_fuel
undump_proto-total_example =
    undump_proto-total Bits header_number (length overlong) overlong chunk_name (omega arith)
