-- ===== src/Lib.antt =====
-- A verification library for the runtime, the virtual machine and the libraries of this Lua 5.3
-- implementation (src/ of the repository).
--
-- The program. Source text goes through the lexer, the parser, semantic analysis and lowering
-- (src/frontend) to prototypes with 32-bit instruction words (src/vm/bytecode.hpp), which the
-- interpreter (src/vm/interpreter.cpp) runs over a stack of tagged values (src/runtime/value.hpp).
-- Values refer to strings, tables, closures and upvalues (src/runtime), which the collector (src/gc)
-- owns; the libraries (src/lib) and the C API (src/api) work on the same state.
--
-- The files.
--   Common: native numbers, lists, integers and 64-bit words, results, Boolean tests.
--   Frontend/Lexer: the scanner, src/frontend/lexer.cpp. The source that is left stands for `src_` and
--     `pos_`; `get` is `peek_char` and `advance`. A loop is a function for one round.
--   Frontend/Ast: the syntax tree, src/frontend/ast.hpp.
--   Frontend/Parser: the parser, src/frontend/parser.cpp. State has its state and the reading of tokens,
--     from the scanner or any other source (Tokens); Expr and Stmt have a definition for each function,
--     and Chunk ties them to each other. Measure has what a step may do, Steps and Levels the rules for
--     its parts, and Total and Blocks follow the functions by these rules. Grammar is
--     the manual's grammar of expressions, and Precedence compares the parser with it, by the steps of
--     Listed and Operators.
--   Frontend/Sema: semantic analysis, src/frontend/sema.cpp: a walk over the tree with its `Ctx`, which
--     each function and block passes on as a value. WellFormed and Jumps say, without it, what chunks are
--     to have. A call of `panic` is an error without its text.
--   Runtime/Value: `TValue` of src/runtime/value.hpp as a data type with a case for each payload, and
--     equality and order of src/runtime/value.cpp.
--   Runtime/Probe: the open-addressing loops of src/runtime/table.cpp over any keys with an equality
--     test, and what they find after a write.
--   Runtime/Table: `Table` of src/runtime/table.hpp and the operations of src/runtime/table.cpp. A call
--     of the collector's barrier is a log entry of the table. Set is about
--     keys as `lookup_key` makes them, Assigned about keys as values. Weak is `clear_weak_entries`, and
--     Border is `table_length` of src/vm/meta.cpp.
--   Runtime/Strings: the table of interned strings, src/runtime/string.cpp. Buckets and Resized are about
--     its growth.
--   Runtime/Upvalue: upvalues, src/runtime/upvalue.cpp, and the list of open ones in src/vm/state.cpp.
--   Vm/Stack: the value stack of a thread, src/vm/state.cpp.
--   Vm/Bytecode: encoding and decoding of instructions, src/vm/bytecode.hpp.
--   Vm/Arith: integer arithmetic of src/vm/interpreter.cpp.
--   Jit/Ic: the inline caches of src/jit/ic.cpp.
--   Library/Utf8: the UTF-8 library, src/lib/lutf8lib.cpp; a call's arguments that are left out are
--     `none`, and its results are values.
--   Library/Dump: binary chunks, src/lib/ldump.cpp. A prototype (src/runtime/closure.hpp) is a tree, a
--     string its bytes. Codec has what a reader does with what a writer wrote, for any items.
--   Tests: the theorems at concrete inputs.
--
-- Parameters. Doubles are an instance argument (Double), with the laws of IEEE arithmetic that the code
-- relies on (DoubleLaws), on comparisons, the floor and the casts; interned strings are read by their address (Strings). The eight bytes of a
-- double in a chunk are another one (DoubleBits): reading them gives the double back (BitsLaws). So are
-- `strtod` and the conversion of a large numeral in the lexer (Numerals), with no law.
--
-- Fuel. A probe loop has as much fuel as the hash part has slots, as in the source. The doubling loop of
-- `rehash` has the goal as its fuel, which is enough because the size at least doubles each round.
-- `Table::set` calls itself once, after a rehash, which leaves room; its fuel is 2. The second loop of
-- `table_length` has one round of fuel more than its limit. The decoder of UTF-8 has eight rounds for
-- the seven bits below the top of a byte, and the loops over a string one round for each byte. The
-- reader of chunks has its fuel as an argument, one unit for each level of nested prototypes: the depth
-- of the prototype that was dumped is enough, and the length of the data always. A loop of the lexer has
-- one round more than there is source, since each round but the last reads some. The parser's functions
-- stand in layers, one for each call that comes back to expressions, operators or blocks: one layer more
-- than there are characters is enough, since a token is read before each such call, and so are as many
-- rounds of its loops.
--
-- Not modelled: allocation failure, the addresses of objects, input and output, the debug hooks, the C
-- API, the command line, and the JIT beyond its caches, which generates no code. Nor are the
-- lowering, the collector and the other libraries.
pub mod Common
pub mod Frontend
pub mod Jit
pub mod Library
pub mod Runtime
pub mod Tests
pub mod Vm
