-- ===== src/Library/Dump.antt =====
-- Binary chunks (src/lib/ldump.cpp): the prototypes, the writer, the reader, and what they do together.
pub mod Proto
pub mod Write
pub mod Read
pub mod Codec
pub mod Items
pub mod RoundTrip
pub mod Strip
pub mod Chunk
pub mod Total
