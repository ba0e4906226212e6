-- ===== src/Tests.antt =====
-- The theorems at concrete inputs, and runs of the definitions.
mod Doubles
mod Tables
mod Words
mod Utf8
mod Stacks
mod Closures
mod Chunks
mod Analysis
mod Parsing
mod Interning
mod Scanning
