-- ===== src/Frontend/Parser.antt =====
-- The parser, src/frontend/parser.cpp.
pub mod State
pub mod Expr
pub mod Stmt
pub mod Chunk
pub mod Measure
pub mod Steps
pub mod Levels
pub mod Total
pub mod Blocks
pub mod Ending
pub mod Grammar
pub mod Listed
pub mod Operators
pub mod Precedence
pub mod Reading
pub mod Parts
pub mod Tables
