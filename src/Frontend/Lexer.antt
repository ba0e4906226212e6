-- ===== src/Frontend/Lexer.antt =====
-- The lexer, src/frontend/lexer.cpp: tokens, the scanner's state, its loops, and one token after another.
pub mod Token
pub mod State
pub mod Skip
pub mod Number
pub mod Strings
pub mod Escapes
pub mod Quoted
pub mod Scan
pub mod Measure
pub mod Progress
pub mod Spans
pub mod Forward
pub mod Peeking
