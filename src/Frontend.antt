-- ===== src/Frontend.antt =====
-- The front end (src/frontend): the lexer, the syntax tree and its semantic analysis.
pub mod Lexer
pub mod Ast
pub mod Sema
pub mod Parser
