-- ===== src/Jit.antt =====
-- The tiering scaffold: src/jit.
pub mod Ic
