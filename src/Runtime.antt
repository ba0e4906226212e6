-- ===== src/Runtime.antt =====
-- The runtime's values and objects: src/runtime.
pub mod Value
pub mod Probe
pub mod Table
pub mod Upvalue
pub mod Strings
