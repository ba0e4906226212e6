-- ===== src/Vm.antt =====
-- The virtual machine: src/vm.
pub mod Bytecode
pub mod Arith
pub mod OpCode
pub mod Stack
