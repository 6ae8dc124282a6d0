-- ===== src/Script.antt =====
-- The script virtual machine of crates/qubitcoin-script.
pub mod Opcode
pub mod Num
pub mod Types
pub mod Bytecode
pub mod Cond
pub mod Interp
pub mod Verify
