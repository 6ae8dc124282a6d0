-- ===== src/Script/Interp.antt =====
-- `eval_script` of crates/qubitcoin-script/src/interpreter.rs: one instruction, and the loop.
pub mod Machine
pub mod Values
pub mod StackOps
pub mod Numeric
pub mod Encoding
pub mod CheckSig
pub mod MultiSig
pub mod Flow
pub mod Step
pub mod Laws
pub mod Flags
