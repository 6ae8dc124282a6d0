-- ===== src/Primitives.antt =====
-- crates/qubitcoin-primitives: integers of 256 bits.
pub mod ArithUint256
