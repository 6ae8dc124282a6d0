-- ===== src/Serialize.antt =====
-- crates/qubitcoin-serialize: the integers of the wire format.
pub mod CompactSize
pub mod Encode
pub mod VarInt
