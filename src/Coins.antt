-- ===== src/Coins.antt =====
-- crates/qubitcoin-common/src/coins.rs: coins, their compressed form, and the cache of coins.
pub mod Map
pub mod Coin
pub mod Amounts
pub mod Compress
pub mod Codec
pub mod Cache
