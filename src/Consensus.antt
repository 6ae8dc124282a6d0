-- ===== src/Consensus.antt =====
-- crates/qubitcoin-consensus, with the amounts of crates/qubitcoin-primitives: transactions and the
-- rules on them that need no context.
pub mod Amount
pub mod Transaction
pub mod Check
pub mod Merkle
pub mod SigOps
