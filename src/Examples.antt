-- ===== src/Examples.antt =====
-- Concrete runs: tests of the definitions, and the theorems applied where their conditions hold.
pub mod Data
pub mod Numbers
pub mod Scripts
pub mod Spends
pub mod Coins
pub mod Transactions
pub mod Stored
pub mod Blocks
pub mod Numerals
