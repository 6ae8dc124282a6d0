-- ===== src/Coins/Coin.antt =====
-- `Coin` of coins.rs: an unspent output with the height of its block and the coinbase flag. A spent
-- coin has the null output.
use qubitcoin.Common.{ℕ, ◌+◌, Bool, false, length}
use qubitcoin.Consensus.Transaction.{TxOut, null_tx_out, is_null_tx_out}

pub record Coin : Type 0 where
  pub tx_out : TxOut
  pub height : ℕ
  pub coinbase : Bool

abbrev pub empty : Coin
empty = record { tx_out = null_tx_out; height = 0; coinbase = false }

unfoldable pub is_spent : Coin → Bool
is_spent coin = is_null_tx_out coin.tx_out

unfoldable pub memory_usage : Coin → ℕ
memory_usage coin = 140 + length coin.tx_out.script_pubkey
