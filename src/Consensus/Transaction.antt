-- ===== src/Consensus/Transaction.antt =====
-- crates/qubitcoin-consensus/src/transaction.rs: outpoints, inputs, outputs and transactions, with
-- what is computed from them. A txid is a string of 32 bytes, and `hash256` a parameter.
pub mod Encode
pub mod RoundTrip
use qubitcoin.Common.{
  ℕ, ◌+◌, ◌-◌, ◌^◌, Bool, true, false, not, ◌&&◌, ◌||◌, List, [], ◌∷◌, ◌==◌, ltb, leb, replicate,
}
use qubitcoin.Common.Int.{ℤ, pos, negsuc, ◌+ℤ◌, eqb_ℤ}
use qubitcoin.Common.Bytes.{Bytes, bytes_eq}
use qubitcoin.Consensus.Amount.{Amount, add_amount}

-- `Uint256::ZERO`.
abbrev pub zero_hash : Bytes
zero_hash = replicate 32 0

-- `is_null` of a hash: all its bytes are zero.
unfoldable pub is_null_hash : Bytes → Bool
is_null_hash [] = true
is_null_hash (b ∷ bytes) = b == 0 && is_null_hash bytes

pub record OutPoint : Type 0 where
  pub hash : Bytes
  pub n : ℕ

abbrev pub null_index : ℕ
null_index = 0xffffffff

unfoldable pub is_null_outpoint : OutPoint → Bool
is_null_outpoint p = is_null_hash p.hash && p.n == null_index

-- `==` of outpoints.
unfoldable pub outpoint_eq : OutPoint → OutPoint → Bool
outpoint_eq p q = bytes_eq p.hash q.hash && p.n == q.n

-- `Witness`, a stack of byte strings.
abbrev pub Witness : Type 0
Witness = List Bytes

abbrev pub is_null_witness : Witness → Bool
is_null_witness [] = true
is_null_witness (item ∷ items) = false

pub record TxIn : Type 0 where
  pub prevout : OutPoint
  pub script_sig : Bytes
  pub sequence : ℕ
  pub witness : Witness

pub record TxOut : Type 0 where
  pub value : Amount
  pub script_pubkey : Bytes

abbrev pub null_tx_out : TxOut
null_tx_out = record { value = negsuc 0; script_pubkey = [] }

-- `TxOut::is_null`: the value is -1.
unfoldable pub is_null_tx_out : TxOut → Bool
is_null_tx_out out = eqb_ℤ out.value (negsuc 0)

pub record Transaction : Type 0 where
  pub version : ℕ
  pub vin : List TxIn
  pub vout : List TxOut
  pub lock_time : ℕ
  pub hash : Bytes
  pub witness_hash : Bytes

unfoldable pub is_coinbase_vin : List TxIn → Bool
is_coinbase_vin [] = false
is_coinbase_vin (input ∷ []) = is_null_outpoint input.prevout
is_coinbase_vin (input ∷ _ ∷ _) = false

unfoldable pub is_coinbase : Transaction → Bool
is_coinbase tx = is_coinbase_vin tx.vin

unfoldable pub any_witness : List TxIn → Bool
any_witness [] = false
any_witness (input ∷ vin) = not (is_null_witness input.witness) || any_witness vin

unfoldable pub has_witness : Transaction → Bool
has_witness tx = any_witness tx.vin

-- The sum from `sum` on, as the fold over the outputs goes.
unfoldable pub add_values : Amount → List TxOut → Amount
add_values sum [] = sum
add_values sum (out ∷ vout) = add_values (add_amount sum out.value) vout

unfoldable pub get_value_out : Transaction → Amount
get_value_out tx = add_values (pos 0) tx.vout
