-- ===== src/Examples/Transactions.antt =====
-- Transactions: VarInts, a transaction with a witness, and the checks on it.
use qubitcoin.Common.{
  ◌-◌, ◌^◌, ◌<◌, ◌≤◌, ◌≡◌, ◌↔◌, refl, true, [], ◌∷◌, ◌++◌, replicate, length, ok, err, arith,
}
use qubitcoin.Common.Int.{pos, negsuc}
use qubitcoin.Common.Bytes.{Bytes}
use qubitcoin.Serialize.VarInt.{write_varint, write_varint_loop, read_varint, read_varint_loop}
use qubitcoin.Serialize.VarInt.RoundTrip.{read_varint-write_varint, write_varint-read_varint}
use qubitcoin.Serialize.CompactSize.{write_compact_size}
use qubitcoin.Serialize.Encode.{encode_vec, encode_items, encode_bytes, encode_i64_le}
use qubitcoin.Consensus.Transaction.{
  TxIn, TxOut, Transaction, is_coinbase, is_coinbase_vin, is_null_outpoint, is_null_hash,
  outpoint_eq,
}
use qubitcoin.Consensus.Transaction.Encode.{
  new, serialize_transaction, deserialize_transaction, encode_tx_in, encode_tx_out, encode_outpoint,
}
use qubitcoin.Consensus.Transaction.RoundTrip.{deserialize_transaction-serialize_transaction}
use qubitcoin.Consensus.Amount.{money_range, add_amount}
use qubitcoin.Consensus.Check.{
  check_transaction, check_outputs, check_duplicates, contains, check_inputs, check_prevouts,
  stripped_size, get_block_subsidy,
}
use qubitcoin.Consensus.Check.Spec.{ValidTransaction, check_transaction_iff}
use qubitcoin.Consensus.Check.Subsidy.{total_subsidy, total_subsidy_bound}

-- The longest code of two bytes, and the shortest of three.
two_bytes : write_varint 16511 ≡ 0xff ∷ 0x7f ∷ []
unfolding write_varint write_varint_loop
two_bytes = refl

three_bytes : write_varint 16512 ≡ 0x80 ∷ 0x80 ∷ 0x00 ∷ []
unfolding write_varint write_varint_loop
three_bytes = refl

read_varint-write_varint_example : read_varint (write_varint 16512 ++ (5 ∷ [])) ≡ ok (16512, 5 ∷ [])
read_varint-write_varint_example = read_varint-write_varint 16512 (5 ∷ []) (omega arith)

varint_read : read_varint (0x80 ∷ 0x80 ∷ 0x00 ∷ 5 ∷ []) ≡ ok (16512, 5 ∷ [])
unfolding read_varint read_varint_loop
varint_read = refl

write_varint-read_varint_example :
    (write_varint 16512 ++ (5 ∷ []) ≡ 0x80 ∷ 0x80 ∷ 0x00 ∷ 5 ∷ []) × (16512 < 2 ^ 64)
write_varint-read_varint_example =
    write_varint-read_varint (0x80 ∷ 0x80 ∷ 0x00 ∷ 5 ∷ []) 16512 (5 ∷ []) (omega arith) varint_read

abbrev toy_hash256 : Bytes → Bytes
toy_hash256 bytes = replicate 32 (length bytes)

abbrev spends : TxIn
spends = record {
  prevout = record { hash = replicate 32 1; n = 3 };
  script_sig = [];
  sequence = 0xffffffff;
  witness = (1 ∷ 2 ∷ []) ∷ (3 ∷ []) ∷ [];
}

abbrev pays : TxOut
pays = record { value = pos 5000; script_pubkey = 0x51 ∷ [] }

abbrev tx : Transaction
tx = new toy_hash256 2 (spends ∷ []) (pays ∷ []) 17

deserialize_transaction-serialize_transaction_example :
    (deserialize_transaction toy_hash256 true (serialize_transaction tx true ++ (9 ∷ []))
      ≡ ok (tx, 9 ∷ []))
    × (tx.hash ≡ tx.hash)
unfolding new
deserialize_transaction-serialize_transaction_example =
    deserialize_transaction-serialize_transaction toy_hash256 2 (spends ∷ []) (pays ∷ []) 17 true
      (9 ∷ [])
      (
        omega arith,
        omega arith,
        (
          omega arith,
          (((refl, omega arith), omega arith, omega arith, (omega arith, omega arith)), tt),
        ),
        (omega arith, ((omega arith, omega arith), tt)),
        omega arith,
      )

-- A sum past the range of an i64 wraps around, and `get_value_out` takes no care of it.
wrapped : add_amount (pos (2 ^ 63 - 1)) (pos 1) ≡ negsuc (2 ^ 63 - 1)
unfolding add_amount
wrapped = refl

check_transaction_iff_example : (check_transaction tx ≡ ok tt) ↔ ValidTransaction tx
check_transaction_iff_example = check_transaction_iff tx

accepted : check_transaction tx ≡ ok tt
unfolding check_transaction check_outputs check_duplicates contains check_inputs check_prevouts
    stripped_size new is_coinbase is_coinbase_vin is_null_outpoint is_null_hash money_range
    add_amount encode_vec encode_items encode_tx_in encode_tx_out encode_outpoint encode_bytes
    encode_i64_le write_compact_size
accepted = refl

-- The same input twice.
refused :
    check_transaction (new toy_hash256 2 (spends ∷ spends ∷ []) (pays ∷ []) 17)
    ≡ err "bad-txns-inputs-duplicate"
unfolding check_transaction check_outputs check_duplicates contains check_inputs check_prevouts
    stripped_size new is_coinbase is_coinbase_vin is_null_outpoint is_null_hash outpoint_eq
    money_range add_amount encode_vec encode_items encode_tx_in encode_tx_out encode_outpoint
    encode_bytes encode_i64_le write_compact_size
refused = refl

total_subsidy_bound_example : total_subsidy 210000 3 ≤ 2099999997690000
total_subsidy_bound_example = total_subsidy_bound 3

three_blocks : total_subsidy 210000 3 ≡ 15000000000
unfolding total_subsidy get_block_subsidy
three_blocks = refl
