-- ===== src/Consensus/Transaction/Encode.antt =====
-- transaction.rs, serialization: the legacy and the extended format, sizes and hashes.
use qubitcoin.Common.{
  ℕ, ◌+◌, ◌-◌, ◌*◌, ◌/◌, ◌%◌, Bool, true, false, not, ◌&&◌, List, [], ◌∷◌, ◌++◌, ◌==◌,
  if◌then◌else◌, length, ok, ◌>>=◌, ◌>>◌, fail_if,
}
use qubitcoin.Common.Bytes.{Bytes, to_le}
use qubitcoin.Serialize.CompactSize.{Error, read_exact, write_compact_size}
use qubitcoin.Serialize.Encode.{
  Decoder, decode_uint, encode_i64_le, decode_i64_le, encode_bytes, decode_byte_vec, encode_vec,
  decode_vec,
}
use qubitcoin.Consensus.Transaction.{
  OutPoint, TxIn, TxOut, Transaction, zero_hash, any_witness, has_witness,
}

unfoldable pub encode_outpoint : OutPoint → Bytes
encode_outpoint p = p.hash ++ to_le 4 p.n

unfoldable pub decode_outpoint : Decoder OutPoint
decode_outpoint r = do
  (hash, r) ← read_exact 32 r
  (n, r) ← decode_uint 4 r
  ok (record { hash = hash; n = n }, r)

unfoldable pub encode_tx_in : TxIn → Bytes
encode_tx_in i = encode_outpoint i.prevout ++ (encode_bytes i.script_sig ++ to_le 4 i.sequence)

unfoldable pub decode_tx_in : Decoder TxIn
decode_tx_in r = do
  (prevout, r) ← decode_outpoint r
  (script_sig, r) ← decode_byte_vec r
  (sequence, r) ← decode_uint 4 r
  ok (record { prevout = prevout; script_sig = script_sig; sequence = sequence; witness = [] }, r)

unfoldable pub encode_tx_out : TxOut → Bytes
encode_tx_out o = encode_i64_le o.value ++ encode_bytes o.script_pubkey

unfoldable pub decode_tx_out : Decoder TxOut
decode_tx_out r = do
  (value, r) ← decode_i64_le r
  (script_pubkey, r) ← decode_byte_vec r
  ok (record { value = value; script_pubkey = script_pubkey }, r)

-- The witnesses of the inputs, one after the other.
unfoldable pub encode_witnesses : List TxIn → Bytes
encode_witnesses [] = []
encode_witnesses (i ∷ vin) = encode_vec encode_bytes i.witness ++ encode_witnesses vin

unfoldable pub serialize_transaction : Transaction → Bool → Bytes
serialize_transaction tx allow_witness =
    let extended = allow_witness && has_witness tx in
    to_le 4 tx.version
    ++ ((if extended then write_compact_size 0 ++ (1 ∷ []) else [])
        ++ (encode_vec encode_tx_in tx.vin
            ++ (encode_vec encode_tx_out tx.vout
                ++ ((if extended then encode_witnesses tx.vin else []) ++ to_le 4 tx.lock_time))))

-- The inputs and the outputs, with the flags byte, which is 0 in the legacy format.
unfoldable pub decode_vouts : List TxIn → ℕ → Decoder (List TxIn × List TxOut × ℕ)
decode_vouts vin flags r = do (vout, r) ← decode_vec decode_tx_out r; ok ((vin, vout, flags), r)

unfoldable pub decode_extended : Decoder (List TxIn × List TxOut × ℕ)
decode_extended r = do
  (flags, r) ← decode_uint 1 r
  if flags == 0
      then ok (([], [], 0), r)
      else (do (vin, r) ← decode_vec decode_tx_in r; decode_vouts vin flags r)

-- The witnesses of the inputs, put into them.
unfoldable pub decode_witnesses : List TxIn → Decoder (List TxIn)
decode_witnesses [] r = ok ([], r)
decode_witnesses (i ∷ vin) r = do
  (stack, r) ← decode_vec decode_byte_vec r
  (inputs, r) ← decode_witnesses vin r
  ok (record i { witness = stack } ∷ inputs, r)

-- What stands for the flag 1: the inputs with their witnesses, of which one must be there.
unfoldable pub decode_flag : Bool → List TxIn → ℕ → Decoder (List TxIn × ℕ)
decode_flag allow_witness vin flags r =
    if flags % 2 == 1 && allow_witness
    then (do
      (vin, r) ← decode_witnesses vin r
      fail_if (not (any_witness vin)) (Error.invalid_encoding "Superfluous witness record")
      ok ((vin, flags - 1), r))
    else ok ((vin, flags), r)

module _ (hash256 : Bytes → Bytes) where
  -- `Transaction::new`, which computes and keeps the two hashes.
  unfoldable pub new : ℕ → List TxIn → List TxOut → ℕ → Transaction
  new version vin vout lock_time =
      let tx : Transaction = record {
        version = version;
        vin = vin;
        vout = vout;
        lock_time = lock_time;
        hash = zero_hash;
        witness_hash = zero_hash;
      } in
      record {
        version = version;
        vin = vin;
        vout = vout;
        lock_time = lock_time;
        hash = hash256 (serialize_transaction tx false);
        witness_hash = hash256 (serialize_transaction tx true);
      }

  unfoldable pub deserialize_transaction : Bool → Decoder Transaction
  deserialize_transaction allow_witness r = do
    (version, r) ← decode_uint 4 r
    (first, r) ← decode_vec decode_tx_in r
    ((vin, vout, flags), r) ←
        if length first == 0 && allow_witness then decode_extended r else decode_vouts first 0 r
    ((vin, flags), r) ← decode_flag allow_witness vin flags r
    fail_if (not (flags == 0)) (Error.invalid_encoding "Unknown transaction optional data")
    (lock_time, r) ← decode_uint 4 r
    ok (new version vin vout lock_time, r)

unfoldable pub get_total_size : Transaction → ℕ
get_total_size tx = length (serialize_transaction tx true)

unfoldable pub get_weight : Transaction → ℕ
get_weight tx = length (serialize_transaction tx false) * 3 + length (serialize_transaction tx true)

unfoldable pub get_virtual_size : Transaction → ℕ
get_virtual_size tx = (get_weight tx + 3) / 4
