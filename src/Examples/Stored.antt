-- ===== src/Examples/Stored.antt =====
-- Stored coins: the output of an uncompressed key, which a toy curve gives back, or has no point for.
use qubitcoin.Common.{
  ◌≡◌, ◌≢◌, refl, true, Option, none, some, [], ◌∷◌, ◌++◌, drop, replicate, ok, arith,
}
use qubitcoin.Common.Int.{pos}
use qubitcoin.Common.Bytes.{Bytes}
use qubitcoin.Coins.Coin.{Coin}
use qubitcoin.Coins.Amounts.{compress_amount, compress_stripped, strip_zeros}
use qubitcoin.Coins.Compress.{op_return_script, write_compressed_script, read_compressed_script}
use qubitcoin.Coins.Compress.RoundTrip.{write_compressed_script-invalid}
use qubitcoin.Coins.Codec.{encode_coin, decode_coin}
use qubitcoin.Coins.Codec.RoundTrip.{Storable, decode_coin-encode_coin}

-- A curve on which every y is zero, and one without points.
abbrev flat_curve : Bytes → Option Bytes
flat_curve half = some (0x04 ∷ (drop 1 half ++ replicate 32 0))

abbrev no_curve : Bytes → Option Bytes
no_curve half = none

abbrev key_script : Bytes
key_script = 65 ∷ 0x04 ∷ (replicate 32 7 ++ (replicate 32 0 ++ (0xac ∷ [])))

abbrev key_coin : Coin
key_coin = record {
  tx_out = record { value = pos 5000000000; script_pubkey = key_script };
  height = 170;
  coinbase = true;
}

fifty_coins : compress_amount 5000000000 ≡ 50
unfolding compress_amount compress_stripped strip_zeros
fifty_coins = refl

key_coin-Storable : Storable flat_curve key_coin 5000000000
key_coin-Storable = record {
  height = omega arith;
  amount = refl;
  fits = omega arith;
  script = omega arith;
  key = λ h. refl;
}

decode_coin-encode_coin_example :
    (bytes : Bytes) × (encode_coin key_coin ≡ some bytes)
    × (decode_coin flat_curve (bytes ++ (1 ∷ [])) ≡ ok (key_coin, 1 ∷ []))
decode_coin-encode_coin_example =
    decode_coin-encode_coin flat_curve key_coin 5000000000 (1 ∷ []) key_coin-Storable

write_compressed_script-invalid_example :
    (read_compressed_script no_curve (write_compressed_script key_script ++ (1 ∷ []))
      ≡ ok (op_return_script, 1 ∷ []))
    × (op_return_script ≢ key_script)
write_compressed_script-invalid_example =
    write_compressed_script-invalid no_curve key_script (1 ∷ []) refl refl
