-- ===== src/Coins/Codec.antt =====
-- `Coin::encode` and `Coin::decode` of coins.rs: the form of a coin in the database.
pub mod RoundTrip
use qubitcoin.Common.{
  ℕ, ◌+◌, ◌*◌, ◌/◌, ◌%◌, ◌^◌, Bool, true, false, Option, none, some, ◌++◌, ◌==◌, if◌then◌else◌, ok,
  ◌>>=◌,
}
use qubitcoin.Common.Int.{to_u64, to_i64}
use qubitcoin.Common.Bytes.{Bytes}
use qubitcoin.Serialize.VarInt.{write_varint, read_varint}
use qubitcoin.Serialize.Encode.{Decoder}
use qubitcoin.Coins.Coin.{Coin, is_spent}
use qubitcoin.Coins.Amounts.{compress_amount, decompress_amount}
use qubitcoin.Coins.Compress.{write_compressed_script, read_compressed_script}

-- `(height << 1) | coinbase` of a u32.
unfoldable pub coin_code : Coin → ℕ
coin_code c = c.height * 2 % 2 ^ 32 + (if c.coinbase then 1 else 0)

unfoldable pub coin_bytes : Coin → Bytes
coin_bytes c =
    write_varint (coin_code c)
    ++ (write_varint (compress_amount (to_u64 c.tx_out.value))
        ++ write_compressed_script c.tx_out.script_pubkey)

-- A spent coin is refused by an assertion.
unfoldable pub encode_coin : Coin → Option Bytes
encode_coin c = if is_spent c then none else some (coin_bytes c)

unfoldable pub decode_coin : (Bytes → Option Bytes) → Decoder Coin
decode_coin decompress_key r = do
  (size, r) ← read_varint r
  let code = size % 2 ^ 32
  (compressed_amount, r) ← read_varint r
  let amount = decompress_amount compressed_amount
  (script, r) ← read_compressed_script decompress_key r
  ok (
    record {
      tx_out = record { value = to_i64 amount; script_pubkey = script };
      height = code / 2;
      coinbase = code % 2 == 1;
    },
    r,
  )
