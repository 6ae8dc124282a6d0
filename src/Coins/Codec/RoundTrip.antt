-- ===== src/Coins/Codec/RoundTrip.antt =====
-- Codec: a coin is read back from its bytes.
use qubitcoin.Common.{
  ℕ, ◌+◌, ◌*◌, ◌/◌, ◌%◌, ◌^◌, ◌≤◌, ◌<◌, ◌≡◌, refl, true, false, Option, some, ◌∷◌, ◌++◌, ◌==◌,
  length, ok, arith,
}
use mathlib.Core.List.{append_assoc}
use qubitcoin.Common.Int.{pos, to_u64, to_i64}
use qubitcoin.Common.Bytes.{Bytes}
use qubitcoin.Serialize.VarInt.{write_varint}
use qubitcoin.Serialize.VarInt.RoundTrip.{read_varint-write_varint}
use qubitcoin.Script.Bytecode.{at, slice}
use qubitcoin.Consensus.Transaction.{is_null_tx_out}
use qubitcoin.Coins.Coin.{Coin, is_spent}
use qubitcoin.Coins.Amounts.{compress_amount}
use qubitcoin.Coins.Amounts.RoundTrip.{decompress_amount-compress_amount, compress_amount-lt}
use qubitcoin.Coins.Compress.{is_uncompressed_key, write_compressed_script}
use qubitcoin.Coins.Compress.RoundTrip.{read_compressed_script-write_compressed_script}
use qubitcoin.Coins.Codec.{coin_code, coin_bytes, encode_coin, decode_coin}

-- A coin as one is made: a height of 31 bits, an amount that is not negative and far above MAX_MONEY
-- at most, and a script that can be spent and is given back by `decompress_key`.
pub record Storable (decompress_key : Bytes → Option Bytes) (coin : Coin) (n : ℕ) : Type 0 where
  pub height : coin.height < 2 ^ 31
  pub amount : coin.tx_out.value ≡ pos n
  pub fits : 10 * n < 2 ^ 64
  pub script : length coin.tx_out.script_pubkey ≤ 10000
  pub key :
      is_uncompressed_key coin.tx_out.script_pubkey ≡ true
      → decompress_key
          ((2 + at coin.tx_out.script_pubkey 65 % 2) ∷ slice 2 34 coin.tx_out.script_pubkey)
        ≡ some (slice 1 66 coin.tx_out.script_pubkey)

code_back :
    (coin : Coin)
    → coin.height < 2 ^ 31
    → (coin_code coin < 2 ^ 32)
      × (coin_code coin / 2 ≡ coin.height)
      × ((coin_code coin % 2 == 1) ≡ coin.coinbase)
unfolding coin_code
code_back coin h = ground arith

coin_bytes_back :
    (decompress_key : Bytes → Option Bytes) (coin : Coin) (n : ℕ) (rest : Bytes)
    → Storable decompress_key coin n
    → decode_coin decompress_key (coin_bytes coin ++ rest) ≡ ok (coin, rest)
unfolding decode_coin coin_bytes
coin_bytes_back decompress_key coin n rest s =
    let script = write_compressed_script coin.tx_out.script_pubkey in
    let (small, height, coinbase) = code_back coin s.height in
    let word : coin_code coin % 2 ^ 32 ≡ coin_code coin = omega (arith, small) in
    let value : to_i64 n ≡ coin.tx_out.value = ground (arith, s.fits, s.amount) in
    let bits : to_u64 coin.tx_out.value ≡ n = ground (arith, s.amount) in
    rw
      (
        append_assoc,
        append_assoc,
        read_varint-write_varint (coin_code coin)
            (write_varint (compress_amount (to_u64 coin.tx_out.value)) ++ (script ++ rest))
            (omega (arith, small)),
        word,
        bits,
        read_varint-write_varint (compress_amount n) (script ++ rest) (compress_amount-lt n),
        decompress_amount-compress_amount n s.fits,
        read_compressed_script-write_compressed_script decompress_key coin.tx_out.script_pubkey rest
            s.script s.key,
        height,
        coinbase,
        value,
      )
      refl

-- A coin of a height of 31 bits, an amount n with 10 * n < 2^64 and a script of at most 10,000 bytes
-- is encoded without a panic, and read back with what follows left over, if it is no output of an
-- uncompressed key, or `decompress_key` gives that key back from its half.
pub decode_coin-encode_coin :
    (decompress_key : Bytes → Option Bytes) (coin : Coin) (n : ℕ) (rest : Bytes)
    → Storable decompress_key coin n
    → (bytes : Bytes) × (encode_coin coin ≡ some bytes)
      × (decode_coin decompress_key (bytes ++ rest) ≡ ok (coin, rest))
unfolding encode_coin is_spent is_null_tx_out
decode_coin-encode_coin decompress_key coin n rest s =
    let live : is_spent coin ≡ false = rw (s.amount) (ground arith) in
    (coin_bytes coin, rw live refl, coin_bytes_back decompress_key coin n rest s)
