-- ===== src/Coins/Compress.antt =====
-- The compressed scripts of coins.rs. `decompress_key` stands for `secp256k1::PublicKey::from_slice`
-- followed by `serialize_uncompressed`: the 65 bytes of a compressed key, or none for no point.
pub mod Shapes
pub mod RoundTrip
use qubitcoin.Common.{
  ℕ, ◌+◌, ◌-◌, ◌%◌, ◌^◌, Bool, true, false, ◌&&◌, ◌||◌, Option, none, some, List, [], ◌∷◌, ◌++◌,
  ◌==◌, ltb, if◌then◌else◌, length, take, Result, ok, err, ◌>>=◌,
}
use qubitcoin.Common.Bytes.{Bytes}
use qubitcoin.Serialize.CompactSize.{Error, read_exact}
use qubitcoin.Serialize.VarInt.{write_varint, read_varint}
use qubitcoin.Serialize.Encode.{Decoder}
use qubitcoin.Script.Bytecode.{at, slice}

abbrev pub n_special_scripts : ℕ
n_special_scripts = 6

abbrev pub is_pubkey_hash : Bytes → Bool
is_pubkey_hash s =
    length s == 25
    && at s 0 == 0x76
    && at s 1 == 0xa9
    && at s 2 == 20
    && at s 23 == 0x88
    && at s 24 == 0xac

abbrev pub is_script_hash : Bytes → Bool
is_script_hash s = length s == 23 && at s 0 == 0xa9 && at s 1 == 20 && at s 22 == 0x87

abbrev pub is_compressed_key : Bytes → Bool
is_compressed_key s =
    length s == 35 && at s 0 == 33 && at s 34 == 0xac && (at s 1 == 0x02 || at s 1 == 0x03)

abbrev pub is_uncompressed_key : Bytes → Bool
is_uncompressed_key s = length s == 67 && at s 0 == 65 && at s 66 == 0xac && at s 1 == 0x04

unfoldable pub compress_script : Bytes → Option Bytes
compress_script s =
    if is_pubkey_hash s
    then some (0x00 ∷ slice 3 23 s)
    else if is_script_hash s
    then some (0x01 ∷ slice 2 22 s)
    else if is_compressed_key s
    then some (at s 1 ∷ slice 2 34 s)
    else if is_uncompressed_key s
    then some ((0x04 + at s 65 % 2) ∷ slice 2 34 s)
    else none

unfoldable pub get_special_script_size : ℕ → ℕ
get_special_script_size n_size =
    if n_size == 0 || n_size == 1 then 20 else if ltb n_size 6 then 32 else 0

-- The script of an uncompressed key, where there is one.
unfoldable pub uncompressed_script : Option Bytes → Option Bytes
uncompressed_script none = none
uncompressed_script (some uncompressed) = some (65 ∷ (uncompressed ++ (0xac ∷ [])))

unfoldable pub decompress_script : (Bytes → Option Bytes) → ℕ → Bytes → Option Bytes
decompress_script decompress_key n_size bytes =
    if n_size == 0
    then some (0x76 ∷ 0xa9 ∷ 20 ∷ (take 20 bytes ++ (0x88 ∷ 0xac ∷ [])))
    else if n_size == 1
    then some (0xa9 ∷ 20 ∷ (take 20 bytes ++ (0x87 ∷ [])))
    else if n_size == 2 || n_size == 3
    then some (33 ∷ n_size ∷ (take 32 bytes ++ (0xac ∷ [])))
    else if n_size == 4 || n_size == 5
    then uncompressed_script (decompress_key ((n_size - 2) ∷ take 32 bytes))
    else none

-- The size that is written for a script without a special form.
unfoldable pub write_plain : Bytes → Bytes
write_plain s = write_varint ((length s % 2 ^ 32 + n_special_scripts) % 2 ^ 32) ++ s

unfoldable pub write_found : Option Bytes → Bytes → Bytes
write_found none s = write_plain s
write_found (some compressed) s = compressed

unfoldable pub write_compressed_script : Bytes → Bytes
write_compressed_script s = write_found (compress_script s) s

-- `vec![0x6a]`, an OP_RETURN.
abbrev pub op_return_script : Bytes
op_return_script = 0x6a ∷ []

abbrev pub or_op_return : Option Bytes → Bytes
or_op_return none = op_return_script
or_op_return (some s) = s

unfoldable pub read_compressed_script : (Bytes → Option Bytes) → Decoder Bytes
read_compressed_script decompress_key r = do
  (size, r) ← read_varint r
  let n_size = size % 2 ^ 32
  let script_len = n_size - n_special_scripts
  if ltb n_size n_special_scripts
      then (do
        (bytes, r) ← read_exact (get_special_script_size n_size) r
        ok (or_op_return (decompress_script decompress_key n_size bytes), r))
      else (do
        (bytes, r) ← read_exact script_len r
        ok (if ltb 10000 script_len then op_return_script else bytes, r))
