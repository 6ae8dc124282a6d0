-- ===== src/Serialize/Encode.antt =====
-- crates/qubitcoin-serialize/src/encode.rs: integers of fixed width, byte vectors and vectors of
-- values, as `Encodable` writes and `Decodable` reads them.
pub mod RoundTrip
use qubitcoin.Common.{
  ℕ, zero, suc, ◌-◌, ◌^◌, List, [], ◌∷◌, ◌++◌, ltb, if◌then◌else◌, length, Result, ok, err, ◌>>=◌,
  ◌>>◌, fail_if,
}
use qubitcoin.Common.Int.{ℤ, to_u64, to_i64}
use qubitcoin.Common.Bytes.{Bytes, to_le, from_le}
use qubitcoin.Serialize.CompactSize.{
  Error, max_size, write_compact_size, read_exact, read_compact_size,
}

-- A value that is read, and what is left.
abbrev pub Decoder : Type 0 → Type 0
Decoder A = Bytes → Result Error (A × Bytes)

-- `u32::decode` and its like, for `w` bytes; what `encode` writes is `to_le w`.
unfoldable pub decode_uint : ℕ → Decoder ℕ
decode_uint w r = do (buf, rest) ← read_exact w r; ok (from_le buf, rest)

-- `i64::encode` and `i64::decode`.
unfoldable pub encode_i64_le : ℤ → Bytes
encode_i64_le n = to_le 8 (to_u64 n)

unfoldable pub decode_i64_le : Decoder ℤ
decode_i64_le r = do (buf, rest) ← read_exact 8 r; ok (to_i64 (from_le buf), rest)

-- `Vec<u8>`, also a script.
unfoldable pub encode_bytes : Bytes → Bytes
encode_bytes bytes = write_compact_size (length bytes) ++ bytes

unfoldable pub decode_byte_vec : Decoder Bytes
decode_byte_vec r = do
  (len, rest) ← read_compact_size r
  fail_if (ltb max_size len) (Error.oversized_vector len)
  read_exact len rest

module _ {A : Type 0} where
  unfoldable pub encode_items : (A → Bytes) → List A → Bytes
  encode_items encode [] = []
  encode_items encode (item ∷ items) = encode item ++ encode_items encode items

  unfoldable pub encode_vec : (A → Bytes) → List A → Bytes
  encode_vec encode items = write_compact_size (length items) ++ encode_items encode items

  unfoldable pub decode_items : Decoder A → ℕ → Decoder (List A)
  decode_items decode zero r = ok ([], r)
  decode_items decode (suc len) r = do
    (item, rest) ← decode r
    (items, left) ← decode_items decode len rest
    ok (item ∷ items, left)

  unfoldable pub decode_vec : Decoder A → Decoder (List A)
  decode_vec decode r = do
    (len, rest) ← read_compact_size r
    fail_if (ltb max_size len) (Error.oversized_vector len)
    decode_items decode len rest
