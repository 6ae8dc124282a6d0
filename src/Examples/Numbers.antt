-- ===== src/Examples/Numbers.antt =====
-- Numbers: script numbers and compact sizes.
use qubitcoin.Common.{
  ◌^◌, ◌<◌, ◌≡◌, ◌≢◌, refl, true, false, not, ◌&&◌, [], ◌∷◌, ◌++◌, ok, ltb, arith,
}
use qubitcoin.Common.Int.{pos, negsuc, abs, neg, ◌+ℤ◌, ◌-ℤ◌, eqb_ℤ}
use qubitcoin.Serialize.CompactSize.{
  max_size, write_compact_size, read_exact, read_le, read_size, read_compact_size_with_range,
}
use qubitcoin.Serialize.CompactSize.RoundTrip.{read-write, write-read}
use qubitcoin.Script.Num.{
  last_byte, minimal, or_bytes, decode_bytes, from_bytes, encode_i64, getint,
}
use qubitcoin.Script.Num.RoundTrip.{decode-encode, encode-decode}
use qubitcoin.Script.Num.Bounds.{operand_bounds}
use qubitcoin.Script.Interp.Values.{cast_to_bool}
use qubitcoin.Script.Interp.Laws.Truth.{cast_to_bool-decode}

read-write_example :
    read_compact_size_with_range true (write_compact_size 300 ++ (5 ∷ [])) ≡ ok (300, 5 ∷ [])
read-write_example = read-write true 300 (5 ∷ []) (omega arith) refl

size_read : read_compact_size_with_range true (253 ∷ 44 ∷ 1 ∷ 5 ∷ []) ≡ ok (300, 5 ∷ [])
unfolding read_compact_size_with_range read_size read_le read_exact
size_read = refl

-- A longer form of a small size is refused.
long_form : read_compact_size_with_range true (253 ∷ 44 ∷ 0 ∷ []) ≢ ok (44, [])
unfolding read_compact_size_with_range read_size read_le read_exact
long_form h = cc

write-read_example :
    (write_compact_size 300 ++ (5 ∷ []) ≡ 253 ∷ 44 ∷ 1 ∷ 5 ∷ [])
    × (300 < 2 ^ 64)
    × (true && ltb max_size 300 ≡ false)
write-read_example = write-read true (253 ∷ 44 ∷ 1 ∷ 5 ∷ []) 300 (5 ∷ []) (omega arith) size_read

decode-encode_example :
    (decode_bytes (encode_i64 (negsuc 299)) ≡ negsuc 299)
    × (minimal (encode_i64 (negsuc 299)) ≡ true)
decode-encode_example = decode-encode (negsuc 299) (omega arith)

two_bytes_minimal : minimal (44 ∷ 0x81 ∷ []) ≡ true
unfolding minimal
two_bytes_minimal = refl

encode-decode_example : encode_i64 (decode_bytes (44 ∷ 0x81 ∷ [])) ≡ 44 ∷ 0x81 ∷ []
encode-decode_example = encode-decode (44 ∷ 0x81 ∷ []) (omega arith) (omega arith) two_bytes_minimal

number_read : from_bytes (44 ∷ 0x81 ∷ []) true 4 ≡ ok (negsuc 299)
unfolding from_bytes minimal decode_bytes last_byte or_bytes
number_read = refl

operand_bounds_example :
    (abs (negsuc 299) < 2 ^ 31)
    × (abs (negsuc 299 +ℤ negsuc 299) < 2 ^ 32)
    × (abs (negsuc 299 -ℤ negsuc 299) < 2 ^ 32)
    × (abs (neg (negsuc 299)) < 2 ^ 31)
    × (getint (negsuc 299) ≡ negsuc 299)
operand_bounds_example =
    operand_bounds (44 ∷ 0x81 ∷ []) (44 ∷ 0x81 ∷ []) true (negsuc 299) (negsuc 299) (omega arith)
      (omega arith) number_read number_read

-- From the ninth byte on the bytes wrap around onto the first: the sign is that of the last byte, and
-- it is cleared in the first.
nine_bytes : decode_bytes (0x80 ∷ 0 ∷ 0 ∷ 0 ∷ 0 ∷ 0 ∷ 0 ∷ 0 ∷ 0x80 ∷ []) ≡ pos 0
unfolding decode_bytes or_bytes last_byte
nine_bytes = refl

-- The negative zero is false.
cast_to_bool-decode_example :
    cast_to_bool (0 ∷ 0x80 ∷ []) ≡ not (eqb_ℤ (decode_bytes (0 ∷ 0x80 ∷ [])) (pos 0))
cast_to_bool-decode_example = cast_to_bool-decode (0 ∷ 0x80 ∷ []) (omega arith) (omega arith)
