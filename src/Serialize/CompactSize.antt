-- ===== src/Serialize/CompactSize.antt =====
-- crates/qubitcoin-serialize/src/compact_size.rs. A writer is the bytes that it gets, and a reader is
-- a byte string with what is left of it; `read_exact` fails at its end.
pub mod RoundTrip
use Prim.Native.String.{String}
use qubitcoin.Common.{
  ℕ, zero, suc, ◌+◌, Bool, true, false, ◌&&◌, List, [], ◌∷◌, ◌++◌, ltb, leb, ◌==◌, if◌then◌else◌,
  length, take, drop, Result, ok, err, ◌>>=◌, ◌>>◌, fail_if,
}
use qubitcoin.Common.Bytes.{Bytes, to_le, from_le}

-- `io` stands for the one I/O error that a byte string gives, an unexpected end.
pub data Error : Type 0 where
  io non_canonical_compact_size var_int_too_large end_of_data : Error
  compact_size_too_large oversized_vector : ℕ → Error
  invalid_encoding : String → Error

-- `MAX_SIZE` of encode.rs, 32 MiB.
abbrev pub max_size : ℕ
max_size = 0x02000000

unfoldable pub compact_size_len : ℕ → ℕ
compact_size_len size =
    if ltb size 253 then 1 else if leb size 0xffff then 3 else if leb size 0xffffffff then 5 else 9

unfoldable pub write_compact_size : ℕ → Bytes
write_compact_size size =
    if ltb size 253
    then size ∷ []
    else if leb size 0xffff
    then 253 ∷ to_le 2 size
    else if leb size 0xffffffff
    then 254 ∷ to_le 4 size
    else 255 ∷ to_le 8 size

-- `read_exact` into a buffer of `n` bytes.
unfoldable pub read_exact : ℕ → Bytes → Result Error (Bytes × Bytes)
read_exact n r = if ltb (length r) n then err io else ok (take n r, drop n r)

-- A little-endian integer of `w` bytes that must be at least `low`.
unfoldable pub read_le : ℕ → ℕ → Bytes → Result Error (ℕ × Bytes)
read_le w low r = do
  (buf, rest) ← read_exact w r
  fail_if (ltb (from_le buf) low) non_canonical_compact_size
  ok (from_le buf, rest)

unfoldable pub read_size : ℕ → Bytes → Result Error (ℕ × Bytes)
read_size ch_size r =
    if ltb ch_size 253
    then ok (ch_size, r)
    else if ch_size == 253
    then read_le 2 253 r
    else if ch_size == 254
    then read_le 4 0x10000 r
    else read_le 8 0x100000000 r

unfoldable pub read_compact_size_with_range : Bool → Bytes → Result Error (ℕ × Bytes)
read_compact_size_with_range range_check [] = err io
read_compact_size_with_range range_check (ch_size ∷ r) = do
  (size, rest) ← read_size ch_size r
  fail_if (range_check && ltb max_size size) (compact_size_too_large size)
  ok (size, rest)

unfoldable pub read_compact_size : Bytes → Result Error (ℕ × Bytes)
unfolding read_compact_size_with_range
read_compact_size = read_compact_size_with_range true
