-- ===== src/Serialize/VarInt.antt =====
-- crates/qubitcoin-serialize/src/varint.rs: integers of 64 bits in base 128, the high digit first,
-- with 1 taken from all digits but the last. The loops run on fuel 10, the size of the buffer.
pub mod RoundTrip
use qubitcoin.Common.{
  ℕ, zero, suc, ◌+◌, ◌-◌, ◌*◌, ◌/◌, ◌%◌, ◌^◌, Bool, true, false, [], ◌∷◌, ltb, leb, ◌==◌,
  if◌then◌else◌, Result, ok, err,
}
use qubitcoin.Common.Bytes.{Bytes}
use qubitcoin.Serialize.CompactSize.{Error}

unfoldable pub varint_len_loop : ℕ → ℕ → ℕ
varint_len_loop zero n = 0
varint_len_loop (suc fuel) n =
    let more = varint_len_loop fuel (n / 128 - 1) in if leb n 0x7f then 1 else suc more

unfoldable pub varint_len : ℕ → ℕ
varint_len n = varint_len_loop 10 n

-- The digits of `n`, in front of the bytes `tmp` that follow them; `later` is `len > 0`.
unfoldable pub write_varint_loop : ℕ → Bool → ℕ → Bytes → Bytes
write_varint_loop zero later n tmp = tmp
write_varint_loop (suc fuel) later n tmp =
    let digit = n % 128 + (if later then 0x80 else 0x00) in
    let more = write_varint_loop fuel true (n / 128 - 1) (digit ∷ tmp) in
    if leb n 0x7f then digit ∷ tmp else more

unfoldable pub write_varint : ℕ → Bytes
write_varint n = write_varint_loop 10 false n []

-- `n` is what the digits so far amount to, with the 1 of the next.
unfoldable pub read_varint_loop : ℕ → Bytes → Result Error (ℕ × Bytes)
read_varint_loop n [] = err Error.io
read_varint_loop n (ch ∷ r) =
    let m = n * 128 % 2 ^ 64 + ch % 128 in
    let more = read_varint_loop (m + 1) r in
    if ltb 0x1ffffffffffffff n
    then err Error.var_int_too_large
    else if leb 128 ch
    then (if m == 0xffffffffffffffff then err Error.var_int_too_large else more)
    else ok (m, r)

unfoldable pub read_varint : Bytes → Result Error (ℕ × Bytes)
read_varint r = read_varint_loop 0 r
