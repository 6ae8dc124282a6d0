-- ===== src/Script/Num.antt =====
-- `ScriptNum` of crates/qubitcoin-script/src/script_num.rs: the signed numbers on the script stack,
-- little-endian with the sign in the top bit of the last byte. The i64 is an integer; that no
-- operation on operands of four bytes leaves the range of an i64 is proved in Num/Bounds.
pub mod Digits
pub mod RoundTrip
pub mod Bounds
use Prim.Native.Nat.{bit_or}
use qubitcoin.Common.{
  ℕ, zero, suc, ◌+◌, ◌-◌, ◌*◌, ◌/◌, ◌%◌, ◌^◌, Bool, true, false, not, ◌&&◌, List, [], ◌∷◌, ltb, leb,
  ◌==◌, if◌then◌else◌, length, Result, ok, err, ◌>>=◌, ◌>>◌, fail_if,
}
use qubitcoin.Common.Int.{ℤ, pos, negsuc, abs, neg, ltb_ℤ, to_i64, wrap_i64}
use qubitcoin.Common.Bytes.{Bytes}

pub data ScriptNumError : Type 0 where
  overflow non_minimal : ScriptNumError

abbrev pub default_max_num_size : ℕ
default_max_num_size = 4

-- `vch.last()`, 0 for the empty slice.
unfoldable pub last_byte : Bytes → ℕ
last_byte [] = 0
last_byte (b ∷ []) = b
last_byte (a ∷ b ∷ bs) = last_byte (b ∷ bs)

-- The test of `require_minimal`: on the last byte without its sign bit, and where that is zero on
-- the top bit of the byte before it. For a byte, `& 0x7f` is `% 128` and `& 0x80` tests `128 ≤`.
unfoldable pub minimal : Bytes → Bool
minimal [] = true
minimal (b ∷ []) = not (b % 128 == 0)
minimal (a ∷ b ∷ []) = not (b % 128 == 0 && ltb a 128)
minimal (a ∷ b ∷ c ∷ bs) = minimal (b ∷ c ∷ bs)

-- `result |= (byte as i64) << (8 * i)` for the bytes from number `i` on, on the 64 bits of `result`. A
-- shift of an i64 takes its distance modulo 64.
unfoldable pub or_bytes : ℕ → ℕ → Bytes → ℕ
or_bytes result i [] = result
or_bytes result i (byte ∷ vch) = or_bytes (bit_or result (byte * 2 ^ (8 * i % 64))) (suc i) vch

-- The sign bit is set where the last byte is at least 0x80, so clearing it takes it off. The
-- negation wraps around at the least i64.
unfoldable pub decode_bytes : Bytes → ℤ
decode_bytes [] = pos 0
decode_bytes (b ∷ bs) =
    let result = or_bytes 0 0 (b ∷ bs) in
    if leb 128 (last_byte (b ∷ bs))
    then wrap_i64 (neg (to_i64 (result - 128 * 2 ^ (8 * length bs % 64))))
    else to_i64 result

unfoldable pub from_bytes : Bytes → Bool → ℕ → Result ScriptNumError ℤ
from_bytes vch require_minimal max_num_size = do
  fail_if (ltb max_num_size (length vch)) overflow
  fail_if (require_minimal && not (minimal vch)) non_minimal
  ok (decode_bytes vch)

-- `while absvalue > 0 { push(absvalue & 0xff); absvalue >>= 8 }`; eight rounds are enough for a u64.
unfoldable pub magnitude : ℕ → ℕ → Bytes
magnitude zero n = []
magnitude (suc f) n = let rest = magnitude f (n / 256) in if n == 0 then [] else (n % 256) ∷ rest

-- The sign goes into the top bit of the last byte, or into a byte of its own.
unfoldable pub add_sign : Bool → Bytes → Bytes
add_sign negative [] = []
add_sign negative (b ∷ []) =
    if leb 128 b
    then b ∷ (if negative then 0x80 else 0) ∷ []
    else (if negative then b + 128 else b) ∷ []
add_sign negative (a ∷ b ∷ bs) = a ∷ add_sign negative (b ∷ bs)

unfoldable pub encode_i64 : ℤ → Bytes
encode_i64 value = add_sign (ltb_ℤ value (pos 0)) (magnitude 8 (abs value))

-- `getint`: clamped to an i32.
unfoldable pub getint : ℤ → ℤ
getint (pos n) = if ltb (2 ^ 31 - 1) n then pos (2 ^ 31 - 1) else pos n
getint (negsuc n) = if ltb (2 ^ 31 - 1) n then negsuc (2 ^ 31 - 1) else negsuc n
