-- ===== src/Script/Num/Digits.antt =====
-- Sign and magnitude of an encoded number, without the arithmetic of `decode_bytes`.
use Prim.Native.Nat.{bit_or}
use native.Mathlib.Nat.{pow-suc, mul-le-mul_right}
use qubitcoin.Common.{
  ℕ, zero, suc, ◌+◌, ◌-◌, ◌*◌, ◌/◌, ◌%◌, ◌^◌, ◌<◌, ◌≤◌, ◌≡◌, refl, ap, ◌∙◌, ◌≢◌, Bool, true, [],
  ◌∷◌, ltb, leb, if◌then◌else◌, length, All, arith, Bool-cases, inl, inr,
}
use qubitcoin.Common.Bits.{bit_or_shifted}
use qubitcoin.Common.Int.{ℤ, pos, neg, to_i64, wrap_i64}
use qubitcoin.Common.Bytes.{Bytes, IsByte, from_le}
use qubitcoin.Script.Num.{last_byte, minimal, or_bytes, decode_bytes, magnitude, add_sign}

-- The magnitude that a sign-and-magnitude string stands for.
unfoldable pub unsigned : Bytes → ℕ
unsigned [] = 0
unsigned (b ∷ []) = b % 128
unsigned (a ∷ b ∷ bs) = a + 256 * unsigned (b ∷ bs)

unfoldable pub sign_bit : Bytes → Bool
unfolding last_byte
sign_bit bs = leb 128 (last_byte bs)

abbrev pub signed : Bool → ℕ → ℤ
signed s m = if s then neg (pos m) else pos m

abbrev top_weight : ℕ → ℕ → ℕ
top_weight b n = if leb 128 b then 128 * 256 ^ n else 0

weight_suc : (b n : ℕ) → top_weight b (suc n) ≡ 256 * top_weight b n
weight_suc b n = elim (Bool-cases (leb 128 b)) [
  | inl h ↦ rw h (omega arith)
  | inr h ↦ rw h (omega arith)
]

from_le-unsigned :
    (b : ℕ) (bs : Bytes)
    → All IsByte (b ∷ bs)
    → from_le (b ∷ bs) ≡ unsigned (b ∷ bs) + top_weight (last_byte (b ∷ bs)) (length bs)
unfolding unsigned last_byte
from_le-unsigned b [] h = ground arith
from_le-unsigned a (b ∷ bs) h =
    omega (arith, from_le-unsigned b bs h.1, weight_suc (last_byte (b ∷ bs)) (length bs))

half_step : (a u w : ℕ) → a < 256 → 2 * u < 256 ^ suc w → 2 * (a + 256 * u) < 256 ^ suc (suc w)
half_step a u w h k = omega arith

-- One bit of the string is the sign.
pub unsigned-lt : (bs : Bytes) → All IsByte bs → 2 * unsigned bs < 256 ^ length bs
unfolding unsigned
unsigned-lt [] h = omega arith
unsigned-lt (b ∷ []) h = omega arith
unsigned-lt (a ∷ b ∷ bs) h =
    half_step a (unsigned (b ∷ bs)) (length bs) h.0 (unsigned-lt (b ∷ bs) h.1)

pub pow_mono : (a b : ℕ) → a ≤ b → 256 ^ a ≤ 256 ^ b
pow_mono zero zero h = omega arith
pow_mono zero (suc b) h = omega (arith, pow_mono zero b (omega arith))
pow_mono (suc a) zero h = absurd (omega arith)
pow_mono (suc a) (suc b) h = omega (arith, pow_mono a b (omega arith))

bytes_of_bits : (i : ℕ) → 2 ^ (8 * i) ≡ 256 ^ i
bytes_of_bits zero = refl
bytes_of_bits (suc i) =
    let e : 8 * suc i ≡ suc (suc (suc (suc (suc (suc (suc (suc (8 * i)))))))) = omega arith in
    rw e (omega (arith, bytes_of_bits i))

-- The byte `b` behind those of `r`.
next_byte : (r b i : ℕ) → r < 256 ^ i → b < 256 → r + b * 256 ^ i < 256 ^ suc i
next_byte r b i h k = omega (arith, mul-le-mul_right {m = b} {n = 255} (256 ^ i) (omega (arith, k)))

or_byte : (r b i : ℕ) → i < 8 → r < 256 ^ i → bit_or r (b * 2 ^ (8 * i % 64)) ≡ r + b * 256 ^ i
or_byte r b i h k =
    let same : 8 * i % 64 ≡ 8 * i = omega arith in
    let e = bytes_of_bits i in rw (same, e) (rw e at (bit_or_shifted (8 * i) r b (rw e k)))

later_bytes : (r b i f : ℕ) → r + b * 256 ^ i + 256 ^ suc i * f ≡ r + 256 ^ i * (b + 256 * f)
later_bytes r b i f = omega (arith, ap (λ t. t * f) (pow-suc 256 i))

-- Up to eight bytes fall on different places.
or_bytes-from_le :
    (r i : ℕ) (bs : Bytes)
    → All IsByte bs
    → i + length bs ≤ 8
    → r < 256 ^ i
    → or_bytes r i bs ≡ r + 256 ^ i * from_le bs
unfolding or_bytes
or_bytes-from_le r i [] h k l = omega arith
or_bytes-from_le r i (b ∷ bs) h k l = rw (or_byte r b i (omega arith) l) (
    or_bytes-from_le (r + b * 256 ^ i) (suc i) bs h.1 (omega arith) (next_byte r b i l h.0)
    ∙ later_bytes r b i (from_le bs))

-- Below 2^63 and its negative nothing wraps.
i64_of : (m : ℕ) → m < 2 ^ 63 → (to_i64 m ≡ pos m) × (wrap_i64 (neg (to_i64 m)) ≡ neg (pos m))
i64_of m h = ground arith

pub decode_bytes-signed :
    (bs : Bytes)
    → All IsByte bs
    → length bs ≤ 8
    → decode_bytes bs ≡ signed (sign_bit bs) (unsigned bs)
unfolding decode_bytes sign_bit
decode_bytes-signed [] h k = unfold unsigned in refl
decode_bytes-signed (b ∷ bs) h k =
    let all : or_bytes 0 0 (b ∷ bs) ≡ from_le (b ∷ bs) =
      or_bytes-from_le 0 0 (b ∷ bs) h (omega (arith, k)) (omega arith) ∙ omega arith in
    let small : unsigned (b ∷ bs) < 2 ^ 63 =
      omega (arith, unsigned-lt (b ∷ bs) h, pow_mono (length (b ∷ bs)) 8 k) in
    let (as_is, negated) = i64_of (unsigned (b ∷ bs)) small in
    let place : 8 * length bs % 64 ≡ 8 * length bs = omega (arith, k) in
    let weight = bytes_of_bits (length bs) in
    let split = from_le-unsigned b bs h in
    elim (Bool-cases (leb 128 (last_byte (b ∷ bs)))) [
      | inl e ↦
          let cleared : from_le (b ∷ bs) - 128 * 256 ^ length bs ≡ unsigned (b ∷ bs) =
            omega (arith, rw e at split) in
          rw (e, all, place, weight, cleared) negated
      | inr e ↦
          let same : from_le (b ∷ bs) ≡ unsigned (b ∷ bs) = omega (arith, rw e at split) in
          rw (e, all, same) as_is
    ]

pub unsigned-add_sign :
    (s : Bool) (bs : Bytes) → All IsByte bs → unsigned (add_sign s bs) ≡ from_le bs
unfolding unsigned add_sign
unsigned-add_sign s [] h = refl
unsigned-add_sign s (b ∷ []) h = ground arith
unsigned-add_sign s (a ∷ b ∷ []) h = ground arith
unsigned-add_sign s (a ∷ b ∷ c ∷ bs) h = omega (arith, unsigned-add_sign s (b ∷ c ∷ bs) h.1)

pub sign_bit-add_sign : (s : Bool) (b : ℕ) (bs : Bytes) → sign_bit (add_sign s (b ∷ bs)) ≡ s
unfolding sign_bit add_sign
sign_bit-add_sign s b [] = ground arith
sign_bit-add_sign s a (b ∷ []) = ground (arith, sign_bit-add_sign s b [])
sign_bit-add_sign s a (b ∷ c ∷ bs) = sign_bit-add_sign s b (c ∷ bs)

pub from_le-magnitude : (f n : ℕ) → n < 256 ^ f → from_le (magnitude f n) ≡ n
unfolding magnitude
from_le-magnitude zero n h = omega arith
from_le-magnitude (suc f) n h = ground (arith, from_le-magnitude f (n / 256) (omega arith))

pub magnitude-IsByte : (f n : ℕ) → All IsByte (magnitude f n)
unfolding magnitude
magnitude-IsByte zero n = tt
magnitude-IsByte (suc f) n = ground (arith, magnitude-IsByte f (n / 256))

add_sign-cons :
    (s : Bool) (b : ℕ) (bs : Bytes) → (d : ℕ) × (ds : Bytes) × (add_sign s (b ∷ bs) ≡ d ∷ ds)
unfolding add_sign
add_sign-cons s b [] = elim (Bool-cases (leb 128 b)) [
  | inl e ↦ (b, (if s then 0x80 else 0) ∷ [], rw e)
  | inr e ↦ ((if s then b + 128 else b), [], rw e)
]
add_sign-cons s b (c ∷ bs) = (b, add_sign s (c ∷ bs), refl)

-- What `add_sign` writes is minimal, as long as the magnitude has no leading zero.
pub minimal-add_sign :
    (s : Bool) (b : ℕ) (bs : Bytes)
    → All IsByte (b ∷ bs)
    → last_byte (b ∷ bs) ≢ 0
    → minimal (add_sign s (b ∷ bs)) ≡ true
unfolding minimal add_sign last_byte
minimal-add_sign s b [] h k = ground arith
minimal-add_sign s a (b ∷ []) h k = ground arith
minimal-add_sign s a (b ∷ c ∷ bs) h k =
    let (d, ds, e) = add_sign-cons s c bs in
    let ih : minimal (b ∷ add_sign s (c ∷ bs)) ≡ true = minimal-add_sign s b (c ∷ bs) h.1 k in
    rw e (rw e at ih)

pub magnitude-zero : (f n : ℕ) → n ≡ 0 → magnitude f n ≡ []
unfolding magnitude
magnitude-zero zero n e = refl
magnitude-zero (suc f) n e = ground arith

-- A magnitude other than zero has digits, and its last is not zero.
pub magnitude-cons :
    (f n : ℕ)
    → 0 < n
    → n < 256 ^ f
    → (b : ℕ) × (bs : Bytes) × (magnitude f n ≡ b ∷ bs) × (last_byte (b ∷ bs) ≢ 0)
unfolding magnitude last_byte
magnitude-cons zero n p h = absurd (omega arith)
magnitude-cons (suc f) n p h = elim (Bool-cases (ltb n 256)) [
  | inl small ↦ (n, [], ground (arith, magnitude-zero f (n / 256)), omega arith)
  | inr large ↦
      let (b, bs, e, k) = magnitude-cons f (n / 256) (ground arith) (omega arith) in
      (n % 256, b ∷ bs, ground (arith, e), k)
]
