-- ===== src/Script/Num/RoundTrip.antt =====
-- Encoding and decoding script numbers are inverse to one another.
use qubitcoin.Common.{
  ℕ, zero, suc, ◌+◌, ◌*◌, ◌/◌, ◌%◌, ◌^◌, ◌≤◌, ◌<◌, ◌≡◌, refl, ap, Bool, true, false, [], ◌∷◌, ◌==◌,
  length, All, arith, Bool-cases, inl, inr, ok, ◌∙◌,
}
use qubitcoin.Common.Int.{ℤ, pos, negsuc, abs, ltb_ℤ}
use qubitcoin.Common.Bytes.{Bytes, IsByte}
use qubitcoin.Script.Num.{
  last_byte, minimal, decode_bytes, magnitude, add_sign, encode_i64, from_bytes,
}
use qubitcoin.Script.Num.Digits.{
  unsigned, sign_bit, signed, decode_bytes-signed, unsigned-add_sign, sign_bit-add_sign,
  from_le-magnitude, magnitude-IsByte, minimal-add_sign, magnitude-cons, magnitude-zero,
}

add_sign-IsByte : (s : Bool) (bs : Bytes) → All IsByte bs → All IsByte (add_sign s bs)
unfolding add_sign
add_sign-IsByte s [] h = h
add_sign-IsByte s (b ∷ []) h = ground arith
add_sign-IsByte s (a ∷ b ∷ bs) h = (h.0, add_sign-IsByte s (b ∷ bs) h.1)

pub encode_i64-IsByte : (z : ℤ) → All IsByte (encode_i64 z)
unfolding encode_i64
encode_i64-IsByte z = add_sign-IsByte _ (magnitude 8 (abs z)) (magnitude-IsByte 8 (abs z))

-- Below 2^63 the sign needs no byte beyond the eighth.
longer-add_sign :
    (s : Bool) (b : ℕ) (bs : Bytes) (m : ℕ)
    → 0 < m
    → length (add_sign s bs) ≤ m
    → length (add_sign s (b ∷ bs)) ≤ suc m
unfolding add_sign
longer-add_sign s b [] m h k = ground arith
longer-add_sign s b (c ∷ bs) m h k = omega (arith, k)

one_byte : (s : Bool) (n : ℕ) → n < 128 → length (add_sign s (n % 256 ∷ [])) ≤ 1
unfolding add_sign
one_byte s n h = ground arith

length-add_sign :
    (s : Bool) (f n : ℕ) → n < 128 * 256 ^ f → length (add_sign s (magnitude (suc f) n)) ≤ suc f
unfolding magnitude
length-add_sign s zero n h = elim (Bool-cases (n == 0)) [
  | inl e ↦ rw (e, magnitude) (unfold add_sign in omega arith)
  | inr e ↦ rw (e, magnitude) (one_byte s n (omega (arith, h)))
]
length-add_sign s (suc f) n h = elim (Bool-cases (n == 0)) [
  | inl e ↦ rw (e, magnitude) (unfold add_sign in omega arith)
  | inr e ↦
      rw (e, magnitude)
        (longer-add_sign s (n % 256) (magnitude (suc f) (n / 256)) (suc f) (omega arith)
          (length-add_sign s f (n / 256) (omega (arith, h))))
]

-- Decoding what was encoded, for a sign and a magnitude that is not zero.
decode-signed :
    (s : Bool) (m : ℕ)
    → 0 < m
    → m < 2 ^ 63
    → (decode_bytes (add_sign s (magnitude 8 m)) ≡ signed s m)
      × (minimal (add_sign s (magnitude 8 m)) ≡ true)
decode-signed s m p h =
    let (b, bs, e, k) = magnitude-cons 8 m p (omega (arith, h)) in
    let bytes : All IsByte (magnitude 8 m) = magnitude-IsByte 8 m in
    let u : unsigned (add_sign s (magnitude 8 m)) ≡ m =
      unsigned-add_sign s (magnitude 8 m) bytes ∙ from_le-magnitude 8 m (omega (arith, h)) in
    let g : sign_bit (add_sign s (magnitude 8 m)) ≡ s = rw e (sign_bit-add_sign s b bs) in
    (
      rw
          (decode_bytes-signed _ (add_sign-IsByte s _ bytes)
            (length-add_sign s 7 m (omega (arith, h))))
          (rw (u, g)),
      rw e (minimal-add_sign s b bs (rw e at bytes) k),
    )

-- A number with a magnitude below 2^63, so every i64 but the least, is decoded from its encoding, and
-- the encoding is minimal.
pub decode-encode :
    (z : ℤ) → abs z < 2 ^ 63 → (decode_bytes (encode_i64 z) ≡ z) × (minimal (encode_i64 z) ≡ true)
unfolding encode_i64
decode-encode (pos zero) h =
    (unfold magnitude add_sign decode_bytes in refl, unfold magnitude add_sign minimal in refl)
decode-encode (pos (suc n)) h =
    let e : ltb_ℤ (pos (suc n)) (pos 0) ≡ false = ground arith in
    rw e (decode-signed false (suc n) (omega arith) h)
decode-encode (negsuc n) h =
    let e : ltb_ℤ (negsuc n) (pos 0) ≡ true = ground arith in
    let same : signed true (suc n) ≡ negsuc n = ground arith in
    rw (e, ← same) (decode-signed true (suc n) (omega arith) h)

pub from_bytes-to_bytes :
    (z : ℤ) (require_minimal : Bool) (size : ℕ)
    → abs z < 2 ^ 63
    → length (encode_i64 z) ≤ size
    → from_bytes (encode_i64 z) require_minimal size ≡ ok z
unfolding from_bytes
from_bytes-to_bytes z m size h k = ground (arith, decode-encode z h)

-- The other direction: only the encoding of a number passes the minimality check.
add_sign-digit :
    (s : Bool) (a b : ℕ) (m bs : Bytes) → add_sign s m ≡ b ∷ bs → add_sign s (a ∷ m) ≡ a ∷ b ∷ bs
unfolding add_sign
add_sign-digit s a b [] bs h = cc
add_sign-digit s a b (c ∷ m) bs h = ap (λ t. a ∷ t) h

magnitude-digit :
    (f a u : ℕ) → a < 256 → 0 < u → magnitude (suc f) (a + 256 * u) ≡ a ∷ magnitude f u
unfolding magnitude
magnitude-digit f a u h p =
    let low : (a + 256 * u) % 256 ≡ a = omega arith in
    let high : (a + 256 * u) / 256 ≡ u = omega arith in
    let more : ((a + 256 * u) == 0) ≡ false = ground arith in rw (more, low, high)

-- The two bytes of a magnitude whose top bit is set.
two_bytes :
    (f a b : ℕ)
    → All IsByte (a ∷ b ∷ [])
    → minimal (a ∷ b ∷ []) ≡ true
    → (b % 128 == 0) ≡ true
    → (0 < unsigned (a ∷ b ∷ []))
      × (add_sign (sign_bit (a ∷ b ∷ [])) (magnitude (suc f) (unsigned (a ∷ b ∷ []))) ≡ a ∷ b ∷ [])
unfolding minimal unsigned sign_bit last_byte add_sign magnitude
two_bytes f a b h k e = ground (arith, magnitude-zero f ((a + 256 * (b % 128)) / 256))

step :
    (f a b : ℕ) (bs : Bytes)
    → All IsByte (a ∷ b ∷ bs)
    → 0 < unsigned (b ∷ bs)
    → add_sign (sign_bit (b ∷ bs)) (magnitude f (unsigned (b ∷ bs))) ≡ b ∷ bs
    → (0 < unsigned (a ∷ b ∷ bs))
      × (add_sign (sign_bit (a ∷ b ∷ bs)) (magnitude (suc f) (unsigned (a ∷ b ∷ bs))) ≡ a ∷ b ∷ bs)
unfolding unsigned sign_bit last_byte
step f a b bs h p q =
    (omega arith, rw (magnitude-digit f a (unsigned (b ∷ bs)) h.0 p) (add_sign-digit _ a b _ bs q))

add_sign-magnitude :
    (f b : ℕ) (bs : Bytes)
    → All IsByte (b ∷ bs)
    → minimal (b ∷ bs) ≡ true
    → length (b ∷ bs) ≤ f
    → (0 < unsigned (b ∷ bs))
      × (add_sign (sign_bit (b ∷ bs)) (magnitude f (unsigned (b ∷ bs))) ≡ b ∷ bs)
add_sign-magnitude zero b bs h k l = absurd (omega arith)
add_sign-magnitude (suc f) b [] h k l =
    unfold minimal unsigned sign_bit last_byte add_sign magnitude in
    ground (arith, magnitude-zero f (b % 128 / 256))
add_sign-magnitude (suc f) a (b ∷ []) h k l = elim (Bool-cases (b % 128 == 0)) [
  | inl e ↦ two_bytes f a b h k e
  | inr e ↦
      let (p, q) = add_sign-magnitude f b [] h.1 (unfold minimal in rw e) (omega arith) in
      step f a b [] h p q
]
add_sign-magnitude (suc f) a (b ∷ c ∷ bs) h k l =
    let (p, q) = add_sign-magnitude f b (c ∷ bs) h.1 (unfold minimal in k) (omega arith) in
    step f a b (c ∷ bs) h p q

signed-sign : (s : Bool) (m : ℕ) → 0 < m → (ltb_ℤ (signed s m) (pos 0) ≡ s) × (abs (signed s m) ≡ m)
signed-sign true m p = ground arith
signed-sign false m p = ground arith

-- A string of at most 8 bytes that passes the minimality check is the encoding of the number that
-- it decodes to: no number has two accepted encodings.
pub encode-decode :
    (vch : Bytes)
    → All IsByte vch
    → length vch ≤ 8
    → minimal vch ≡ true
    → encode_i64 (decode_bytes vch) ≡ vch
unfolding encode_i64
encode-decode [] h l k = unfold decode_bytes magnitude add_sign in refl
encode-decode (b ∷ bs) h l k =
    let (p, q) = add_sign-magnitude 8 b bs h k l in
    let (s, a) = signed-sign (sign_bit (b ∷ bs)) (unsigned (b ∷ bs)) p in
    rw (decode_bytes-signed (b ∷ bs) h l) (rw (s, a) q)
