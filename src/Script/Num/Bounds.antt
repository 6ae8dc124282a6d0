-- ===== src/Script/Num/Bounds.antt =====
-- The range of the numbers that the interpreter decodes, and of what it computes from them.
use qubitcoin.Common.{
  ℕ, ◌*◌, ◌^◌, ◌≤◌, ◌<◌, ◌≡◌, refl, Bool, true, false, not, ◌&&◌, ltb, length, All, arith,
  Bool-cases, inl, inr, ok, err,
}
use qubitcoin.Common.Int.{ℤ, abs, neg, ◌+ℤ◌, ◌-ℤ◌}
use qubitcoin.Common.Bytes.{Bytes, IsByte}
use qubitcoin.Script.Num.{minimal, from_bytes, getint}
use qubitcoin.Script.Num.Digits.{
  unsigned, sign_bit, signed, decode_bytes-signed, unsigned-lt, pow_mono,
}

abs-signed : (s : Bool) (m : ℕ) → abs (signed s m) ≡ m
abs-signed true m = ground arith
abs-signed false m = refl

err-ne-ok : {E A : Type 0} {e : E} {a : A} → err e ≡ ok a → ⊥
err-ne-ok h = cc

operands_lem :
    (a b : ℤ)
    → abs a < 2 ^ 31
    → abs b < 2 ^ 31
    → (abs a < 2 ^ 31)
      × (abs (a +ℤ b) < 2 ^ 32)
      × (abs (a -ℤ b) < 2 ^ 32)
      × (abs (neg a) < 2 ^ 31)
      × (getint a ≡ a)
unfolding getint
operands_lem a b h k = (h, ground arith, ground arith, ground arith, ground arith)

-- What `from_bytes` accepts at a size of at most 8 is a number of at most `8 * size - 1` bits, sign excluded.
pub from_bytes-lt :
    (vch : Bytes) (require_minimal : Bool) (size : ℕ) (n : ℤ)
    → All IsByte vch
    → size ≤ 8
    → from_bytes vch require_minimal size ≡ ok n
    → 2 * abs n < 256 ^ size
unfolding from_bytes
from_bytes-lt vch m size n h small e = elim (Bool-cases (ltb size (length vch))) [
  | inl long ↦ absurd (err-ne-ok (rw long at e))
  | inr fits ↦ elim (Bool-cases (m && not (minimal vch))) [
    | inl bad ↦ absurd (err-ne-ok (rw (fits, bad) at e))
    | inr good ↦
        let value : n ≡ signed (sign_bit vch) (unsigned vch) =
          cc (rw (fits, good) at e, decode_bytes-signed vch h (ground arith)) in
        rw (value, abs-signed)
          (omega (arith, unsigned-lt vch h, pow_mono (length vch) size (ground arith)))
  ]
]

-- An operand of four bytes lies in [-2^31 + 1, 2^31 - 1], so sums, differences and negations of
-- operands stay in the range of an i64, and an operand is its own `getint`.
pub operand_bounds :
    (v1 v2 : Bytes) (m : Bool) (n1 n2 : ℤ)
    → All IsByte v1
    → All IsByte v2
    → from_bytes v1 m 4 ≡ ok n1
    → from_bytes v2 m 4 ≡ ok n2
    → (abs n1 < 2 ^ 31)
      × (abs (n1 +ℤ n2) < 2 ^ 32)
      × (abs (n1 -ℤ n2) < 2 ^ 32)
      × (abs (neg n1) < 2 ^ 31)
      × (getint n1 ≡ n1)
operand_bounds v1 v2 m n1 n2 h1 h2 e1 e2 =
    operands_lem n1 n2 (omega (arith, from_bytes-lt v1 m 4 n1 h1 (omega arith) e1))
      (omega (arith, from_bytes-lt v2 m 4 n2 h2 (omega arith) e2))
