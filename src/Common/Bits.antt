-- ===== src/Common/Bits.antt =====
-- `|` of numbers whose digits do not meet is their sum.
use Prim.Native.Nat.{
  ℕ, zero, suc, ◌+◌, ◌*◌, ◌/◌, ◌%◌, ◌^◌, ◌≤◌, ◌<◌, max, bit_or, digits, bit_or-bitwise,
}
use mathlib.Core.Path.{◌≡◌, refl, ap}
use native.Mathlib.Omega.{arith}
use native.Mathlib.Nat.{pow-suc}

-- The digits of `|`, for a left number within the fuel, do not depend on the fuel.
abbrev or_digits : ℕ → ℕ → ℕ → ℕ
or_digits fuel r q = digits (λ b. b) max fuel r q

or_digits_enough : (f g r q : ℕ) → r ≤ f → r ≤ g → or_digits f r q ≡ or_digits g r q
or_digits_enough zero zero r q h k = refl
or_digits_enough zero (suc g) zero q h k = refl
or_digits_enough (suc f) zero zero q h k = refl
or_digits_enough zero (suc g) (suc r) q h k = absurd (omega arith)
or_digits_enough (suc f) zero (suc r) q h k = absurd (omega arith)
or_digits_enough (suc f) (suc g) zero q h k = refl
or_digits_enough (suc f) (suc g) (suc r) q h k =
    omega (arith, or_digits_enough f g (suc r / 2) (q / 2) (omega arith) (omega arith))

zero-bit_or : (q : ℕ) → bit_or 0 q ≡ q
zero-bit_or q = bit_or-bitwise 0 q

last_digit : (r q : ℕ) → bit_or r q ≡ bit_or (r / 2) (q / 2) * 2 + max (r % 2) (q % 2)
last_digit zero q = omega (arith, zero-bit_or q, zero-bit_or (q / 2))
last_digit (suc r) q = omega (
  arith,
  bit_or-bitwise (suc r) q,
  bit_or-bitwise (suc r / 2) (q / 2),
  or_digits_enough r (suc r / 2) (suc r / 2) (q / 2) (omega arith) (omega arith),
)

twice : (q k : ℕ) → q * 2 ^ suc k ≡ 2 * (q * 2 ^ k)
twice q k = omega (arith, ap (λ t. q * t) (pow-suc 2 k))

-- A number below 2^k, and one shifted by `k`.
pub bit_or_shifted : (k r q : ℕ) → r < 2 ^ k → bit_or r (q * 2 ^ k) ≡ r + q * 2 ^ k
bit_or_shifted zero r q h = ground (arith, zero-bit_or q)
bit_or_shifted (suc k) r q h =
    ground
      (arith, last_digit r (q * 2 ^ suc k), twice q k, bit_or_shifted k (r / 2) q (omega arith))
