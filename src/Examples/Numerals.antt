-- ===== src/Examples/Numerals.antt =====
-- 256-bit integers: runs, and the product and the difference at concrete limbs.
use qubitcoin.Common.{arith, ◌+◌, ◌-◌, ◌*◌, ◌%◌, ◌^◌, ◌≡◌, refl, List, [], ◌∷◌, ℕ, length, All}
use qubitcoin.Primitives.ArithUint256.{
  from_u64, add_carry, add, mul_u32_carry, mul_u32, mul, inc, dec, sub,
}
use qubitcoin.Primitives.ArithUint256.Value.{value, IsLimb, mul-value}
use qubitcoin.Primitives.ArithUint256.Difference.{sub-value}

abbrev big : List ℕ
big = 4294967295 ∷ 7 ∷ 0 ∷ 0 ∷ 0 ∷ 0 ∷ 0 ∷ 2147483648 ∷ []

abbrev small : List ℕ
small = 4294967295 ∷ 3 ∷ 0 ∷ 0 ∷ 0 ∷ 0 ∷ 0 ∷ 0 ∷ []

small_from : small ≡ from_u64 17179869183
unfolding from_u64
small_from = refl

double : mul_u32 big 2 ≡ add big big
unfolding mul_u32 mul_u32_carry add add_carry
double = refl

up_and_down : inc (dec (from_u64 0)) ≡ from_u64 0
unfolding inc dec from_u64
up_and_down = refl

mul-value_example :
    All IsLimb (mul big small)
    × (length (mul big small) ≡ 8)
    × (value (mul big small) ≡ value big * value small % 2 ^ 256)
mul-value_example = mul-value big small refl refl

sub-value_example :
    All IsLimb (sub small big)
    × (length (sub small big) ≡ 8)
    × (value (sub small big) ≡ (value small + (2 ^ 256 - value big)) % 2 ^ 256)
sub-value_example = sub-value small big refl refl (
  omega arith,
  (
    omega arith,
    (omega arith, (omega arith, (omega arith, (omega arith, (omega arith, (omega arith, tt)))))),
  ),
)
