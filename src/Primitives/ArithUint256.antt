-- ===== src/Primitives/ArithUint256.antt =====
-- crates/qubitcoin-primitives/src/arith_uint256.rs: `ArithUint256`, eight limbs of 32 bits, the least
-- first. The loops over the limbs are recursions on the list. The intermediate sums, of type u64 in the
-- code, are not reduced: Value shows that they fit.
pub mod Difference
pub mod Value
use qubitcoin.Common.{
  ℕ, zero, suc, ◌+◌, ◌-◌, ◌*◌, ◌/◌, ◌%◌, ◌^◌, Bool, true, false, List, [], ◌∷◌, replicate, map, ltb,
  ◌==◌, if◌then◌else◌,
}

abbrev pub width : ℕ
width = 8

abbrev pub limb : ℕ
limb = 4294967296

unfoldable pub from_u64 : ℕ → List ℕ
from_u64 b = b % limb ∷ b / limb % limb ∷ replicate 6 0

-- `+=`, from a carry on.
unfoldable pub add_carry : ℕ → List ℕ → List ℕ → List ℕ
add_carry carry [] b = []
add_carry carry (x ∷ a) [] = []
add_carry carry (x ∷ a) (y ∷ b) = let n = carry + x + y in n % limb ∷ add_carry (n / limb) a b

unfoldable pub add : List ℕ → List ℕ → List ℕ
add a b = add_carry 0 a b

-- `*=` by a u32, from a carry on.
unfoldable pub mul_u32_carry : ℕ → ℕ → List ℕ → List ℕ
mul_u32_carry carry b32 [] = []
mul_u32_carry carry b32 (x ∷ a) =
    let n = carry + b32 * x in n % limb ∷ mul_u32_carry (n / limb) b32 a

unfoldable pub mul_u32 : List ℕ → ℕ → List ℕ
mul_u32 a b32 = mul_u32_carry 0 b32 a

-- The inner loop of `*=`: the limbs of `a` from `j` on, with `q` times those of `rhs` added.
unfoldable pub add_scaled : ℕ → ℕ → List ℕ → List ℕ → List ℕ
add_scaled carry q [] rhs = []
add_scaled carry q (x ∷ a) [] = []
add_scaled carry q (x ∷ a) (r ∷ rhs) =
    let n = carry + x + q * r in n % limb ∷ add_scaled (n / limb) q a rhs

-- The first limb is done, and the next row works on the others.
unfoldable pub done_limb : List ℕ → (List ℕ → List ℕ) → List ℕ
done_limb [] rows = []
done_limb (x ∷ a) rows = x ∷ rows a

-- The outer loop, over the limbs of the left factor from `j` on.
unfoldable pub mul_rows : List ℕ → List ℕ → List ℕ → List ℕ
mul_rows [] rhs a = a
mul_rows (q ∷ orig) rhs a = done_limb (add_scaled 0 q a rhs) (mul_rows orig rhs)

unfoldable pub mul : List ℕ → List ℕ → List ℕ
mul a rhs = mul_rows a rhs (replicate width 0)

unfoldable pub inc : List ℕ → List ℕ
inc [] = []
inc (x ∷ a) = let y = (x + 1) % limb in let rest = inc a in if y == 0 then y ∷ rest else y ∷ a

unfoldable pub dec : List ℕ → List ℕ
dec [] = []
dec (x ∷ a) =
    let y = (x + limb - 1) % limb in let rest = dec a in if x == 0 then y ∷ rest else y ∷ a

unfoldable pub complement : List ℕ → List ℕ
complement [] = []
complement (x ∷ a) = (limb - 1 - x) ∷ complement a

unfoldable pub neg : List ℕ → List ℕ
neg a = inc (complement a)

unfoldable pub sub : List ℕ → List ℕ → List ℕ
sub a b = add a (neg b)
