-- ===== src/Primitives/ArithUint256/Value.antt =====
-- ArithUint256: the operations on the limbs are those on numbers, modulo 2^256.
use qubitcoin.Common.{
  ℕ, suc, ◌+◌, ◌*◌, ◌/◌, ◌%◌, ◌^◌, ◌≤◌, ◌<◌, ◌≡◌, refl, sym, ap, subst, ◌∙◌, List, [], ◌∷◌,
  replicate, length, All, arith,
}
use native.Mathlib.Nat.{mul-le-mul}
use qubitcoin.Primitives.ArithUint256.{
  limb, add_carry, mul_u32_carry, add_scaled, done_limb, mul_rows, mul,
}

-- The number that limbs stand for.
unfoldable pub value : List ℕ → ℕ
value [] = 0
value (x ∷ a) = x + limb * value a

-- 2^32 to the number of limbs.
unfoldable pub capacity : List ℕ → ℕ
capacity [] = 1
capacity (x ∷ a) = limb * capacity a

abbrev pub IsLimb : ℕ → Type 0
IsLimb x = x < limb

pub value-lt : (a : List ℕ) → All IsLimb a → value a < capacity a
unfolding value capacity
value-lt [] h = omega arith
value-lt (x ∷ a) h = let lt = value-lt a h.1 in let l = h.0 in omega (arith, lt, l)

-- One limb of a row: the limb and the carry are the sum, whatever the rest adds.
limb_step :
    (n v w c over : ℕ)
    → v + c * over ≡ n / limb + w
    → n % limb + limb * v + limb * c * over ≡ n + limb * w
limb_step n v w c over e = omega (arith, e)

row_step :
    (carry x q r va vr v c over : ℕ)
    → v + c * over ≡ (carry + x + q * r) / limb + va + q * vr
    → (carry + x + q * r) % limb + limb * v + limb * c * over
      ≡ carry + (x + limb * va) + q * (r + limb * vr)
row_step carry x q r va vr v c over e =
    limb_step (carry + x + q * r) v (va + q * vr) c over (omega (arith, e)) ∙ omega arith

rows_step :
    (x q va v va' vr vo c o1 o2 s : ℕ)
    → x + limb * va' + limb * c * o1 ≡ s + q * vr
    → v + c * o2 ≡ va' + vo * vr
    → x + limb * v + limb * c * (o1 + o2) ≡ s + (q + limb * vo) * vr
rows_step x q va v va' vr vo c o1 o2 s e f = omega (arith, e, f)

-- A row adds `q` times the right factor, up to what overflows the limbs.
pub add_scaled-value :
    (carry q : ℕ) (a rhs : List ℕ)
    → length a ≤ length rhs
    → (over : ℕ) × (value (add_scaled carry q a rhs) + capacity a * over
        ≡ carry + value a + q * value rhs)
unfolding add_scaled value capacity
add_scaled-value carry q [] rhs h = (carry + q * value rhs, omega arith)
add_scaled-value carry q (x ∷ a) [] h = absurd (omega (arith, h))
add_scaled-value carry q (x ∷ a) (r ∷ rhs) h =
    let n = carry + x + q * r in
    let (over, e) = add_scaled-value (n / limb) q a rhs (omega (arith, h)) in
    (
      over,
      row_step carry x q r (value a) (value rhs) (value (add_scaled (n / limb) q a rhs))
          (capacity a) over e,
    )

pub length-add_scaled :
    (carry q : ℕ) (a rhs : List ℕ)
    → length a ≤ length rhs
    → length (add_scaled carry q a rhs) ≡ length a
unfolding add_scaled
length-add_scaled carry q [] rhs h = refl
length-add_scaled carry q (x ∷ a) [] h = absurd (omega (arith, h))
length-add_scaled carry q (x ∷ a) (r ∷ rhs) h =
    ap suc (length-add_scaled ((carry + x + q * r) / limb) q a rhs (omega (arith, h)))

pub add_scaled-Limbs : (carry q : ℕ) (a rhs : List ℕ) → All IsLimb (add_scaled carry q a rhs)
unfolding add_scaled
add_scaled-Limbs carry q [] rhs = tt
add_scaled-Limbs carry q (x ∷ a) [] = tt
add_scaled-Limbs carry q (x ∷ a) (r ∷ rhs) =
    (omega arith, add_scaled-Limbs ((carry + x + q * r) / limb) q a rhs)

pub capacity_cong : (a b : List ℕ) → length a ≡ length b → capacity a ≡ capacity b
unfolding capacity
capacity_cong [] [] e = refl
capacity_cong [] (x ∷ b) e = absurd (omega (arith, e))
capacity_cong (x ∷ a) [] e = absurd (omega (arith, e))
capacity_cong (x ∷ a) (y ∷ b) e = ap (λ c. limb * c) (capacity_cong a b (omega (arith, e)))

-- What the outer loop promises of the product so far: its limbs, how many, and the number.
abbrev pub Product : List ℕ → List ℕ → List ℕ → List ℕ → Type 0
Product orig rhs a p =
    All IsLimb p
    × (length p ≡ length a)
    × (over : ℕ) × (value p + capacity a * over ≡ value a + value orig * value rhs)

pub mul_rows-value :
    (orig rhs a : List ℕ)
    → length orig ≡ length a
    → length a ≤ length rhs
    → All IsLimb a
    → Product orig rhs a (mul_rows orig rhs a)
unfolding mul_rows done_limb value capacity
mul_rows-value [] rhs [] e h l = (tt, refl, 0, omega arith)
mul_rows-value [] rhs (x ∷ a) e h l = absurd (omega (arith, e))
mul_rows-value (q ∷ orig) rhs [] e h l = absurd (omega (arith, e))
mul_rows-value (q ∷ orig) rhs (x ∷ a) e h l =
    done (add_scaled 0 q (x ∷ a) rhs) (length-add_scaled 0 q (x ∷ a) rhs h)
      (add_scaled-Limbs 0 q (x ∷ a) rhs) (add_scaled-value 0 q (x ∷ a) rhs h)
      (λ s k ls. mul_rows-value orig rhs s (omega (arith, e, k)) (omega (arith, h, k)) ls)
  where
    done :
        (s : List ℕ)
        → length s ≡ length (x ∷ a)
        → All IsLimb s
        → (over : ℕ) × (value s + capacity (x ∷ a) * over ≡ 0 + value (x ∷ a) + q * value rhs)
        → ((t : List ℕ)
            → length t ≡ length a
            → All IsLimb t
            → Product orig rhs t (mul_rows orig rhs t))
        → Product (q ∷ orig) rhs (x ∷ a) (done_limb s (mul_rows orig rhs))
    done [] k ls r rest = absurd (omega (arith, k))
    done (y ∷ s) k ls (o1, r) rest =
        let (lim, len, o2, f) = rest s (omega (arith, k)) ls.1 in
        let c = capacity_cong s a (omega (arith, k)) in
        (
          (ls.0, lim),
          omega (arith, len, k),
          o1 + o2,
          rows_step y q (value a) (value (mul_rows orig rhs s)) (value s) (value rhs) (value orig)
              (capacity a) o1 o2 (x + limb * value a) (omega (arith, r))
              (ap (λ t. value (mul_rows orig rhs s) + t * o2) (sym c) ∙ f),
        )

-- A step of the inner loop fits in 64 bits.
pub limb_sum_bound :
    (carry x q r : ℕ)
    → carry < limb
    → x < limb
    → q < limb
    → r < limb
    → (carry + x + q * r < 2 ^ 64) × ((carry + x + q * r) / limb < limb)
limb_sum_bound carry x q r hc hx hq hr =
    (omega (arith, product q r hq hr), omega (arith, product q r hq hr))
  where
    product : (q r : ℕ) → q < limb → r < limb → q * r ≤ 4294967295 * 4294967295
    product q r hq hr =
        mul-le-mul {n₂ = 4294967295} {m₂ = 4294967295} (omega (arith, hq)) (omega (arith, hr))

-- The product of two numbers of eight limbs is eight limbs, and stands for their product modulo 2^256.
pub mul-value :
    (a b : List ℕ)
    → length a ≡ 8
    → length b ≡ 8
    → All IsLimb (mul a b)
      × (length (mul a b) ≡ 8)
      × (value (mul a b) ≡ value a * value b % 2 ^ 256)
unfolding mul capacity value
mul-value a b k l =
    let (lim, len, over, e) = mul_rows-value a b (replicate 8 0) k (omega (arith, l)) zeros in
    (
      lim,
      len,
      remainder (value (mul_rows a b (replicate 8 0))) over (value a * value b)
          (bound (mul_rows a b (replicate 8 0)) lim len) e,
    )
  where
    lt : 0 < limb
    lt = omega arith

    zeros : All IsLimb (replicate 8 0)
    zeros = (lt, (lt, (lt, (lt, (lt, (lt, (lt, (lt, tt))))))))

    bound : (p : List ℕ) → All IsLimb p → length p ≡ 8 → value p < 2 ^ 256
    bound p h e = subst (λ c. value p < c) (capacity_cong p (replicate 8 0) e) (value-lt p h)

    remainder : (v over m : ℕ) → v < 2 ^ 256 → v + 2 ^ 256 * over ≡ 0 + m → v ≡ m % 2 ^ 256
    remainder v over m h e = omega (arith, h, e)

-- The same for a factor of 32 bits, and for the sum.
pub mul_u32_carry-value :
    (carry b32 : ℕ) (a : List ℕ)
    → (over : ℕ) × (value (mul_u32_carry carry b32 a) + capacity a * over ≡ carry + b32 * value a)
unfolding mul_u32_carry value capacity
mul_u32_carry-value carry b32 [] = (carry, omega arith)
mul_u32_carry-value carry b32 (x ∷ a) =
    let n = carry + b32 * x in
    let (over, e) = mul_u32_carry-value (n / limb) b32 a in
    (
      over,
      limb_step n (value (mul_u32_carry (n / limb) b32 a)) (b32 * value a) (capacity a) over e
          ∙ omega arith,
    )

pub add_carry-value :
    (carry : ℕ) (a b : List ℕ)
    → length a ≡ length b
    → (over : ℕ) × (value (add_carry carry a b) + capacity a * over ≡ carry + value a + value b)
unfolding add_carry value capacity
add_carry-value carry [] [] h = (carry, omega arith)
add_carry-value carry [] (y ∷ b) h = absurd (omega (arith, h))
add_carry-value carry (x ∷ a) [] h = absurd (omega (arith, h))
add_carry-value carry (x ∷ a) (y ∷ b) h =
    let n = carry + x + y in
    let (over, e) = add_carry-value (n / limb) a b (omega (arith, h)) in
    (
      over,
      limb_step n (value (add_carry (n / limb) a b)) (value a + value b) (capacity a) over
            (omega (arith, e))
          ∙ omega arith,
    )
