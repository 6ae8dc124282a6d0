-- ===== src/Primitives/ArithUint256/Difference.antt =====
-- ArithUint256: steps by one, the negation and the difference, modulo 2^256.
use qubitcoin.Common.{
  ℕ, Bool, true, false, ◌==◌, if◌then◌else◌, ◌+◌, ◌-◌, ◌*◌, ◌/◌, ◌%◌, ◌^◌, ◌<◌, ◌≡◌, refl, sym, ap,
  subst, ◌∙◌, List, [], ◌∷◌, replicate, length, All, arith,
}
use qubitcoin.Primitives.ArithUint256.{limb, add_carry, add, inc, dec, complement, neg, sub}
use qubitcoin.Primitives.ArithUint256.Value.{
  value, capacity, IsLimb, value-lt, capacity_cong, add_carry-value,
}

-- The limbs after an operation: as many, and each in range.
abbrev pub Limbs : List ℕ → List ℕ → Type 0
Limbs p a = All IsLimb p × (length p ≡ length a)

if_either :
    (P : List ℕ → Type 0) (b : Bool) (t e : List ℕ)
    → (b ≡ true → P t)
    → (b ≡ false → P e)
    → P (if b then t else e)
if_either P true t e on off = on refl
if_either P false t e on off = off refl

inc_zero : (x : ℕ) → x < limb → ((x + 1) % limb == 0) ≡ true → x ≡ 4294967295
inc_zero x h z = ground arith

inc_nonzero : (x : ℕ) → x < limb → ((x + 1) % limb == 0) ≡ false → x + 1 < limb
inc_nonzero x h z = ground arith

-- A step up, which from the greatest number goes to zero.
pub inc-value :
    (a : List ℕ)
    → All IsLimb a
    → Limbs (inc a) a × (over : ℕ) × (value (inc a) + capacity a * over ≡ value a + 1)
unfolding inc value capacity
inc-value [] h = ((tt, refl), 1, omega arith)
inc-value (x ∷ a) h =
    let ((lim, len), over, e) = inc-value a h.1 in
    if_either
      (λ p. Limbs p (x ∷ a) × (o : ℕ) × (value p + limb * capacity a * o ≡ x + limb * value a + 1))
      ((x + 1) % limb == 0) ((x + 1) % limb ∷ inc a) ((x + 1) % limb ∷ a)
      (λ z.
        let top = inc_zero x h.0 z in
        (((omega arith, lim), omega (arith, len)), over, omega (arith, top, e)))
      (λ z. let low = inc_nonzero x h.0 z in (((omega arith, h.1), refl), 0, omega (arith, low)))

is_zero : (x : ℕ) → (x == 0) ≡ true → x ≡ 0
is_zero x z = ground arith

is_positive : (x : ℕ) → (x == 0) ≡ false → 0 < x
is_positive x z = ground arith

-- A step down, which from zero goes to the greatest number.
pub dec-value :
    (a : List ℕ)
    → All IsLimb a
    → Limbs (dec a) a × (over : ℕ) × (value (dec a) + 1 ≡ value a + capacity a * over)
unfolding dec value capacity
dec-value [] h = ((tt, refl), 1, omega arith)
dec-value (x ∷ a) h =
    let ((lim, len), over, e) = dec-value a h.1 in
    if_either
      (λ p. Limbs p (x ∷ a) × (o : ℕ) × (value p + 1 ≡ x + limb * value a + limb * capacity a * o))
      (x == 0) ((x + limb - 1) % limb ∷ dec a) ((x + limb - 1) % limb ∷ a)
      (λ z.
        let low = is_zero x z in
        (((omega arith, lim), omega (arith, len)), over, omega (arith, low, e)))
      (λ z. let low = is_positive x z in (((omega arith, h.1), refl), 0, omega (arith, low, h.0)))

complement-value :
    (a : List ℕ)
    → All IsLimb a
    → All IsLimb (complement a)
      × (length (complement a) ≡ length a)
      × (value (complement a) + value a + 1 ≡ capacity a)
unfolding complement value capacity
complement-value [] h = (tt, refl, omega arith)
complement-value (x ∷ a) h =
    let (lim, len, e) = complement-value a h.1 in
    ((omega arith, lim), omega (arith, len), omega (arith, e, h.0))

pub add_carry-Limbs :
    (carry : ℕ) (a b : List ℕ) → length a ≡ length b → Limbs (add_carry carry a b) a
unfolding add_carry
add_carry-Limbs carry [] b h = (tt, refl)
add_carry-Limbs carry (x ∷ a) [] h = absurd (omega (arith, h))
add_carry-Limbs carry (x ∷ a) (y ∷ b) h =
    let (lim, len) = add_carry-Limbs ((carry + x + y) / limb) a b (omega (arith, h)) in
    ((omega arith, lim), omega (arith, len))

capacity-eight : (a : List ℕ) → length a ≡ 8 → capacity a ≡ 2 ^ 256
unfolding capacity
capacity-eight a k = capacity_cong a (replicate 8 0) k

-- The difference of two numbers of eight limbs is eight limbs, and stands for their difference modulo
-- 2^256, where the limbs of the second are below 2^32.
pub sub-value :
    (a b : List ℕ)
    → length a ≡ 8
    → length b ≡ 8
    → All IsLimb b
    → All IsLimb (sub a b)
      × (length (sub a b) ≡ 8)
      × (value (sub a b) ≡ (value a + (2 ^ 256 - value b)) % 2 ^ 256)
unfolding sub add neg
sub-value a b k l h =
    let (clim, clen, ce) = complement-value b h in
    let ((nlim, nlen), o1, ne) = inc-value (complement b) clim in
    let len = nlen ∙ clen in
    let (lim, slen) = add_carry-Limbs 0 a (inc (complement b)) (omega (arith, k, l, len)) in
    let (o2, se) = add_carry-value 0 a (inc (complement b)) (omega (arith, k, l, len)) in
    let bound =
      subst (λ c. value (sub a b) < c) (capacity-eight (sub a b) (slen ∙ k))
        (value-lt (sub a b) lim) in
    (
      lim,
      slen ∙ k,
      difference (value a) (value b) (value (sub a b)) (value (inc (complement b)))
          (value (complement b)) o1 o2 bound
          (ap (λ c. value (sub a b) + c * o2) (sym (capacity-eight a k)) ∙ se)
          (ap (λ c. value (inc (complement b)) + c * o1)
              (sym (capacity-eight (complement b) (clen ∙ l)))
            ∙ ne)
          (ce ∙ capacity-eight b l),
    )
  where
    difference :
        (a b s n c o1 o2 : ℕ)
        → s < 2 ^ 256
        → s + 2 ^ 256 * o2 ≡ 0 + a + n
        → n + 2 ^ 256 * o1 ≡ c + 1
        → c + b + 1 ≡ 2 ^ 256
        → s ≡ (a + (2 ^ 256 - b)) % 2 ^ 256
    difference a b s n c o1 o2 h e f g = omega (arith, h, e, f, g)
