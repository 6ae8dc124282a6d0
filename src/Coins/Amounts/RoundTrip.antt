-- ===== src/Coins/Amounts/RoundTrip.antt =====
-- Amounts: an amount is got back from its compressed form.
use qubitcoin.Common.{
  ℕ, zero, suc, ◌+◌, ◌-◌, ◌*◌, ◌/◌, ◌%◌, ◌^◌, ◌≤◌, ◌<◌, ◌≡◌, ◌⊎◌, inl, inr, refl, ◌∙◌, false, ◌==◌,
  ltb, if◌then◌else◌, arith, Bool-cases,
}
use qubitcoin.Coins.Amounts.{
  strip_zeros, compress_stripped, compress_amount, times_ten, decompress_amount,
}

times_ten-end : (e n : ℕ) → times_ten (suc e) n ≡ times_ten e n * 10 % 2 ^ 64
unfolding times_ten
times_ten-end zero n = refl
times_ten-end (suc e) n = times_ten-end e (n * 10 % 2 ^ 64)

-- What the loop leaves: the zeros it took, counted, and none left unless it took all it may.
record Stripped (left n e m f : ℕ) : Type 0 where
  taken : ℕ
  counted : f ≡ e + taken
  few : taken ≤ left
  back : times_ten taken m ≡ n
  positive : 0 < m
  shorter : m ≤ n
  end : (taken ≡ left) ⊎ (0 < m % 10)

strip_zeros-Stripped :
    (left n e : ℕ)
    → 0 < n
    → n < 2 ^ 64
    → Stripped left n e (strip_zeros left n e).0 (strip_zeros left n e).1
unfolding strip_zeros
strip_zeros-Stripped zero n e p h = record {
  taken = 0;
  counted = omega arith;
  few = omega arith;
  back = unfold times_ten in refl;
  positive = p;
  shorter = omega arith;
  end = inl refl;
}
strip_zeros-Stripped (suc left) n e p h = elim (Bool-cases (n % 10 == 0)) [
  | inr t ↦ rw t (record {
    taken = 0;
    counted = omega arith;
    few = omega arith;
    back = unfold times_ten in refl;
    positive = p;
    shorter = omega arith;
    end = inr (ground arith);
  })
  | inl t ↦
      let s = strip_zeros-Stripped left (n / 10) (e + 1) (ground arith) (omega arith) in
      rw t (record {
        taken = suc s.taken;
        counted = omega (arith, s.counted);
        few = omega (arith, s.few);
        back = times_ten-end s.taken _ ∙ ground (arith, s.back);
        positive = s.positive;
        shorter = omega (arith, s.shorter);
        end = ground (arith, s.end);
      })
]

-- The last digit of the compressed form is the number of zeros.
decompress_digits :
    (q r : ℕ)
    → r < 10
    → decompress_amount (1 + q * 10 + r)
      ≡ times_ten r (if ltb r 9 then q / 9 * 10 + (q % 9 + 1) else q + 1)
unfolding decompress_amount
decompress_digits q r h =
    let some : (1 + q * 10 + r == 0) ≡ false = ground arith in
    let zeros : (1 + q * 10 + r - 1) % 10 ≡ r = omega arith in
    let rest : (1 + q * 10 + r - 1) / 10 ≡ q = omega arith in rw (some, zeros, rest) refl

stripped-back :
    (m e : ℕ)
    → 0 < m
    → e ≤ 9
    → (e ≡ 9) ⊎ (0 < m % 10)
    → 10 * m < 2 ^ 64
    → decompress_amount (compress_stripped m e) ≡ times_ten e m
unfolding compress_stripped
stripped-back m e p few end h = elim (Bool-cases (ltb e 9)) [
  | inl small ↦
      let digit : 0 < m % 10 = ground arith in
      let q = m / 10 * 9 + m % 10 - 1 in
      let fits : (1 + q * 10 + e) % 2 ^ 64 ≡ 1 + q * 10 + e = ground arith in
      let back : q / 9 * 10 + (q % 9 + 1) ≡ m = omega arith in
      rw (small, fits, decompress_digits q e (ground arith), small, back) refl
  | inr large ↦
      let nine : e ≡ 9 = ground arith in
      let fits : (1 + (m - 1) * 10 + 9) % 2 ^ 64 ≡ 1 + (m - 1) * 10 + 9 = ground arith in
      let back : m - 1 + 1 ≡ m = omega arith in
      rw (large, fits, decompress_digits (m - 1) 9 (omega arith), back, nine) refl
]

-- Every amount below 2^64 / 10, far above MAX_MONEY, is got back from its compressed form.
pub decompress_amount-compress_amount :
    (n : ℕ) → 10 * n < 2 ^ 64 → decompress_amount (compress_amount n) ≡ n
unfolding compress_amount
decompress_amount-compress_amount zero h = unfold decompress_amount in refl
decompress_amount-compress_amount (suc n) h =
    let s = strip_zeros-Stripped 9 (suc n) 0 (omega arith) (omega arith) in
    let some : (suc n == 0) ≡ false = ground arith in
    let m = (strip_zeros 9 (suc n) 0).0 in
    let e = (strip_zeros 9 (suc n) 0).1 in
    let exponent : e ≡ s.taken = omega (arith, s.counted) in
    let few : e ≤ 9 = omega (arith, s.counted, s.few) in
    let end : (e ≡ 9) ⊎ (0 < m % 10) = ground (arith, s.end, s.counted) in
    let shorter : 10 * m < 2 ^ 64 = omega (arith, s.shorter) in
    rw (some, stripped-back m e s.positive few end shorter, exponent) (s.back)

pub compress_amount-lt : (n : ℕ) → compress_amount n < 2 ^ 64
unfolding compress_amount compress_stripped
compress_amount-lt n = ground arith
