-- ===== src/Coins/Amounts.antt =====
-- `compress_amount` and `decompress_amount` of coins.rs, on a u64.
pub mod RoundTrip
use qubitcoin.Common.{
  ℕ, zero, suc, ◌+◌, ◌-◌, ◌*◌, ◌/◌, ◌%◌, ◌^◌, Bool, true, false, ◌==◌, ltb, if◌then◌else◌,
}

-- The loop that divides by ten, with what `e` may still grow by; it returns `n` and `e`.
unfoldable pub strip_zeros : ℕ → ℕ → ℕ → ℕ × ℕ
strip_zeros zero n e = (n, e)
strip_zeros (suc left) n e =
    let more = strip_zeros left (n / 10) (e + 1) in if n % 10 == 0 then more else (n, e)

unfoldable pub compress_stripped : ℕ → ℕ → ℕ
compress_stripped n e =
    if ltb e 9
    then (1 + (n / 10 * 9 + n % 10 - 1) * 10 + e) % 2 ^ 64
    else (1 + (n - 1) * 10 + 9) % 2 ^ 64

unfoldable pub compress_amount : ℕ → ℕ
compress_amount n =
    let stripped = strip_zeros 9 n 0 in
    if n == 0 then 0 else compress_stripped stripped.0 stripped.1

-- `for _ in 0..e { n *= 10 }`.
unfoldable pub times_ten : ℕ → ℕ → ℕ
times_ten zero n = n
times_ten (suc e) n = times_ten e (n * 10 % 2 ^ 64)

unfoldable pub decompress_amount : ℕ → ℕ
decompress_amount x =
    let e = (x - 1) % 10 in
    let q = (x - 1) / 10 in
    if x == 0 then 0 else times_ten e (if ltb e 9 then q / 9 * 10 + (q % 9 + 1) else q + 1)
