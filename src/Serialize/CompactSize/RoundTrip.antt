-- ===== src/Serialize/CompactSize/RoundTrip.antt =====
-- CompactSize: what is written is read back, and only what would be written is read.
use qubitcoin.Common.{
  ℕ, ◌^◌, ◌≤◌, ◌<◌, ◌≡◌, refl, ap, Bool, true, false, ◌&&◌, [], ◌∷◌, ◌++◌, ltb, length, Result, ok,
  fail_if, arith, length-append, take-append, drop-append, All, >>=-eq-ok, ok-injective,
  take-append-drop, length-take, All-take,
}
use qubitcoin.Common.Bytes.{
  Bytes, IsByte, to_le, from_le, from_le-to_le, length-to_le, to_le-from_le, from_le-lt,
}
use qubitcoin.Serialize.CompactSize.{
  Error, max_size, compact_size_len, write_compact_size, read_exact, read_le, read_size,
  read_compact_size_with_range,
}

-- The length that is announced is the number of bytes written.
pub length-write_compact_size : (n : ℕ) → length (write_compact_size n) ≡ compact_size_len n
unfolding write_compact_size compact_size_len
length-write_compact_size n = ground arith

read_exact-append : (bs rest : Bytes) → read_exact (length bs) (bs ++ rest) ≡ ok (bs, rest)
unfolding read_exact
read_exact-append bs rest =
    let enough : ltb (length (bs ++ rest)) (length bs) ≡ false =
      ground (arith, length-append bs rest) in
    rw (enough, take-append, drop-append) refl

pub read_exact-exact :
    (w : ℕ) (bs rest : Bytes) → length bs ≡ w → read_exact w (bs ++ rest) ≡ ok (bs, rest)
read_exact-exact w bs rest h = rw (← h) (read_exact-append bs rest)

read_le-to_le :
    (w low n : ℕ) (rest : Bytes)
    → n < 256 ^ w
    → low ≤ n
    → read_le w low (to_le w n ++ rest) ≡ ok (n, rest)
unfolding read_le
read_le-to_le w low n rest h k =
    let canonical : ltb n low ≡ false = ground arith in
    rw (read_exact-exact w (to_le w n) rest (length-to_le w n), from_le-to_le w n h, canonical) refl

-- An integer of 64 bits that is written is read back, with what follows left over; with the range
-- check, if it is at most `max_size`.
pub read-write :
    (range_check : Bool) (n : ℕ) (rest : Bytes)
    → n < 2 ^ 64
    → range_check && ltb max_size n ≡ false
    → read_compact_size_with_range range_check (write_compact_size n ++ rest) ≡ ok (n, rest)
unfolding read_compact_size_with_range write_compact_size read_size
read-write range_check n rest h k = ground (
  arith,
  read_le-to_le 2 253 n rest,
  read_le-to_le 4 0x10000 n rest,
  read_le-to_le 8 0x100000000 n rest,
)

read_exact-inverse :
    (w : ℕ) (r buf rest : Bytes)
    → All IsByte r
    → read_exact w r ≡ ok (buf, rest)
    → (buf ++ rest ≡ r) × (length buf ≡ w) × All IsByte buf
unfolding read_exact
read_exact-inverse w r buf rest b h =
    ground (arith, take-append-drop w r, length-take w r, All-take IsByte w r b)

pub ok-pair :
    {E A B : Type 0} {a a' : A} {b b' : B}
    → ◌≡◌ {A = Result E (A × B)} (ok (a, b)) (ok (a', b'))
    → (a ≡ a') × (b ≡ b')
ok-pair h = let e = ok-injective (ok _) refl h in (ap (λ p. p.0) e, ap (λ p. p.1) e)

fail_if-passed : (b : Bool) (e : Error) (u : Unit {0}) → fail_if b e ≡ ok u → b ≡ false
fail_if-passed true e u h = cc
fail_if-passed false e u h = refl

encoded :
    (w n : ℕ) (buf rest r : Bytes)
    → from_le buf ≡ n
    → length buf ≡ w
    → All IsByte buf
    → buf ++ rest ≡ r
    → (to_le w n ++ rest ≡ r) × (n < 256 ^ w)
encoded w n buf rest r e l b h =
    (rw (← e, ← l, to_le-from_le buf b) h, rw (← e, ← l) (from_le-lt buf b))

-- What `read_le` takes is the encoding of what it returns.
read_le-inverse :
    (w low : ℕ) (r : Bytes) (n : ℕ) (rest : Bytes)
    → All IsByte r
    → read_le w low r ≡ ok (n, rest)
    → (to_le w n ++ rest ≡ r) × (low ≤ n) × (n < 256 ^ w)
unfolding read_le
read_le-inverse w low r n rest b h =
    let ((buf, left), e1, h1) = >>=-eq-ok (read_exact w r) _ h in
    let (u, e2, h2) =
      >>=-eq-ok (fail_if (ltb (from_le buf) low) Error.non_canonical_compact_size) _ h1 in
    let passed = fail_if-passed (ltb (from_le buf) low) _ u e2 in
    let (joined, len, bytes) = read_exact-inverse w r buf left b e1 in
    let (value, last) = ok-pair h2 in
    let (same, small) = encoded w n buf left r value len bytes joined in
    (rw (← last) same, ground arith, small)

read_size-inverse :
    (c : ℕ) (r : Bytes) (n : ℕ) (rest : Bytes)
    → c < 256
    → All IsByte r
    → read_size c r ≡ ok (n, rest)
    → (write_compact_size n ++ rest ≡ c ∷ r) × (n < 2 ^ 64)
unfolding read_size write_compact_size
read_size-inverse c r n rest small b h = ground (
  arith,
  read_le-inverse 2 253 r n rest b,
  read_le-inverse 4 0x10000 r n rest b,
  read_le-inverse 8 0x100000000 r n rest b,
)

-- Only the canonical form is read: bytes that are read as `n` start with what is written for `n`,
-- and end with what the reader leaves. `n` has 64 bits, and passes the range check where there is one.
pub write-read :
    (range_check : Bool) (r : Bytes) (n : ℕ) (rest : Bytes)
    → All IsByte r
    → read_compact_size_with_range range_check r ≡ ok (n, rest)
    → (write_compact_size n ++ rest ≡ r) × (n < 2 ^ 64) × (range_check && ltb max_size n ≡ false)
unfolding read_compact_size_with_range
write-read range_check [] n rest b h = cc
write-read range_check (c ∷ r) n rest b h =
    let ((size, left), e1, h1) = >>=-eq-ok (read_size c r) _ h in
    let (u, e2, h2) =
      >>=-eq-ok (fail_if (range_check && ltb max_size size) (Error.compact_size_too_large size)) _
        h1 in
    let passed = fail_if-passed (range_check && ltb max_size size) _ u e2 in
    let (value, last) = ok-pair h2 in
    let (same, small) = read_size-inverse c r size left b.0 b.1 e1 in
    (rw (← value, ← last) same, rw (← value) small, rw (← value) passed)
