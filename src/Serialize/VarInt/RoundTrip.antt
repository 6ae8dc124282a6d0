-- ===== src/Serialize/VarInt/RoundTrip.antt =====
-- VarInt: every 64-bit integer is read back, and has one encoding.
use qubitcoin.Common.{
  ℕ, zero, suc, ◌+◌, ◌-◌, ◌*◌, ◌/◌, ◌%◌, ◌^◌, ◌≤◌, ◌<◌, ◌≡◌, refl, sym, ◌∙◌, ap, Bool, true, false,
  [], ◌∷◌, ◌++◌, ltb, leb, if◌then◌else◌, length, Result, ok, arith, All, Bool-cases, inl, inr, ◌⊎◌,
}
use qubitcoin.Common.Bytes.{Bytes, IsByte}
use qubitcoin.Serialize.CompactSize.{Error}
use qubitcoin.Serialize.CompactSize.RoundTrip.{ok-pair}
use qubitcoin.Serialize.VarInt.{
  varint_len_loop, varint_len, write_varint_loop, write_varint, read_varint_loop, read_varint,
}

write_varint_loop-append :
    (fuel : ℕ) (later : Bool) (n : ℕ) (tmp rest : Bytes)
    → write_varint_loop fuel later n tmp ++ rest ≡ write_varint_loop fuel later n (tmp ++ rest)
unfolding write_varint_loop
write_varint_loop-append zero later n tmp rest = refl
write_varint_loop-append (suc fuel) later n tmp rest =
    let digit = n % 128 + (if later then 0x80 else 0x00) in
    ground (arith, write_varint_loop-append fuel true (n / 128 - 1) (digit ∷ tmp) rest)

-- The digits before the last, read, give `n + 1`.
read-later :
    (fuel n : ℕ) (tmp : Bytes)
    → n + 1 < 128 ^ fuel
    → n + 1 < 2 ^ 64
    → read_varint_loop 0 (write_varint_loop fuel true n tmp) ≡ read_varint_loop (n + 1) tmp
unfolding write_varint_loop
read-later zero n tmp h k = absurd (omega arith)
read-later (suc fuel) n tmp h k = elim (Bool-cases (leb n 0x7f)) [
  | inl e ↦ rw e (unfold read_varint_loop in ground arith)
  | inr e ↦
      rw (e, read-later fuel (n / 128 - 1) ((n % 128 + 0x80) ∷ tmp) (ground arith) (ground arith))
        (unfold read_varint_loop in ground arith)
]

-- A 64-bit integer is read back from what is written for it, with what follows left over.
pub read_varint-write_varint :
    (n : ℕ) (rest : Bytes) → n < 2 ^ 64 → read_varint (write_varint n ++ rest) ≡ ok (n, rest)
unfolding read_varint write_varint write_varint_loop
read_varint-write_varint n rest h = elim (Bool-cases (leb n 0x7f)) [
  | inl e ↦ rw e (unfold read_varint_loop in ground arith)
  | inr e ↦
      rw
        (
          e,
          write_varint_loop-append 9 true (n / 128 - 1) ((n % 128 + 0) ∷ []) rest,
          read-later 9 (n / 128 - 1) ((n % 128 + 0) ∷ rest) (ground arith) (ground arith),
        )
        (unfold read_varint_loop in ground arith)
]

-- More fuel than the digits need writes the same.
write_varint_loop_enough :
    (fuel : ℕ) (later : Bool) (n : ℕ) (tmp : Bytes)
    → n + 1 < 128 ^ fuel
    → write_varint_loop (suc fuel) later n tmp ≡ write_varint_loop fuel later n tmp
unfolding write_varint_loop
write_varint_loop_enough zero later n tmp h = absurd (omega arith)
write_varint_loop_enough (suc fuel) later n tmp h = elim (Bool-cases (leb n 0x7f)) [
  | inl e ↦ rw e refl
  | inr e ↦ rw (e) (
      write_varint_loop_enough fuel true (n / 128 - 1)
        ((n % 128 + (if later then 0x80 else 0)) ∷ tmp) (ground arith))
]

-- The bytes that brought the reader to `n`, in front of those it has left.
abbrev read_so_far : ℕ → Bytes → Bytes
read_so_far zero r = r
read_so_far (suc n) r = write_varint_loop 10 true n r

-- The digits of `n * 128 + d` are those that lead to `n`, and `d`.
next_digit :
    (later : Bool) (n d : ℕ) (r : Bytes)
    → n < 2 ^ 57
    → d < 128
    → write_varint_loop 10 later (n * 128 + d) r
      ≡ read_so_far n ((d + (if later then 0x80 else 0x00)) ∷ r)
unfolding write_varint_loop
next_digit later zero d r h k = ground arith
next_digit later (suc n) d r h k =
    let big : leb (suc n * 128 + d) 0x7f ≡ false = ground arith in
    let low : (suc n * 128 + d) % 128 ≡ d = omega arith in
    let high : (suc n * 128 + d) / 128 - 1 ≡ n = omega arith in
    rw (big, low, high)
      (sym (
        write_varint_loop_enough 9 true n ((d + (if later then 0x80 else 0x00)) ∷ r) (omega arith)))

-- A digit read is the last, or one more is to follow.
read_varint_loop-step :
    (n ch : ℕ) (r : Bytes) (m : ℕ) (rest : Bytes)
    → ch < 256
    → read_varint_loop n (ch ∷ r) ≡ ok (m, rest)
    → (n < 2 ^ 57)
      × (((ch < 128) × (n * 128 + ch ≡ m) × (r ≡ rest))
          ⊎ ((128 ≤ ch) × (read_varint_loop (suc (n * 128 + (ch - 128))) r ≡ ok (m, rest))))
unfolding read_varint_loop
read_varint_loop-step n ch r m rest small h =
    let fits : ltb 0x1ffffffffffffff n ≡ false = ground arith in
    let bound : n < 2 ^ 57 = ground arith in
    (
      bound,
      elim (Bool-cases (leb 128 ch)) [
        | inl e ↦
            let same : n * 128 % 2 ^ 64 + ch % 128 + 1 ≡ suc (n * 128 + (ch - 128)) =
              ground arith in
            inr (ground arith, rw (← same) (ground arith))
        | inr e ↦
            let read : ◌≡◌ {A = Result Error (ℕ × Bytes)} (ok (n * 128 % 2 ^ 64 + ch % 128, r))
                (ok (m, rest)) =
              ground arith in
            let (value, last) = ok-pair read in inl (ground arith, ground (arith, value), last)
      ],
    )

write_varint_loop-read :
    (n : ℕ) (r : Bytes) (m : ℕ) (rest : Bytes)
    → All IsByte r
    → read_varint_loop n r ≡ ok (m, rest)
    → (write_varint_loop 10 false m rest ≡ read_so_far n r) × (m < 2 ^ 64)
unfolding read_varint_loop
write_varint_loop-read n [] m rest b h = cc
write_varint_loop-read n (ch ∷ r) m rest b h =
    let (bound, digit) = read_varint_loop-step n ch r m rest b.0 h in
    elim digit [
      | inl (low, value, last) ↦
          let here = next_digit false n ch r bound low in
          let plain : ch + 0 ≡ ch = omega arith in
          (rw (← value, ← last, here) (ap (λ d. read_so_far n (d ∷ r)) plain), omega arith)
      | inr (high, next) ↦
          let (same, small) =
            write_varint_loop-read (suc (n * 128 + (ch - 128))) r m rest b.1 next in
          let here = next_digit true n (ch - 128) r bound (omega arith) in
          let tagged : ch - 128 + 0x80 ≡ ch = omega arith in
          (same ∙ here ∙ ap (λ d. read_so_far n (d ∷ r)) tagged, small)
    ]

-- Only one form is read: bytes that are read as `n` start with what is written for `n`, and end with
-- what the reader leaves; `n` has 64 bits.
pub write_varint-read_varint :
    (r : Bytes) (n : ℕ) (rest : Bytes)
    → All IsByte r
    → read_varint r ≡ ok (n, rest)
    → (write_varint n ++ rest ≡ r) × (n < 2 ^ 64)
unfolding write_varint read_varint
write_varint-read_varint r n rest b h =
    let (same, small) = write_varint_loop-read 0 r n rest b h in
    (write_varint_loop-append 10 false n [] rest ∙ same, small)

length-write_varint_loop :
    (fuel : ℕ) (later : Bool) (n : ℕ) (tmp : Bytes)
    → length (write_varint_loop fuel later n tmp) ≡ varint_len_loop fuel n + length tmp
unfolding write_varint_loop varint_len_loop
length-write_varint_loop zero later n tmp = ground arith
length-write_varint_loop (suc fuel) later n tmp =
    let digit = n % 128 + (if later then 0x80 else 0x00) in
    ground (arith, length-write_varint_loop fuel true (n / 128 - 1) (digit ∷ tmp))

-- The length that is announced is the number of bytes written.
pub length-write_varint : (n : ℕ) → length (write_varint n) ≡ varint_len n
unfolding write_varint varint_len
length-write_varint n = omega (arith, length-write_varint_loop 10 false n [])
