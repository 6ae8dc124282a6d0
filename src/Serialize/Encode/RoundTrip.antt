-- ===== src/Serialize/Encode/RoundTrip.antt =====
-- Encode: each value that is written is read back.
use qubitcoin.Common.{
  ℕ, ◌-◌, ◌^◌, ◌≤◌, ◌<◌, ◌≡◌, refl, ◌∙◌, ap, true, false, List, [], ◌∷◌, ◌++◌, ltb, length, ok,
  arith, All, map,
}
use mathlib.Core.List.{append_assoc, map-id}
use qubitcoin.Common.Int.{ℤ, pos, negsuc, IsI64, to_u64, to_i64}
use qubitcoin.Common.Bytes.{Bytes, to_le, from_le-to_le, length-to_le}
use qubitcoin.Serialize.CompactSize.{max_size, write_compact_size, read_compact_size}
use qubitcoin.Serialize.CompactSize.RoundTrip.{read-write, read_exact-exact}
use qubitcoin.Serialize.Encode.{
  Decoder, decode_uint, encode_i64_le, decode_i64_le, encode_bytes, decode_byte_vec, encode_items,
  encode_vec, decode_items, decode_vec,
}

-- What is written for a value that fits is read back as that value, with what follows left over.
abbrev pub ReadsBack : {A : Type 0} → (A → Bytes) → Decoder A → (A → Type 0) → Type 0
ReadsBack {A} encode decode Fits =
    (a : A) (rest : Bytes) → Fits a → decode (encode a ++ rest) ≡ ok (a, rest)

pub decode_uint-to_le :
    (w n : ℕ) (rest : Bytes) → n < 256 ^ w → decode_uint w (to_le w n ++ rest) ≡ ok (n, rest)
unfolding decode_uint
decode_uint-to_le w n rest h =
    rw (read_exact-exact w (to_le w n) rest (length-to_le w n), from_le-to_le w n h) refl

to_i64-to_u64 : (n : ℤ) → IsI64 n → (to_u64 n < 256 ^ 8) × (to_i64 (to_u64 n) ≡ n)
to_i64-to_u64 (pos n) h = ground arith
to_i64-to_u64 (negsuc n) h =
    let back : 2 ^ 64 - 1 - (2 ^ 64 - 1 - n) ≡ n = omega arith in
    let high : ltb (2 ^ 64 - 1 - n) (2 ^ 63) ≡ false = ground arith in
    (omega arith, rw (high, back) refl)

pub decode_i64_le-encode_i64_le : ReadsBack encode_i64_le decode_i64_le IsI64
unfolding decode_i64_le encode_i64_le
decode_i64_le-encode_i64_le n rest h =
    let (small, back) = to_i64-to_u64 n h in
    rw
      (
        read_exact-exact 8 (to_le 8 (to_u64 n)) rest (length-to_le 8 (to_u64 n)),
        from_le-to_le 8 (to_u64 n) small,
        back,
      )
      refl

abbrev pub Sized : {A : Type 0} → List A → Type 0
Sized items = length items ≤ max_size

read_compact_size-max :
    (n : ℕ) (rest : Bytes)
    → n ≤ max_size
    → (read_compact_size (write_compact_size n ++ rest) ≡ ok (n, rest)) × (ltb max_size n ≡ false)
unfolding read_compact_size
read_compact_size-max n rest h =
    let small : ltb max_size n ≡ false = ground arith in
    (read-write true n rest (omega arith) small, small)

pub decode_byte_vec-encode_bytes : ReadsBack encode_bytes decode_byte_vec Sized
unfolding decode_byte_vec encode_bytes
decode_byte_vec-encode_bytes bytes rest h =
    let (size, small) = read_compact_size-max (length bytes) (bytes ++ rest) h in
    rw (append_assoc, size, small) (read_exact-exact (length bytes) bytes rest refl)

module _ {A : Type 0} (encode : A → Bytes) (decode : Decoder A) (Fits : A → Type 0) (carry : A → A)
    (back : (a : A) (rest : Bytes) → Fits a → decode (encode a ++ rest) ≡ ok (carry a, rest)) where
  decode_items-encode_items :
      (items : List A) (rest : Bytes)
      → All Fits items
      → decode_items decode (length items) (encode_items encode items ++ rest)
        ≡ ok (map carry items, rest)
  unfolding decode_items encode_items
  decode_items-encode_items [] rest h = refl
  decode_items-encode_items (item ∷ items) rest h =
      rw
        (
          append_assoc,
          back item (encode_items encode items ++ rest) h.0,
          decode_items-encode_items items rest h.1,
        )
        refl

  -- A vector is read as what its values are read as.
  pub decode_vec-encode_vec_as :
      (items : List A) (rest : Bytes)
      → Sized items × All Fits items
      → decode_vec decode (encode_vec encode items ++ rest) ≡ ok (map carry items, rest)
  unfolding decode_vec encode_vec
  decode_vec-encode_vec_as items rest h =
      let (size, small) =
        read_compact_size-max (length items) (encode_items encode items ++ rest) h.0 in
      rw (append_assoc, size, small) (decode_items-encode_items items rest h.1)

-- A vector is read back, if each value in it is.
pub decode_vec-encode_vec :
    {A : Type 0} (encode : A → Bytes) (decode : Decoder A) (Fits : A → Type 0)
    → ReadsBack encode decode Fits
    → ReadsBack (encode_vec encode) (decode_vec decode) (λ items. Sized items × All Fits items)
decode_vec-encode_vec encode decode Fits back items rest h =
    decode_vec-encode_vec_as encode decode Fits (λ a. a) back items rest h
    ∙ ap (λ xs. ok (xs, rest)) (map-id items)
