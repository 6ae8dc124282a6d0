-- ===== src/Coins/Compress/RoundTrip.antt =====
-- Compress: what a script is read back as.
use qubitcoin.Common.{
  ℕ, ◌+◌, ◌-◌, ◌%◌, ◌^◌, ◌≤◌, ◌<◌, ◌≡◌, ◌≢◌, refl, sym, ap, ◌∙◌, true, false, Option, none, some,
  ◌∷◌, ◌++◌, ◌==◌, ltb, if◌then◌else◌, length, ok, arith, ◌||◌, Bool-cases, inl, inr,
}
use mathlib.Core.List.{append_assoc}
use qubitcoin.Common.Bytes.{Bytes}
use qubitcoin.Serialize.CompactSize.RoundTrip.{read_exact-exact}
use qubitcoin.Serialize.VarInt.{read_varint, read_varint_loop}
use qubitcoin.Serialize.VarInt.RoundTrip.{read_varint-write_varint}
use qubitcoin.Script.Bytecode.{at, slice}
use qubitcoin.Coins.Compress.{
  is_pubkey_hash, is_script_hash, is_compressed_key, is_uncompressed_key, compress_script,
  get_special_script_size, uncompressed_script, decompress_script, write_plain, write_found,
  write_compressed_script, op_return_script, or_op_return, read_compressed_script,
}
use qubitcoin.Coins.Compress.Shapes.{
  and_both, key_size, take_all, length-part, pubkey_hash_form, script_hash_form,
  compressed_key_form, uncompressed_key_form,
}

tag_read : (t : ℕ) (r : Bytes) → t < 128 → read_varint (t ∷ r) ≡ ok (t, r)
unfolding read_varint read_varint_loop
tag_read t r h = ground arith

module _ (decompress_key : Bytes → Option Bytes) where
  -- The script that is read back: an uncompressed key is computed again from its half, and a script
  -- of more than 10,000 bytes is lost.
  unfoldable pub restored : Bytes → Bytes
  restored s =
      if is_uncompressed_key s
      then or_op_return (uncompressed_script (decompress_key ((2 + at s 65 % 2) ∷ slice 2 34 s)))
      else if ltb 10000 (length s)
      then op_return_script
      else s

  special_back :
      (t : ℕ) (bytes rest : Bytes)
      → t < 6
      → length bytes ≡ get_special_script_size t
      → read_compressed_script decompress_key ((t ∷ bytes) ++ rest)
        ≡ ok (or_op_return (decompress_script decompress_key t bytes), rest)
  unfolding read_compressed_script
  special_back t bytes rest h e =
      let word : t % 2 ^ 32 ≡ t = omega arith in
      let special : ltb t 6 ≡ true = ground arith in
      rw
        (
          tag_read t (bytes ++ rest) (omega arith),
          word,
          special,
          read_exact-exact (get_special_script_size t) bytes rest e,
        )
        refl

  plain_back :
      (s rest : Bytes)
      → length s + 6 < 2 ^ 32
      → read_compressed_script decompress_key (write_plain s ++ rest)
        ≡ ok (if ltb 10000 (length s) then op_return_script else s, rest)
  unfolding read_compressed_script write_plain
  plain_back s rest h =
      let size : (length s % 2 ^ 32 + 6) % 2 ^ 32 ≡ length s + 6 = omega arith in
      let word : (length s + 6) % 2 ^ 32 ≡ length s + 6 = omega arith in
      let plain : ltb (length s + 6) 6 ≡ false = ground arith in
      let len : length s + 6 - 6 ≡ length s = omega arith in
      rw
        (
          size,
          append_assoc,
          read_varint-write_varint (length s + 6) (s ++ rest) (omega arith),
          word,
          plain,
          len,
          read_exact-exact (length s) s rest refl,
        )
        refl

  -- The four forms, each with its tag.
  pubkey_hash_back :
      (s : Bytes)
      → is_pubkey_hash s ≡ true
      → or_op_return (decompress_script decompress_key 0 (slice 3 23 s)) ≡ s
  unfolding decompress_script
  pubkey_hash_back s h =
      let size : length s ≡ 25 = ground arith in
      let part = length-part 3 20 s (omega (arith, size)) in
      rw (take_all 20 (slice 3 23 s) (omega (arith, part))) (pubkey_hash_form s h)

  script_hash_back :
      (s : Bytes)
      → is_script_hash s ≡ true
      → or_op_return (decompress_script decompress_key 1 (slice 2 22 s)) ≡ s
  unfolding decompress_script
  script_hash_back s h =
      let size : length s ≡ 23 = ground arith in
      let part = length-part 2 20 s (omega (arith, size)) in
      rw (take_all 20 (slice 2 22 s) (omega (arith, part))) (script_hash_form s h)

  compressed_key_back :
      (s : Bytes) (t : ℕ)
      → at s 1 ≡ t
      → (t == 2 || t == 3) ≡ true
      → is_compressed_key s ≡ true
      → or_op_return (decompress_script decompress_key t (slice 2 34 s)) ≡ s
  unfolding decompress_script
  compressed_key_back s t e k h =
      let size : length s ≡ 35 = ground arith in
      let part = length-part 2 32 s (omega (arith, size)) in
      let no_zero : (t == 0) ≡ false = ground arith in
      let no_one : (t == 1) ≡ false = ground arith in
      let same = compressed_key_form s h in
      rw (no_zero, no_one, k, take_all 32 (slice 2 34 s) (omega (arith, part)), ← e) same

  uncompressed_key_back :
      (s : Bytes) (p : ℕ)
      → p < 2
      → length s ≡ 67
      → decompress_script decompress_key (4 + p) (slice 2 34 s)
        ≡ uncompressed_script (decompress_key ((2 + p) ∷ slice 2 34 s))
  unfolding decompress_script
  uncompressed_key_back s p h size =
      let part = length-part 2 32 s (omega (arith, size)) in
      let tags : (4 + p == 4 || 4 + p == 5) ≡ true = ground arith in
      let no : (4 + p == 0) ≡ false = ground arith in
      let nor : (4 + p == 1) ≡ false = ground arith in
      let neither : (4 + p == 2 || 4 + p == 3) ≡ false = ground arith in
      let parity : 4 + p - 2 ≡ 2 + p = omega arith in
      rw (no, nor, neither, tags, parity, take_all 32 (slice 2 34 s) (omega (arith, part))) refl

  restored_same : (s : Bytes) → is_uncompressed_key s ≡ false → length s ≤ 10000 → restored s ≡ s
  unfolding restored
  restored_same s e h =
      let small : ltb 10000 (length s) ≡ false = ground arith in rw (e, small) refl

  not_a_key : (s : Bytes) → length s < 67 → is_uncompressed_key s ≡ false
  not_a_key s h = let e : (length s == 67) ≡ false = ground arith in rw e refl

  -- A script with a tag is read back as what the tag and the bytes stand for.
  tagged_back :
      (s rest : Bytes) (t : ℕ) (bytes : Bytes)
      → compress_script s ≡ some (t ∷ bytes)
      → t < 6
      → length bytes ≡ get_special_script_size t
      → or_op_return (decompress_script decompress_key t bytes) ≡ restored s
      → read_compressed_script decompress_key (write_compressed_script s ++ rest)
        ≡ ok (restored s, rest)
  unfolding write_compressed_script write_found
  tagged_back s rest t bytes e h l r = rw (e, special_back t bytes rest h l, r) refl

  short_back :
      (s rest : Bytes) (t : ℕ) (bytes : Bytes)
      → compress_script s ≡ some (t ∷ bytes)
      → t < 6
      → length s < 67
      → length bytes ≡ get_special_script_size t
      → or_op_return (decompress_script decompress_key t bytes) ≡ s
      → read_compressed_script decompress_key (write_compressed_script s ++ rest)
        ≡ ok (restored s, rest)
  short_back s rest t bytes e h k l r =
      tagged_back s rest t bytes e h l
        (r ∙ sym (restored_same s (not_a_key s k) (omega (arith, k))))

  key_tag : (s : Bytes) → is_compressed_key s ≡ true → (at s 1 == 2 || at s 1 == 3) ≡ true
  key_tag s h = (and_both _ (at s 1 == 2 || at s 1 == 3) h).1

  restored_key :
      (s : Bytes)
      → is_uncompressed_key s ≡ true
      → restored s
        ≡ or_op_return (uncompressed_script (decompress_key ((2 + at s 65 % 2) ∷ slice 2 34 s)))
  unfolding restored
  restored_key s e = rw e refl

  key_back :
      (s rest : Bytes)
      → is_uncompressed_key s ≡ true
      → compress_script s ≡ some ((4 + at s 65 % 2) ∷ slice 2 34 s)
      → read_compressed_script decompress_key (write_compressed_script s ++ rest)
        ≡ ok (restored s, rest)
  unfolding get_special_script_size
  key_back s rest d e =
      let size = key_size s d in
      let p = at s 65 % 2 in
      let part = length-part 2 32 s (omega (arith, size)) in
      let large : get_special_script_size (4 + p) ≡ 32 = ground arith in
      let back = ap or_op_return (uncompressed_key_back s p (omega arith) size) in
      tagged_back s rest (4 + p) (slice 2 34 s) e (omega arith) (part ∙ sym large)
        (back ∙ sym (restored_key s d))

  plain_found :
      (s rest : Bytes)
      → length s + 6 < 2 ^ 32
      → is_uncompressed_key s ≡ false
      → compress_script s ≡ none
      → read_compressed_script decompress_key (write_compressed_script s ++ rest)
        ≡ ok (restored s, rest)
  unfolding write_compressed_script write_found restored
  plain_found s rest h d e = rw (e, d, plain_back s rest h) refl

  -- A script of less than 2^32 - 6 bytes that is written compressed is read as `restored` says, with
  -- what follows left over.
  pub read-write_compressed_script :
      (s rest : Bytes)
      → length s + 6 < 2 ^ 32
      → read_compressed_script decompress_key (write_compressed_script s ++ rest)
        ≡ ok (restored s, rest)
  unfolding compress_script get_special_script_size
  read-write_compressed_script s rest h = elim (Bool-cases (is_pubkey_hash s)) [
    | inl a ↦
        let size : length s ≡ 25 = ground arith in
        let part = length-part 3 20 s (omega (arith, size)) in
        short_back s rest 0 (slice 3 23 s) (rw a refl) (omega arith) (omega (arith, size)) part
          (pubkey_hash_back s a)
    | inr a ↦ elim (Bool-cases (is_script_hash s)) [
      | inl b ↦
          let size : length s ≡ 23 = ground arith in
          let part = length-part 2 20 s (omega (arith, size)) in
          short_back s rest 1 (slice 2 22 s) (rw (a, b) refl) (omega arith) (omega (arith, size))
            part (script_hash_back s b)
      | inr b ↦ elim (Bool-cases (is_compressed_key s)) [
        | inl c ↦
            let size : length s ≡ 35 = ground arith in
            let part = length-part 2 32 s (omega (arith, size)) in
            let tag = key_tag s c in
            let large : get_special_script_size (at s 1) ≡ 32 = ground arith in
            short_back s rest (at s 1) (slice 2 34 s) (rw (a, b, c) refl) (ground arith)
              (omega (arith, size)) (part ∙ sym large) (compressed_key_back s (at s 1) refl tag c)
        | inr c ↦ elim (Bool-cases (is_uncompressed_key s)) [
          | inl d ↦ key_back s rest d (rw (a, b, c, d) refl)
          | inr d ↦ plain_found s rest h d (rw (a, b, c, d) refl)
        ]
      ]
    ]
  ]

  -- A script of at most 10,000 bytes is read back from its compressed form, with what follows left
  -- over, if it is no output of an uncompressed key, or `decompress_key` gives that key back from its
  -- half.
  pub read_compressed_script-write_compressed_script :
      (s rest : Bytes)
      → length s ≤ 10000
      → ((is_uncompressed_key s ≡ true)
          → decompress_key ((2 + at s 65 % 2) ∷ slice 2 34 s) ≡ some (slice 1 66 s))
      → read_compressed_script decompress_key (write_compressed_script s ++ rest) ≡ ok (s, rest)
  read_compressed_script-write_compressed_script s rest h k =
      read-write_compressed_script s rest (omega arith)
      ∙ ap (λ t. ok (t, rest))
          (elim (Bool-cases (is_uncompressed_key s)) [
            | inl d ↦
                rw (restored_key s d, k d) (unfold uncompressed_script in uncompressed_key_form s d)
            | inr d ↦ restored_same s d h
          ])

  -- The output of an uncompressed key is read back from its compressed form as the one byte OP_RETURN,
  -- another script than was written, where its half, the parity of the last byte and the x coordinate,
  -- does not decompress to a key.
  pub write_compressed_script-invalid :
      (s rest : Bytes)
      → is_uncompressed_key s ≡ true
      → decompress_key ((2 + at s 65 % 2) ∷ slice 2 34 s) ≡ none
      → (read_compressed_script decompress_key (write_compressed_script s ++ rest)
          ≡ ok (op_return_script, rest))
        × (op_return_script ≢ s)
  write_compressed_script-invalid s rest d k =
      let size = key_size s d in
      let lost : restored s ≡ op_return_script =
        rw (restored_key s d, k) (unfold uncompressed_script in refl) in
      (
        read-write_compressed_script s rest (omega (arith, size)) ∙ ap (λ t. ok (t, rest)) lost,
        (λ same. omega (arith, size, ap (λ (t : Bytes). length t) same)),
      )
