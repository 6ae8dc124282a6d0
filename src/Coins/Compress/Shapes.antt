-- ===== src/Coins/Compress/Shapes.antt =====
-- Compress: what the scripts with a special form are made of.
use qubitcoin.Common.{
  ℕ, zero, suc, ◌+◌, ◌≤◌, ◌<◌, ◌≡◌, refl, sym, ap, ◌∙◌, Bool, true, false, ◌&&◌, [], ◌∷◌, ◌++◌,
  ◌==◌, length, take, drop, arith, take-append-drop, length-drop, length-take, ==_iff,
}
use qubitcoin.Common.Bytes.{Bytes}
use qubitcoin.Script.Bytecode.{at, slice}
use qubitcoin.Coins.Compress.{
  is_pubkey_hash, is_script_hash, is_compressed_key, is_uncompressed_key,
}

drop-at : (i c : ℕ) (s : Bytes) → i < length s → at s i ≡ c → drop i s ≡ c ∷ drop (suc i) s
drop-at i c [] h e = absurd (omega arith)
drop-at zero c (x ∷ s) h e = ap (λ y. y ∷ s) e
drop-at (suc i) c (x ∷ s) h e = drop-at i c s (omega arith) e

drop_twice : (a b : ℕ) (s : Bytes) → drop a (drop b s) ≡ drop (b + a) s
drop_twice a zero s = ap (λ n. drop n s) (omega arith)
drop_twice a (suc b) [] = let e : suc b + a ≡ suc (b + a) = omega arith in rw e (nothing a)
  where
    nothing : (n : ℕ) → ◌≡◌ {A = Bytes} (drop n []) []
    nothing zero = refl
    nothing (suc n) = refl
drop_twice a (suc b) (x ∷ s) =
    let e : suc b + a ≡ suc (b + a) = omega arith in rw e (drop_twice a b s)

drop_all : (n : ℕ) (s : Bytes) → length s ≤ n → drop n s ≡ []
drop_all zero [] h = refl
drop_all (suc n) [] h = refl
drop_all zero (x ∷ s) h = absurd (omega arith)
drop_all (suc n) (x ∷ s) h = drop_all n s (omega arith)

pub take_all : (n : ℕ) (s : Bytes) → length s ≤ n → take n s ≡ s
take_all zero [] h = refl
take_all (suc n) [] h = refl
take_all zero (x ∷ s) h = absurd (omega arith)
take_all (suc n) (x ∷ s) h = ap (λ t. x ∷ t) (take_all n s (omega arith))

pub and_both : (a b : Bool) → a && b ≡ true → (a ≡ true) × (b ≡ true)
and_both true b h = (refl, h)
and_both false b h = cc

-- A part of `k` bytes from `i` on, and what follows it.
part : (i k : ℕ) (s : Bytes) → drop i s ≡ take k (drop i s) ++ drop (i + k) s
part i k s =
    sym (ap (λ t. take k (drop i s) ++ t) (sym (drop_twice k i s)) ∙ take-append-drop k (drop i s))

pub length-part : (i k : ℕ) (s : Bytes) → i + k ≤ length s → length (take k (drop i s)) ≡ k
length-part i k s h = length-take k (drop i s) (omega (arith, length-drop i s))

pub pubkey_hash_form :
    (s : Bytes)
    → is_pubkey_hash s ≡ true
    → 0x76 ∷ 0xa9 ∷ 20 ∷ (slice 3 23 s ++ (0x88 ∷ 0xac ∷ [])) ≡ s
pubkey_hash_form s h =
    let size : length s ≡ 25 = ground arith in
    let a = drop-at 0 0x76 s (omega arith) (ground arith) in
    let b = drop-at 1 0xa9 s (omega arith) (ground arith) in
    let c = drop-at 2 20 s (omega arith) (ground arith) in
    let d = part 3 20 s in
    let e = drop-at 23 0x88 s (omega arith) (ground arith) in
    let f = drop-at 24 0xac s (omega arith) (ground arith) in
    let g = drop_all 25 s (omega arith) in cc

pub script_hash_form :
    (s : Bytes) → is_script_hash s ≡ true → 0xa9 ∷ 20 ∷ (slice 2 22 s ++ (0x87 ∷ [])) ≡ s
script_hash_form s h =
    let size : length s ≡ 23 = ground arith in
    let a = drop-at 0 0xa9 s (omega arith) (ground arith) in
    let b = drop-at 1 20 s (omega arith) (ground arith) in
    let c = part 2 20 s in
    let d = drop-at 22 0x87 s (omega arith) (ground arith) in
    let e = drop_all 23 s (omega arith) in cc

pub compressed_key_form :
    (s : Bytes) → is_compressed_key s ≡ true → 33 ∷ at s 1 ∷ (slice 2 34 s ++ (0xac ∷ [])) ≡ s
compressed_key_form s h =
    let size : length s ≡ 35 = ground arith in
    let a = drop-at 0 33 s (omega arith) (ground arith) in
    let b = drop-at 1 (at s 1) s (omega arith) refl in
    let c = part 2 32 s in
    let d = drop-at 34 0xac s (omega arith) (ground arith) in
    let e = drop_all 35 s (omega arith) in cc

pub uncompressed_key_form :
    (s : Bytes) → is_uncompressed_key s ≡ true → 65 ∷ (slice 1 66 s ++ (0xac ∷ [])) ≡ s
uncompressed_key_form s h =
    let (h1, z) = and_both _ (at s 1 == 0x04) h in
    let (h2, y) = and_both _ (at s 66 == 0xac) h1 in
    let (l, x) = and_both (length s == 67) (at s 0 == 65) h2 in
    let size : length s ≡ 67 = (==_iff (length s) 67).0 l in
    let a = drop-at 0 65 s (omega (arith, size)) ((==_iff (at s 0) 65).0 x) in
    let c = part 1 65 s in
    let d = drop-at 66 0xac s (omega (arith, size)) ((==_iff (at s 66) 0xac).0 y) in
    let e = drop_all 67 s (omega (arith, size)) in cc

pub key_size : (s : Bytes) → is_uncompressed_key s ≡ true → length s ≡ 67
key_size s h =
    let (h1, z) = and_both _ (at s 1 == 0x04) h in
    let (h2, y) = and_both _ (at s 66 == 0xac) h1 in
    let (l, x) = and_both (length s == 67) (at s 0 == 65) h2 in (==_iff (length s) 67).0 l
