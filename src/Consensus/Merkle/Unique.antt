-- ===== src/Consensus/Merkle/Unique.antt =====
-- Merkle: an unmutated tree of a given depth has one list of leaves, or hashes collide.
use qubitcoin.Common.{
  ℕ, zero, suc, ◌+◌, ◌*◌, ◌/◌, ◌^◌, ◌≤◌, ◌<◌, ◌≡◌, ◌≢◌, refl, sym, ◌∙◌, ap, Bool, false, ◌||◌, List,
  [], ◌∷◌, ◌++◌, length, take, drop, take-append, drop-append, All, arith, Bool-cases, ◌⊎◌, inl,
  inr,
}
use qubitcoin.Common.Bytes.{Bytes, bytes_eq, bytes_eq-eq, bytes_eq_refl}
use qubitcoin.Consensus.Merkle.{equal_pair, next_level, merkle_loop, compute_merkle_root}

abbrev pub IsHash : Bytes → Type 0
IsHash h = length h ≡ 32

append-split : (a b c d : Bytes) → length a ≡ length c → a ++ b ≡ c ++ d → (a ≡ c) × (b ≡ d)
append-split a b c d h e =
    let front = sym (take-append a b) ∙ ap (take (length a)) e in
    let back = sym (drop-append a b) ∙ ap (drop (length a)) e in
    (
      front ∙ ap (λ n. take n (c ++ d)) h ∙ take-append c d,
      back ∙ ap (λ n. drop n (c ++ d)) h ∙ drop-append c d,
    )

list-head : (a b : Bytes) (xs ys : List Bytes) → a ∷ xs ≡ b ∷ ys → (a ≡ b) × (xs ≡ ys)
list-head a b xs ys h = (cc, cc)

module _ (hash256 : Bytes → Bytes) where
  -- Two different strings with one hash.
  abbrev pub Collision : Type 0
  Collision = (x : Bytes) × (y : Bytes) × (x ≢ y) × (hash256 x ≡ hash256 y)

  same_string : (x y : Bytes) → hash256 x ≡ hash256 y → (x ≡ y) ⊎ Collision
  same_string x y h = elim (Bool-cases (bytes_eq x y)) [
    | inl e ↦ inl (bytes_eq-eq x y e)
    | inr e ↦ inr (x, y, (λ same. ground (arith, bytes_eq_refl x, ap (bytes_eq x) same)), h)
  ]

  same_pair :
      (a b c d : Bytes)
      → IsHash a
      → IsHash c
      → hash256 (a ++ b) ≡ hash256 (c ++ d)
      → ((a ≡ c) × (b ≡ d)) ⊎ Collision
  same_pair a b c d h k e = elim (same_string (a ++ b) (c ++ d) e) [
    | inl same ↦ inl (append-split a b c d (h ∙ sym k) same)
    | inr collision ↦ inr collision
  ]

  no_pair : (a b : Bytes) (hashes : List Bytes) → equal_pair (a ∷ b ∷ hashes) ≡ false → a ≢ b
  unfolding equal_pair
  no_pair a b hashes h same = ground (arith, bytes_eq_refl a, ap (bytes_eq a) same)

  later_pairs :
      (a b : Bytes) (hashes : List Bytes)
      → equal_pair (a ∷ b ∷ hashes) ≡ false
      → equal_pair hashes ≡ false
  unfolding equal_pair
  later_pairs a b hashes h = ground arith

  -- Without an equal pair the next level determines the level.
  next_level-injective :
      (xs ys : List Bytes)
      → All IsHash xs
      → All IsHash ys
      → equal_pair xs ≡ false
      → equal_pair ys ≡ false
      → next_level hash256 xs ≡ next_level hash256 ys
      → (xs ≡ ys) ⊎ Collision
  unfolding next_level
  next_level-injective [] [] h k p q e = inl refl
  next_level-injective [] (b ∷ []) h k p q e = cc
  next_level-injective [] (b ∷ d ∷ ys) h k p q e = cc
  next_level-injective (a ∷ []) [] h k p q e = cc
  next_level-injective (a ∷ c ∷ xs) [] h k p q e = cc
  next_level-injective (a ∷ []) (b ∷ []) h k p q e =
      elim (same_pair a a b b h.0 k.0 (list-head _ _ _ _ e).0) [
        | inl same ↦ inl (ap (λ x. x ∷ []) same.0)
        | inr collision ↦ inr collision
      ]
  next_level-injective (a ∷ []) (b ∷ d ∷ ys) h k p q e =
      elim (same_pair a a b d h.0 k.0 (list-head _ _ _ _ e).0) [
        | inl same ↦ absurd (no_pair b d ys q (sym same.0 ∙ same.1))
        | inr collision ↦ inr collision
      ]
  next_level-injective (a ∷ c ∷ xs) (b ∷ []) h k p q e =
      elim (same_pair a c b b h.0 k.0 (list-head _ _ _ _ e).0) [
        | inl same ↦ absurd (no_pair a c xs p (same.0 ∙ sym same.1))
        | inr collision ↦ inr collision
      ]
  next_level-injective (a ∷ c ∷ xs) (b ∷ d ∷ ys) h k p q e =
      let rest =
        next_level-injective xs ys h.1.1 k.1.1 (later_pairs a c xs p) (later_pairs b d ys q)
          (list-head _ _ _ _ e).1 in
      elim (same_pair a c b d h.0 k.0 (list-head _ _ _ _ e).0) [
        | inr collision ↦ inr collision
        | inl same ↦ elim rest [
          | inr collision ↦ inr collision
          | inl tails ↦ inl (rw (same.0, same.1, tails) refl)
        ]
      ]

  length-next_level : (xs : List Bytes) → length (next_level hash256 xs) ≡ (length xs + 1) / 2
  unfolding next_level
  length-next_level [] = omega arith
  length-next_level (a ∷ []) = omega arith
  length-next_level (a ∷ b ∷ xs) = omega (arith, length-next_level xs)

  -- What was mutated stays so.
  mutated-before :
      (fuel : ℕ) (xs : List Bytes) (mutated : Bool)
      → (merkle_loop hash256 fuel xs mutated).1 ≡ false
      → mutated ≡ false
  unfolding merkle_loop
  mutated-before fuel [] mutated h = h
  mutated-before fuel (a ∷ []) mutated h = h
  mutated-before zero (a ∷ b ∷ xs) mutated h = h
  mutated-before (suc fuel) (a ∷ b ∷ xs) mutated h =
      let or =
        mutated-before fuel (next_level hash256 (a ∷ b ∷ xs)) (mutated || equal_pair (a ∷ b ∷ xs))
          h in
      ground arith

  -- The number of hashes of a level from which `k` levels lead to the root.
  abbrev pub HasDepth : ℕ → List Bytes → Type 0
  HasDepth k xs = (2 ^ k < 2 * length xs) × (length xs ≤ 2 ^ k)

  module _ (size : (x : Bytes) → length (hash256 x) ≡ 32) where
    next_level-IsHash : (xs : List Bytes) → All IsHash (next_level hash256 xs)
    unfolding next_level
    next_level-IsHash [] = tt
    next_level-IsHash (a ∷ []) = (size (a ++ a), tt)
    next_level-IsHash (a ∷ b ∷ xs) = (size (a ++ b), next_level-IsHash xs)

    next_depth :
        (k : ℕ) (xs : List Bytes) → HasDepth (suc k) xs → HasDepth k (next_level hash256 xs)
    next_depth k xs h = omega (arith, length-next_level xs)

    merkle_loop-injective :
        (k f g : ℕ) (xs ys : List Bytes) (m n : Bool)
        → length xs ≤ f
        → length ys ≤ g
        → HasDepth k xs
        → HasDepth k ys
        → All IsHash xs
        → All IsHash ys
        → (merkle_loop hash256 f xs m).1 ≡ false
        → (merkle_loop hash256 g ys n).1 ≡ false
        → (merkle_loop hash256 f xs m).0 ≡ (merkle_loop hash256 g ys n).0
        → (xs ≡ ys) ⊎ Collision
    unfolding merkle_loop
    merkle_loop-injective k f g [] ys m n lf lg d e h i p q r = absurd (omega arith)
    merkle_loop-injective k f g (a ∷ xs) [] m n lf lg d e h i p q r = absurd (omega arith)
    merkle_loop-injective zero f g (a ∷ []) (b ∷ []) m n lf lg d e h i p q r =
        inl (ap (λ x. x ∷ []) r)
    merkle_loop-injective zero f g (a ∷ c ∷ xs) (b ∷ ys) m n lf lg d e h i p q r =
        absurd (omega arith)
    merkle_loop-injective zero f g (a ∷ []) (b ∷ c ∷ ys) m n lf lg d e h i p q r =
        absurd (omega arith)
    merkle_loop-injective (suc k) f g (a ∷ []) (b ∷ ys) m n lf lg d e h i p q r =
        absurd (omega arith)
    merkle_loop-injective (suc k) f g (a ∷ c ∷ xs) (b ∷ []) m n lf lg d e h i p q r =
        absurd (omega arith)
    merkle_loop-injective (suc k) zero g (a ∷ c ∷ xs) (b ∷ z ∷ ys) m n lf lg d e h i p q r =
        absurd (omega arith)
    merkle_loop-injective (suc k) (suc f) zero (a ∷ c ∷ xs) (b ∷ z ∷ ys) m n lf lg d e h i p q r =
        absurd (omega arith)
    merkle_loop-injective (suc k) (suc f) (suc g) (a ∷ c ∷ xs) (b ∷ z ∷ ys) m n lf lg d e h i p q
          r =
        let us = a ∷ c ∷ xs in
        let vs = b ∷ z ∷ ys in
        let left = next_level hash256 us in
        let right = next_level hash256 vs in
        let pairs = mutated-before f left (m || equal_pair us) p in
        let others = mutated-before g right (n || equal_pair vs) q in
        let shorter : length left ≤ f = omega (arith, length-next_level us) in
        let so : length right ≤ g = omega (arith, length-next_level vs) in
        let below =
          merkle_loop-injective k f g left right (m || equal_pair us) (n || equal_pair vs) shorter
            so (next_depth k us d) (next_depth k vs e) (next_level-IsHash us) (next_level-IsHash vs)
            p q r in
        elim below [
          | inr collision ↦ inr collision
          | inl same ↦ next_level-injective us vs h i (ground arith) (ground arith) same
        ]

-- Two lists of more than 2^(k-1) and at most 2^k hashes that give the same root, neither flagged as
-- mutated, are the same list, or two different strings with one hash are found: an odd level that
-- is filled up with its last hash is not mistaken for one that repeats it.
pub compute_merkle_root-injective :
    (hash256 : Bytes → Bytes)
    → ((x : Bytes) → length (hash256 x) ≡ 32)
    → (k : ℕ) (xs ys : List Bytes) → (2 ^ k < 2 * length xs) × (length xs ≤ 2 ^ k)
    → (2 ^ k < 2 * length ys) × (length ys ≤ 2 ^ k)
    → All IsHash xs
    → All IsHash ys
    → (compute_merkle_root hash256 xs).1 ≡ false
    → (compute_merkle_root hash256 ys).1 ≡ false
    → (compute_merkle_root hash256 xs).0 ≡ (compute_merkle_root hash256 ys).0
    → (xs ≡ ys) ⊎ Collision hash256
unfolding compute_merkle_root
compute_merkle_root-injective hash256 size k xs ys d e h i p q r =
    merkle_loop-injective hash256 size k (length xs) (length ys) xs ys false false (omega arith)
      (omega arith) d e h i p q r
