-- ===== src/Coins/Map.antt =====
-- `HashMap<OutPoint, V>` as an association list. The order of the list is the order of an iteration,
-- which nothing depends on but `retain`.
use qubitcoin.Common.{
  ◌≡◌, refl, ap, true, false, Option, none, some, List, [], ◌∷◌, if◌then◌else◌, arith, Bool-cases,
  inl, inr,
}
use qubitcoin.Consensus.Transaction.{OutPoint, outpoint_eq}
use qubitcoin.Consensus.Check.Spec.{outpoint_eq-eq, outpoint_eq_refl}

module _ {V : Type 0} where
  unfoldable pub get : List (OutPoint × V) → OutPoint → Option V
  get [] k = none
  get ((j, v) ∷ m) k = if outpoint_eq j k then some v else get m k

  unfoldable pub insert : OutPoint → V → List (OutPoint × V) → List (OutPoint × V)
  insert k v [] = (k, v) ∷ []
  insert k v ((j, w) ∷ m) =
      let rest = insert k v m in if outpoint_eq j k then (j, v) ∷ m else (j, w) ∷ rest

  unfoldable pub remove : OutPoint → List (OutPoint × V) → List (OutPoint × V)
  remove k [] = []
  remove k ((j, w) ∷ m) = let rest = remove k m in if outpoint_eq j k then rest else (j, w) ∷ rest

  -- No key stands twice.
  unfoldable pub Unique : List (OutPoint × V) → Type 0
  Unique [] = Unit {0}
  Unique ((j, v) ∷ m) = (get m j ≡ none) × Unique m

-- A key equals another where a third tells them apart as little.
outpoint_eq_same : (j k l : OutPoint) → outpoint_eq j k ≡ true → outpoint_eq j l ≡ outpoint_eq k l
outpoint_eq_same j k l h = ap (λ p. outpoint_eq p l) (outpoint_eq-eq j k h)

outpoint_eq_same_right :
    (j k l : OutPoint) → outpoint_eq k l ≡ true → outpoint_eq j k ≡ outpoint_eq j l
outpoint_eq_same_right j k l h = ap (λ p. outpoint_eq j p) (outpoint_eq-eq k l h)

outpoint_eq_flip : (j k : OutPoint) → outpoint_eq j k ≡ false → outpoint_eq k j ≡ false
outpoint_eq_flip j k h = elim (Bool-cases (outpoint_eq k j)) [
  | inl e ↦ ground (arith, outpoint_eq_same_right j k j, outpoint_eq_refl j)
  | inr e ↦ e
]

module _ {V : Type 0} where
  pub get-insert :
      (k l : OutPoint) (v : V) (m : List (OutPoint × V))
      → get (insert k v m) l ≡ (if outpoint_eq k l then some v else get m l)
  unfolding get insert
  get-insert k l v [] = refl
  get-insert k l v ((j, w) ∷ m) =
      ground (arith, get-insert k l v m, outpoint_eq_same j k l, outpoint_eq_same_right j k l)

  pub get-remove :
      (k l : OutPoint) (m : List (OutPoint × V))
      → get (remove k m) l ≡ (if outpoint_eq k l then none else get m l)
  unfolding get remove
  get-remove k l [] = ground arith
  get-remove k l ((j, w) ∷ m) =
      ground (arith, get-remove k l m, outpoint_eq_same j k l, outpoint_eq_same_right j k l)

  pub insert-Unique :
      (k : OutPoint) (v : V) (m : List (OutPoint × V)) → Unique m → Unique (insert k v m)
  unfolding Unique insert
  insert-Unique k v [] h = unfold get in (refl, tt)
  insert-Unique k v ((j, w) ∷ m) (new, h) = elim (Bool-cases (outpoint_eq j k)) [
    | inl e ↦ rw e (new, h)
    | inr e ↦
        let other = get-insert k j v m in
        rw e (rw (other, outpoint_eq_flip j k e) new, insert-Unique k v m h)
  ]

  pub remove-Unique : (k : OutPoint) (m : List (OutPoint × V)) → Unique m → Unique (remove k m)
  unfolding Unique remove
  remove-Unique k [] h = tt
  remove-Unique k ((j, w) ∷ m) (new, h) = elim (Bool-cases (outpoint_eq j k)) [
    | inl e ↦ rw e (remove-Unique k m h)
    | inr e ↦
        let other = get-remove k j m in
        rw e (rw (other, outpoint_eq_flip j k e) new, remove-Unique k m h)
  ]
