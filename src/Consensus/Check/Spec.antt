-- ===== src/Consensus/Check/Spec.antt =====
-- Check: which transactions pass.
use qubitcoin.Common.{
  ◌*◌, ◌≤◌, ◌<◌, ◌≡◌, ◌≢◌, ◌↔◌, ◌⊎◌, inl, inr, refl, ap, true, false, List, [], ◌∷◌, ◌==◌, ltb,
  length, ok, arith, All, Bool-cases, fail_if-eq-ok, >>=-eq-ok,
}
use qubitcoin.Common.Int.{pos}
use qubitcoin.Common.Bytes.{bytes_eq-eq, bytes_eq_refl}
use qubitcoin.Consensus.Transaction.{
  OutPoint, outpoint_eq, is_null_outpoint, TxIn, TxOut, Transaction, is_coinbase,
}
use qubitcoin.Consensus.Transaction.Encode.{serialize_transaction}
use qubitcoin.Consensus.Check.Totals.{MoneyRange, sum_from, outputs-pass, pass-outputs}
use qubitcoin.Consensus.Check.{
  stripped_size, check_outputs, contains, check_duplicates, check_prevouts, first_script_len,
  check_inputs, check_transaction, max_block_weight,
}

-- No two inputs spend the same output.
abbrev pub Distinct : List TxIn → Type 0
Distinct [] = Unit {0}
Distinct (i ∷ vin) = All (λ (j : TxIn). i.prevout ≢ j.prevout) vin × Distinct vin

pub outpoint_eq-eq : (p q : OutPoint) → outpoint_eq p q ≡ true → p ≡ q
unfolding outpoint_eq
outpoint_eq-eq p q h =
    let hashes : p.hash ≡ q.hash = bytes_eq-eq p.hash q.hash (ground arith) in
    let indices : p.n ≡ q.n = ground arith in λ i. record { hash = hashes i; n = indices i }

pub outpoint_eq_refl : (p : OutPoint) → outpoint_eq p p ≡ true
unfolding outpoint_eq
outpoint_eq_refl p = ground (arith, bytes_eq_refl p.hash)

outpoint_neq : (p q : OutPoint) → outpoint_eq p q ≡ false → p ≢ q
outpoint_neq p q h e = ground (arith, outpoint_eq_refl p, ap (outpoint_eq p) e)

outpoint_neq_iff : (p q : OutPoint) → p ≢ q → outpoint_eq p q ≡ false
outpoint_neq_iff p q h = elim (Bool-cases (outpoint_eq p q)) [
  | inl e ↦ absurd (h (outpoint_eq-eq p q e))
  | inr e ↦ e
]

-- The output is among those seen.
abbrev Unseen : List OutPoint → TxIn → Type 0
Unseen seen i = All (λ (q : OutPoint). q ≢ i.prevout) seen

contains_iff : (seen : List OutPoint) (i : TxIn) → (contains seen i.prevout ≡ false) ↔ Unseen seen i
unfolding contains
contains_iff [] i = ((λ h. tt), (λ h. refl))
contains_iff (q ∷ seen) i =
    let (passed, unseen) = contains_iff seen i in
    (
      (λ h. (outpoint_neq q i.prevout (ground arith), passed (ground arith))),
      (λ h. rw (outpoint_neq_iff q i.prevout h.0, unseen h.1) refl),
    )

module _ {A : Type 0} (P Q : A → Type 0) where
  split_both : (xs : List A) → All (λ (a : A). P a × Q a) xs → All P xs × All Q xs
  split_both [] h = (tt, tt)
  split_both (x ∷ xs) h = let (p, q) = split_both xs h.1 in ((h.0.0, p), (h.0.1, q))

  join_both : (xs : List A) → All P xs → All Q xs → All (λ (a : A). P a × Q a) xs
  join_both [] h k = tt
  join_both (x ∷ xs) h k = ((h.0, k.0), join_both xs h.1 k.1)

-- The set of outpoints seen finds exactly the repetitions.
duplicates_iff :
    (seen : List OutPoint) (vin : List TxIn)
    → (check_duplicates seen vin ≡ ok tt) ↔ (Distinct vin × All (Unseen seen) vin)
unfolding check_duplicates
duplicates_iff seen [] = ((λ h. (tt, tt)), (λ h. refl))
duplicates_iff seen (i ∷ vin) =
    let (passed, distinct) = duplicates_iff (i.prevout ∷ seen) vin in
    let (new, unseen) = contains_iff seen i in
    (
      (λ h.
          let (fresh, rest) =
            fail_if-eq-ok (contains seen i.prevout) "bad-txns-inputs-duplicate"
              (check_duplicates (i.prevout ∷ seen) vin) h in
          let (unlike, after) = passed rest in
          let (differ, others) =
            split_both (λ (j : TxIn). i.prevout ≢ j.prevout) (Unseen seen) vin after in
          ((differ, unlike), (new fresh, others))),
      (λ h.
          let after =
            join_both (λ (j : TxIn). i.prevout ≢ j.prevout) (Unseen seen) vin h.0.0 h.1.1 in
          rw (unseen h.1.0) (distinct (h.0.1, after))),
    )

prevouts_iff :
    (vin : List TxIn)
    → (check_prevouts vin ≡ ok tt) ↔ All (λ (i : TxIn). is_null_outpoint i.prevout ≡ false) vin
unfolding check_prevouts
prevouts_iff [] = ((λ h. tt), (λ h. refl))
prevouts_iff (i ∷ vin) =
    let (to, from) = prevouts_iff vin in
    (
      (λ h.
          let (here, rest) =
            fail_if-eq-ok (is_null_outpoint i.prevout) "bad-txns-prevout-null" (check_prevouts vin)
              h in
          (here, to rest)),
      (λ h. rw (h.0) (from h.1)),
    )

-- The first script of a coinbase has 2 to 100 bytes, and no other transaction spends a null output.
abbrev pub ValidInputs : Transaction → Type 0
ValidInputs tx =
    ((is_coinbase tx ≡ true) × (2 ≤ first_script_len tx.vin) × (first_script_len tx.vin ≤ 100))
    ⊎ ((is_coinbase tx ≡ false) × All (λ (i : TxIn). is_null_outpoint i.prevout ≡ false) tx.vin)

inputs-pass : (tx : Transaction) → check_inputs tx ≡ ok tt → ValidInputs tx
unfolding check_inputs
inputs-pass tx h = elim (Bool-cases (is_coinbase tx)) [
  | inl e ↦ inl (e, ground arith, ground arith)
  | inr e ↦ inr (e, (prevouts_iff tx.vin).0 (ground arith))
]

pass-inputs : (tx : Transaction) → ValidInputs tx → check_inputs tx ≡ ok tt
unfolding check_inputs
pass-inputs tx (inl (e, low, high)) = rw e (ground arith)
pass-inputs tx (inr (e, h)) = rw e ((prevouts_iff tx.vin).1 h)

-- What a transaction must be.
pub record ValidTransaction (tx : Transaction) : Type 0 where
  pub some_input : 0 < length tx.vin
  pub some_output : 0 < length tx.vout
  pub size : 4 * length (serialize_transaction tx false) ≤ max_block_weight
  pub values : All (λ (o : TxOut). MoneyRange o.value) tx.vout
  pub total : MoneyRange (sum_from (pos 0) tx.vout)
  pub distinct : Distinct tx.vin
  pub inputs : ValidInputs tx

size_is_stripped : (tx : Transaction) → stripped_size tx ≡ length (serialize_transaction tx false)
unfolding stripped_size serialize_transaction
size_is_stripped tx = refl

passes-Valid : (tx : Transaction) → check_transaction tx ≡ ok tt → ValidTransaction tx
unfolding check_transaction
passes-Valid tx h =
    let (vin, h1) = fail_if-eq-ok (length tx.vin == 0) "bad-txns-vin-empty" _ h in
    let (vout, h2) = fail_if-eq-ok (length tx.vout == 0) "bad-txns-vout-empty" _ h1 in
    let (size, h3) =
      fail_if-eq-ok (ltb max_block_weight (stripped_size tx * 4)) "bad-txns-oversize" _ h2 in
    let (u, outs, h4) = >>=-eq-ok (check_outputs (pos 0) tx.vout) _ h3 in
    let (w, dups, ins) = >>=-eq-ok (check_duplicates [] tx.vin) _ h4 in
    let (values, total) = outputs-pass (pos 0) tx.vout (omega arith) outs in
    record {
      some_input = ground arith;
      some_output = ground arith;
      size = ground (arith, size_is_stripped tx);
      values = values;
      total = total;
      distinct = ((duplicates_iff [] tx.vin).0 dups).0;
      inputs = inputs-pass tx ins;
    }

none_seen : (vin : List TxIn) → All (Unseen []) vin
none_seen [] = tt
none_seen (i ∷ vin) = (tt, none_seen vin)

Valid-passes : (tx : Transaction) → ValidTransaction tx → check_transaction tx ≡ ok tt
unfolding check_transaction
Valid-passes tx v =
    let vin : (length tx.vin == 0) ≡ false = ground (arith, v.some_input) in
    let vout : (length tx.vout == 0) ≡ false = ground (arith, v.some_output) in
    let size : ltb max_block_weight (stripped_size tx * 4) ≡ false =
      ground (arith, size_is_stripped tx, v.size) in
    rw
      (
        vin,
        vout,
        size,
        pass-outputs (pos 0) tx.vout (omega arith) v.values v.total,
        (duplicates_iff [] tx.vin).1 (v.distinct, none_seen tx.vin),
      )
      (pass-inputs tx v.inputs)

-- A transaction passes `check_transaction` exactly when it has an input and an output, its weight
-- without witnesses is at most 4,000,000, every output and the sum of all, which does not wrap around,
-- are in the money range, no two inputs spend the same output, and it is a coinbase whose first script has
-- 2 to 100 bytes, or no coinbase and no input spends the null output.
pub check_transaction_iff :
    (tx : Transaction) → (check_transaction tx ≡ ok tt) ↔ ValidTransaction tx
check_transaction_iff tx = (passes-Valid tx, Valid-passes tx)
