-- ===== src/Consensus/Check/Totals.antt =====
-- Check: the amounts of the outputs, and their sum.
use qubitcoin.Common.{
  ◌≡◌, ◌↔◌, refl, true, false, not, List, [], ◌∷◌, ok, arith, All, fail_if-eq-ok,
}
use qubitcoin.Common.Int.{ℤ, pos, ◌+ℤ◌, ltb_ℤ, ◌≤ℤ◌, IsI64, wrap_i64-id}
use qubitcoin.Consensus.Amount.{money_range, max_money, add_amount}
use qubitcoin.Consensus.Transaction.{TxOut, Transaction, get_value_out, add_values}
use qubitcoin.Consensus.Check.{check_outputs}

abbrev pub MoneyRange : ℤ → Type 0
MoneyRange v = (pos 0 ≤ℤ v) × (v ≤ℤ max_money)

money_range_iff : (v : ℤ) → (money_range v ≡ true) ↔ MoneyRange v
unfolding money_range
money_range_iff v = ground arith

-- The sum of the outputs without bound, from a sum so far.
abbrev pub sum_from : ℤ → List TxOut → ℤ
sum_from total [] = total
sum_from total (o ∷ vout) = sum_from (total +ℤ o.value) vout

-- Two amounts in the money range do not overflow.
add_amount-MoneyRange : (a b : ℤ) → MoneyRange a → MoneyRange b → add_amount a b ≡ a +ℤ b
unfolding add_amount
add_amount-MoneyRange a b h k =
    let fits : IsI64 (a +ℤ b) = ground arith in wrap_i64-id (a +ℤ b) fits

-- Outputs that are not negative only add.
total_grows :
    (total : ℤ) (vout : List TxOut)
    → All (λ (o : TxOut). MoneyRange o.value) vout
    → total ≤ℤ sum_from total vout
total_grows total [] h = omega arith
total_grows total (o ∷ vout) h = ground (arith, total_grows (total +ℤ o.value) vout h.1)

pub outputs-pass :
    (total : ℤ) (vout : List TxOut)
    → MoneyRange total
    → check_outputs total vout ≡ ok tt
    → All (λ (o : TxOut). MoneyRange o.value) vout × MoneyRange (sum_from total vout)
unfolding check_outputs
outputs-pass total [] r h = (tt, r)
outputs-pass total (o ∷ vout) r h =
    let one = money_range_iff o.value in
    let (positive, h1) = fail_if-eq-ok (ltb_ℤ o.value (pos 0)) "bad-txns-vout-negative" _ h in
    let (small, h2) = fail_if-eq-ok (not (money_range o.value)) "bad-txns-vout-toolarge" _ h1 in
    let within : MoneyRange o.value = ground (arith, one) in
    let plain = add_amount-MoneyRange total o.value r within in
    let (sum, h3) =
      fail_if-eq-ok (not (money_range (total +ℤ o.value))) "bad-txns-txouttotal-toolarge" _
        (rw plain at h2) in
    let next : MoneyRange (total +ℤ o.value) = ground (arith, money_range_iff (total +ℤ o.value)) in
    let (rest, all) = outputs-pass (total +ℤ o.value) vout next h3 in ((within, rest), all)

pub pass-outputs :
    (total : ℤ) (vout : List TxOut)
    → MoneyRange total
    → All (λ (o : TxOut). MoneyRange o.value) vout
    → MoneyRange (sum_from total vout)
    → check_outputs total vout ≡ ok tt
unfolding check_outputs
pass-outputs total [] r h k = refl
pass-outputs total (o ∷ vout) r h k =
    let grows = total_grows (total +ℤ o.value) vout h.1 in
    let within : MoneyRange (total +ℤ o.value) = ground arith in
    let one : money_range o.value ≡ true = ground (arith, money_range_iff o.value) in
    let sum : money_range (total +ℤ o.value) ≡ true =
      ground (arith, money_range_iff (total +ℤ o.value)) in
    let positive : ltb_ℤ o.value (pos 0) ≡ false = ground arith in
    rw (positive, one, add_amount-MoneyRange total o.value r h.0, sum)
      (pass-outputs (total +ℤ o.value) vout within h.1 k)

-- Where the outputs and their sum are in the money range, `get_value_out` is the sum.
get_value_out-sum :
    (tx : Transaction)
    → All (λ (o : TxOut). MoneyRange o.value) tx.vout
    → MoneyRange (sum_from (pos 0) tx.vout)
    → get_value_out tx ≡ sum_from (pos 0) tx.vout
unfolding get_value_out add_values
get_value_out-sum tx h k = add_values-sum (pos 0) tx.vout (omega arith) h k
  where
    add_values-sum :
        (total : ℤ) (vout : List TxOut)
        → MoneyRange total
        → All (λ (o : TxOut). MoneyRange o.value) vout
        → MoneyRange (sum_from total vout)
        → add_values total vout ≡ sum_from total vout
    add_values-sum total [] r h k = refl
    add_values-sum total (o ∷ vout) r h k =
        let grows = total_grows (total +ℤ o.value) vout h.1 in
        let within : MoneyRange (total +ℤ o.value) = ground arith in
        rw (add_amount-MoneyRange total o.value r h.0)
          (add_values-sum (total +ℤ o.value) vout within h.1 k)
