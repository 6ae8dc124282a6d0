-- ===== src/Consensus/Check.antt =====
-- crates/qubitcoin-consensus/src/check.rs: the checks of a transaction that need no context, and the
-- block subsidy. `return state.invalid(Consensus, reason, "")` is `err reason`.
pub mod Totals
pub mod Spec
pub mod Subsidy
use Prim.Native.String.{String}
use qubitcoin.Common.{
  ℕ, ◌+◌, ◌*◌, ◌/◌, ◌^◌, Bool, true, false, not, ◌||◌, List, [], ◌∷◌, ◌++◌, map, ◌==◌, ltb, leb,
  if◌then◌else◌, length, Result, ok, err, ◌>>=◌, ◌>>◌, fail_if,
}
use qubitcoin.Common.Int.{ℤ, pos, ltb_ℤ}
use qubitcoin.Common.Bytes.{Bytes, to_le}
use qubitcoin.Serialize.Encode.{encode_vec}
use qubitcoin.Consensus.Amount.{Amount, money_range, add_amount, coin}
use qubitcoin.Consensus.Transaction.{
  OutPoint, outpoint_eq, is_null_outpoint, TxIn, TxOut, Transaction, is_coinbase,
}
use qubitcoin.Consensus.Transaction.Encode.{encode_tx_in, encode_tx_out}

abbrev pub max_block_weight : ℕ
max_block_weight = 4000000

abbrev pub witness_scale_factor : ℕ
witness_scale_factor = 4

abbrev pub Check : Type 0
Check = Result String (Unit {0})

unfoldable pub stripped_size : Transaction → ℕ
stripped_size tx = length (
    to_le 4 tx.version
    ++ (encode_vec encode_tx_in tx.vin
        ++ (encode_vec encode_tx_out tx.vout ++ to_le 4 tx.lock_time)))

-- The loop over the outputs, from the total so far.
unfoldable pub check_outputs : ℤ → List TxOut → Check
check_outputs total_out [] = ok tt
check_outputs total_out (txout ∷ vout) = do
  fail_if (ltb_ℤ txout.value (pos 0)) "bad-txns-vout-negative"
  fail_if (not (money_range txout.value)) "bad-txns-vout-toolarge"
  fail_if (not (money_range (add_amount total_out txout.value))) "bad-txns-txouttotal-toolarge"
  check_outputs (add_amount total_out txout.value) vout

-- `HashSet::contains`.
unfoldable pub contains : List OutPoint → OutPoint → Bool
contains [] p = false
contains (q ∷ seen) p = outpoint_eq q p || contains seen p

unfoldable pub check_duplicates : List OutPoint → List TxIn → Check
check_duplicates seen_outpoints [] = ok tt
check_duplicates seen_outpoints (txin ∷ vin) = do
  fail_if (contains seen_outpoints txin.prevout) "bad-txns-inputs-duplicate"
  check_duplicates (txin.prevout ∷ seen_outpoints) vin

unfoldable pub check_prevouts : List TxIn → Check
check_prevouts [] = ok tt
check_prevouts (txin ∷ vin) = do
  fail_if (is_null_outpoint txin.prevout) "bad-txns-prevout-null"
  check_prevouts vin

-- `tx.vin[0].script_sig.len()`, where there is an input.
abbrev pub first_script_len : List TxIn → ℕ
first_script_len [] = 0
first_script_len (txin ∷ vin) = length txin.script_sig

unfoldable pub check_inputs : Transaction → Check
check_inputs tx =
    if is_coinbase tx
    then fail_if (ltb (first_script_len tx.vin) 2 || ltb 100 (first_script_len tx.vin))
        "bad-cb-length"
    else check_prevouts tx.vin

unfoldable pub check_transaction : Transaction → Check
check_transaction tx = do
  fail_if (length tx.vin == 0) "bad-txns-vin-empty"
  fail_if (length tx.vout == 0) "bad-txns-vout-empty"
  fail_if (ltb max_block_weight (stripped_size tx * witness_scale_factor)) "bad-txns-oversize"
  check_outputs (pos 0) tx.vout
  check_duplicates [] tx.vin
  check_inputs tx

-- Heights are not negative, and the interval of every network is positive.
unfoldable pub get_block_subsidy : ℕ → ℕ → ℕ
get_block_subsidy subsidy_halving_interval height =
    let halvings = height / subsidy_halving_interval in
    if leb 64 halvings then 0 else 50 * coin / 2 ^ halvings
