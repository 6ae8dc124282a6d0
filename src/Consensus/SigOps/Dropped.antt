-- ===== src/Consensus/SigOps/Dropped.antt =====
-- SigOps: one input can take the P2SH count of the whole transaction away.
use qubitcoin.Common.{
  ℕ, ◌+◌, ◌%◌, ◌^◌, ◌≡◌, refl, ◌∙◌, ap, true, false, Option, none, some, List, [], ◌∷◌, ◌++◌, arith,
  Option-cases, inl, inr,
}
use qubitcoin.Common.Bytes.{Bytes}
use qubitcoin.Script.Bytecode.{is_p2sh, iter_ops, all_pushes, is_push_only}
use qubitcoin.Consensus.Transaction.{OutPoint, TxIn, Transaction}
use qubitcoin.Consensus.SigOps.{
  last_of, last_push, count_redeem, p2sh_sig_ops, p2sh_loop, get_p2sh_sigop_count,
}

no_push :
    (last_data : Bytes) (ops : List (ℕ × Bytes))
    → all_pushes ops ≡ false
    → last_push last_data ops ≡ none
unfolding last_push all_pushes
no_push last_data [] h = cc
no_push last_data ((opcode, d) ∷ ops) h = ground (arith, no_push (last_of last_data d) ops)

gives_up :
    (script_sig prev : Bytes)
    → is_p2sh prev ≡ true
    → is_push_only script_sig ≡ false
    → p2sh_sig_ops script_sig (some prev) ≡ none
unfolding p2sh_sig_ops count_redeem is_push_only
gives_up script_sig prev h k = rw (h, no_push [] (iter_ops script_sig) k) refl

loop_gives_up :
    (get_script : OutPoint → Option Bytes) (count : ℕ) (front : List TxIn) (i : TxIn)
    (back : List TxIn)
    → p2sh_sig_ops i.script_sig (get_script i.prevout) ≡ none
    → p2sh_loop get_script count (front ++ (i ∷ back)) ≡ 0
unfolding p2sh_loop
loop_gives_up get_script count [] i back h = rw (h, p2sh_loop) refl
loop_gives_up get_script count (j ∷ front) i back h =
    elim (Option-cases (p2sh_sig_ops j.script_sig (get_script j.prevout))) [
      | inl e ↦ rw (e, p2sh_loop) refl
      | inr (n, e) ↦
          let rest = loop_gives_up get_script ((count + n) % 2 ^ 32) front i back h in
          rw (e, p2sh_loop) rest
    ]

-- One input that spends a P2SH output with a scriptSig that does not only push makes the P2SH count
-- of the whole transaction 0, whatever its other inputs hold.
pub get_p2sh_sigop_count-dropped :
    (tx : Transaction) (get_script : OutPoint → Option Bytes) (front : List TxIn) (i : TxIn)
    (back : List TxIn) (prev : Bytes)
    → tx.vin ≡ front ++ (i ∷ back)
    → get_script i.prevout ≡ some prev
    → is_p2sh prev ≡ true
    → is_push_only i.script_sig ≡ false
    → get_p2sh_sigop_count tx get_script ≡ 0
unfolding get_p2sh_sigop_count
get_p2sh_sigop_count-dropped tx get_script front i back prev e f h k =
    let here = ap (p2sh_sig_ops i.script_sig) f ∙ gives_up i.script_sig prev h k in
    let all = ap (p2sh_loop get_script 0) e ∙ loop_gives_up get_script 0 front i back here in
    ground (arith, all)
