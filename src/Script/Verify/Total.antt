-- ===== src/Script/Verify/Total.antt =====
-- The verification of an input ends: its loops have fuel enough.
use qubitcoin.Common.{
  ℕ, zero, suc, ◌+◌, ◌≤◌, ◌≢◌, refl, Bool, true, Option, none, some, List, [], ◌∷◌, ltb, length, ok,
  err, ◌>>=◌, arith, inl, inr, Bool-cases, Option-cases,
}
use qubitcoin.Common.Bytes.{Bytes}
use qubitcoin.Script.Bytecode.{get_op, is_witness_program}
use qubitcoin.Script.Bytecode.Walk.{get_op-bounds}
use qubitcoin.Script.Types.{ScriptError, Eval, check, out_of_fuel, ScriptExecutionData}
use qubitcoin.Script.Interp.Machine.{Stack, Env}
use qubitcoin.Script.Interp.Laws.Ends.{Ends, Ends-if, ends_rules, Ends-total}
use qubitcoin.Script.Interp.Laws.Loop.{eval_script-Ends}
use qubitcoin.Script.Interp.CheckSig.{schnorr_result}
use qubitcoin.Script.Verify.{
  top_is_true, pop_to_one, witness_step, finish, run_base, verify_redeem, verify_p2sh,
  verify_script,
}
use qubitcoin.Script.Verify.Taproot.{Scan, scan_op_success}
use qubitcoin.Script.Verify.Witness.{
  Context, one_true, execute_witness_script, verify_p2wsh, verify_p2wpkh, run_tapscript,
  verify_script_path, spend_taproot, verify_taproot, verify_witness_program,
}

scan_op_success-total :
    (fuel : ℕ) (script : Bytes) (pc : ℕ)
    → length script ≤ pc + fuel
    → scan_op_success fuel script pc ≢ Scan.spent
unfolding scan_op_success
scan_op_success-total zero script pc h = ground arith
scan_op_success-total (suc fuel) script pc h = elim (Bool-cases (ltb pc (length script))) [
  | inr done ↦ rw (done, scan_op_success) (λ e. cc)
  | inl more ↦ elim (Option-cases (get_op script pc)) [
    | inl bad ↦ rw (more, bad, scan_op_success) (λ e. cc)
    | inr ((opcode, d, j), e) ↦
        let (lo, hi) = get_op-bounds script pc opcode d j e in
        let ih = scan_op_success-total fuel script j (omega arith) in
        rw (more, e, scan_op_success) (λ s. ground arith)
  ]
]

Ends-one_true : (s : Stack) → Ends (one_true s)
unfolding one_true
Ends-one_true (a ∷ []) = search ends_rules
Ends-one_true _ = search ends_rules

Ends-top_is_true : (s : Stack) → Ends (top_is_true s)
unfolding top_is_true
Ends-top_is_true [] = search ends_rules
Ends-top_is_true (a ∷ s) = search ends_rules

Ends-execute_witness_script :
    (env : Env) (s : Stack) (d : ScriptExecutionData) → Ends (execute_witness_script env s d)
unfolding execute_witness_script
Ends-execute_witness_script env s d = search (ends_rules, eval_script-Ends, Ends-one_true)

module _ (ctx : Context) where
  Ends-verify_p2wsh : (program : Bytes) (s : Stack) → Ends (verify_p2wsh ctx program s)
  unfolding verify_p2wsh
  Ends-verify_p2wsh program [] = search ends_rules
  Ends-verify_p2wsh program (script ∷ s) = search (ends_rules, Ends-execute_witness_script)

  Ends-verify_p2wpkh : (program : Bytes) (s : Stack) → Ends (verify_p2wpkh ctx program s)
  unfolding verify_p2wpkh
  Ends-verify_p2wpkh program s = search (ends_rules, Ends-execute_witness_script)

  Ends-run_tapscript :
      (scan : Scan) (w : List Bytes) (script : Bytes) (s : Stack) (d : ScriptExecutionData)
      → scan ≢ Scan.spent
      → Ends (run_tapscript ctx scan w script s d)
  unfolding run_tapscript
  Ends-run_tapscript Scan.success w script s d h = search ends_rules
  Ends-run_tapscript Scan.bad_op w script s d h = search ends_rules
  Ends-run_tapscript Scan.spent w script s d h = absurd (h refl)
  Ends-run_tapscript Scan.no_success w script s d h = Ends-execute_witness_script _ s _

  Ends-schnorr : (o : Option ScriptError) → Ends (schnorr_result o)
  Ends-schnorr none = Ends.returns tt
  Ends-schnorr (some e) = Ends.fails e

  Ends-verify_script_path :
      (w : List Bytes) (program control script : Bytes) (s : Stack) (d : ScriptExecutionData)
      → Ends (verify_script_path ctx w program control script s d)
  unfolding verify_script_path
  Ends-verify_script_path w program control script s d =
      let total = scan_op_success-total (length script) script 0 (omega arith) in
      search (ends_rules, Ends-run_tapscript, total)

  Ends-spend_taproot :
      (w : List Bytes) (program : Bytes) (s : Stack) (d : ScriptExecutionData)
      → Ends (spend_taproot ctx w program s d)
  unfolding spend_taproot
  Ends-spend_taproot w program [] d = search ends_rules
  Ends-spend_taproot w program (sig ∷ []) d = Ends-schnorr _
  Ends-spend_taproot w program (control ∷ script ∷ s) d =
      Ends-verify_script_path w program control script s d

  Ends-verify_witness_program :
      (w : List Bytes) (version : ℕ) (program : Bytes) (p2sh : Bool)
      → Ends (verify_witness_program ctx w version program p2sh)
  unfolding verify_witness_program verify_taproot
  Ends-verify_witness_program w version program p2sh =
      search (ends_rules, Ends-verify_p2wsh, Ends-verify_p2wpkh, Ends-spend_taproot)

  Ends-program :
      (o : Option (ℕ × Bytes)) (r : Eval (Bool × Stack)) (k : ℕ × Bytes → Eval (Bool × Stack))
      → Ends r
      → ((p : ℕ × Bytes) → Ends (k p))
      → Ends (elim o as (λ _. Eval (Bool × Stack)) [ none ↦ r | some p ↦ k p ])
  Ends-program none r k h i = h
  Ends-program (some p) r k h i = i p

  Ends-used :
      (malleated : Bool) (e : ScriptError) (p2sh : Bool) (w : List Bytes) (s : Stack)
      (p : ℕ × Bytes)
      → Ends {A = Bool × Stack} (
          check malleated e >>= λ _.
          verify_witness_program ctx w p.0 p.1 p2sh >>= λ _. ok (true, pop_to_one s))
  Ends-used malleated e p2sh w s p = search (ends_rules, Ends-verify_witness_program)

  Ends-witness_step :
      (script : Bytes) (malleated : Bool) (e : ScriptError) (p2sh : Bool) (w : List Bytes)
      (s : Stack)
      → Ends (witness_step ctx script malleated e p2sh w s)
  unfolding witness_step
  Ends-witness_step script malleated e p2sh w s =
      Ends-if ctx.flags.witness _ _
        (Ends-program (is_witness_program script) _ _ (Ends.returns _)
          (Ends-used malleated e p2sh w s))
        (Ends.returns _)

  Ends-finish : (had : Bool) (w : List Bytes) (s : Stack) → Ends (finish ctx had w s)
  unfolding finish
  Ends-finish had w s = search ends_rules

  Ends-run_base : (script : Bytes) (s : Stack) → Ends (run_base ctx script s)
  unfolding run_base
  Ends-run_base script s = search (ends_rules, eval_script-Ends)

  Ends-verify_p2sh :
      (sig : Bytes) (w : List Bytes) (had : Bool) (s : Stack) → Ends (verify_p2sh ctx sig w had s)
  unfolding verify_p2sh verify_redeem
  Ends-verify_p2sh sig w had [] = search ends_rules
  Ends-verify_p2sh sig w had (script ∷ s) =
      search (ends_rules, Ends-run_base, Ends-top_is_true, Ends-witness_step, Ends-finish)

  Ends-verify_script : (sig script : Bytes) (w : List Bytes) → Ends (verify_script ctx sig script w)
  unfolding verify_script
  Ends-verify_script sig script w =
      search
        (
          ends_rules, Ends-run_base, Ends-top_is_true, Ends-witness_step, Ends-finish,
          Ends-verify_p2sh,
        )
        depth 12

-- The verification of an input returns or fails with an error of the program, whatever the scripts,
-- the witness and the flags: it never gives `out_of_fuel`, the answer of eval_script, of the scan for
-- OP_SUCCESS and of find_and_delete where one of their loops has spent its fuel.
pub verify_script_total :
    (ctx : Context) (script_sig script_pubkey : Bytes) (witness : List Bytes)
    → verify_script ctx script_sig script_pubkey witness ≢ err out_of_fuel
verify_script_total ctx script_sig script_pubkey witness =
    Ends-total _ (Ends-verify_script ctx script_sig script_pubkey witness)
