-- ===== src/Script/Interp/CheckSig.antt =====
-- OP_CHECKSIG, OP_CHECKSIGVERIFY and OP_CHECKSIGADD.
use qubitcoin.Common.{
  ℕ, Bool, true, not, ◌&&◌, Option, none, some, ◌∷◌, ltb, ◌==◌, if◌then◌else◌, length, drop, ok,
  err, ◌>>=◌, ◌>>◌,
}
use qubitcoin.Common.Int.{ℤ, pos, ◌+ℤ◌, ◌-ℤ◌, ltb_ℤ}
use qubitcoin.Common.Bytes.{Bytes}
use qubitcoin.Script.Num.{default_max_num_size, encode_i64}
use qubitcoin.Script.Bytecode.{push_data, find_and_delete}
use qubitcoin.Script.Types.{
  ScriptError, out_of_fuel, Eval, throw, check, SigVersion, is_base, ScriptExecutionData,
}
use qubitcoin.Script.Interp.Machine.{Stack, Env, Machine}
use qubitcoin.Script.Interp.Values.{from_bool, stack_to_script_num}
use qubitcoin.Script.Interp.StackOps.{too_short}
use qubitcoin.Script.Interp.Numeric.{num_of}
use qubitcoin.Script.Interp.Encoding.{is_nil, check_signature_encoding, check_pubkey_encoding}

abbrev pub validation_weight_per_sigop_passed : ℤ
validation_weight_per_sigop_passed = pos 50

-- `script_code.find_and_delete(...)`: the script that is left, and the number of removals.
unfoldable pub delete_from : Bytes → Bytes → Eval (Bytes × ℕ)
delete_from script_code pattern = elim (find_and_delete script_code pattern) [
  | none ↦ err out_of_fuel
  | some found ↦ ok found
]

-- A signature is dropped from the script code of pre-segwit scripts only.
unfoldable pub drop_signature : Env → Bytes → Bytes → Eval Bytes
drop_signature env vch_sig script_code =
    if is_base env.sigversion
    then (do
      found ← delete_from script_code (push_data vch_sig)
      check (ltb 0 found.1 && env.flags.const_scriptcode) ScriptError.sig_find_and_delete
      ok found.0)
    else ok script_code

-- The path before tapscript.
unfoldable pub checksig_pre_tapscript : Env → Machine → Bytes → Bytes → Eval Bool
checksig_pre_tapscript env m vch_sig vch_pubkey = do
  script_code ← drop_signature env vch_sig (drop m.pbegincodehash env.script)
  check_signature_encoding env.crypto env.flags vch_sig
  check_pubkey_encoding env.flags env.sigversion vch_pubkey
  let f_success = env.checker.check_ecdsa_signature vch_sig vch_pubkey script_code env.sigversion
  check (not f_success && env.flags.nullfail && not (is_nil vch_sig)) ScriptError.sig_null_fail
  ok f_success

-- A signature that is not empty costs weight, where a budget is set.
unfoldable pub spend_weight : Bool → ScriptExecutionData → Eval ScriptExecutionData
spend_weight success exec_data =
    if success && exec_data.validation_weight_left_init
    then (do
      let left = exec_data.validation_weight_left -ℤ validation_weight_per_sigop_passed
      check (ltb_ℤ left (pos 0)) ScriptError.tapscript_validation_weight
      ok (record exec_data { validation_weight_left = left }))
    else ok exec_data

abbrev pub schnorr_result : Option ScriptError → Eval (Unit {0})
schnorr_result none = ok tt
schnorr_result (some e) = throw e

unfoldable pub check_tapscript_key :
    Env → Bool → ScriptExecutionData → Bytes → Bytes → Eval (Unit {0})
check_tapscript_key env success exec_data sig pubkey =
    if is_nil pubkey
    then throw ScriptError.tapscript_empty_pubkey
    else if length pubkey == 32
    then (if success
        then schnorr_result
            (env.checker.check_schnorr_signature sig pubkey env.sigversion exec_data)
        else ok tt)
    else check env.flags.discourage_upgradable_pubkeytype
        ScriptError.discourage_upgradable_pubkey_type

-- The path of tapscript: whether the signature is there, and the budget after it.
unfoldable pub checksig_tapscript :
    Env → ScriptExecutionData → Bytes → Bytes → Eval (Bool × ScriptExecutionData)
checksig_tapscript env exec_data sig pubkey = do
  let success = not (is_nil sig)
  exec_data' ← spend_weight success exec_data
  check_tapscript_key env success exec_data' sig pubkey
  ok (success, exec_data')

-- By the signature version; `taproot`, which `eval_script` is not called with, checks nothing.
unfoldable pub eval_checksig :
    SigVersion → Env → Machine → Bytes → Bytes → Eval (Bool × ScriptExecutionData)
eval_checksig SigVersion.tapscript env m sig pubkey = checksig_tapscript env m.exec_data sig pubkey
eval_checksig SigVersion.taproot env m sig pubkey = ok (true, m.exec_data)
eval_checksig _ env m sig pubkey = do
  f_success ← checksig_pre_tapscript env m sig pubkey
  ok (f_success, m.exec_data)

unfoldable pub check_sig : Bool → Env → Machine → Stack → Eval Machine
check_sig verify env m (vch_pubkey ∷ vch_sig ∷ s) = do
  (f_success, exec_data) ← eval_checksig env.sigversion env m vch_sig vch_pubkey
  check (verify && not f_success) ScriptError.check_sig_verify
  ok (record m { stack = if verify then s else from_bool f_success ∷ s; exec_data = exec_data })
check_sig verify env m _ = too_short

unfoldable pub check_sig_add : SigVersion → Env → Machine → Stack → Eval Machine
check_sig_add SigVersion.base env m _ = throw ScriptError.bad_opcode
check_sig_add SigVersion.witness_v0 env m _ = throw ScriptError.bad_opcode
check_sig_add sigversion env m (pubkey ∷ num_val ∷ sig ∷ s) = do
  num ← stack_to_script_num num_val env.flags.minimaldata default_max_num_size
  (success, exec_data) ← checksig_tapscript env m.exec_data sig pubkey
  ok (record m { stack = encode_i64 (num +ℤ num_of success) ∷ s; exec_data = exec_data })
check_sig_add sigversion env m _ = too_short
