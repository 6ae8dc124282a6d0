-- ===== src/Script/Interp/Laws/Checks.antt =====
-- The signature checks do not run out of fuel either.
use qubitcoin.Common.{ℕ, zero, suc, Bool, Option, none, some, List, [], ◌∷◌, ◌-◌, if◌then◌else◌}
use qubitcoin.Common.Bytes.{Bytes}
use qubitcoin.Script.Bytecode.Delete.{find_and_delete_total}
use qubitcoin.Script.Types.{ScriptError, SigVersion, ScriptVerifyFlags, ScriptExecutionData, Crypto}
use qubitcoin.Script.Interp.Machine.{Stack, Env, Machine}
use qubitcoin.Script.Interp.Encoding.{
  low_s, is_low_der_signature, check_signature_encoding, check_pubkey_encoding,
}
use qubitcoin.Script.Interp.CheckSig.{
  delete_from, drop_signature, checksig_pre_tapscript, spend_weight, schnorr_result,
  check_tapscript_key, checksig_tapscript, eval_checksig,
}
use qubitcoin.Script.Interp.MultiSig.{
  read_count, drop_signatures, match_signatures, clean_up, pop_dummy,
}
use qubitcoin.Script.Interp.Laws.Ends.{Ends, ends_rules, Ends-stack_to_script_num}

Ends-low_s : (o : Option Bool) → Ends (low_s o)
Ends-low_s none = search ends_rules
Ends-low_s (some b) = search ends_rules

Ends-is_low_der_signature : (c : Crypto) (sig : Bytes) → Ends (is_low_der_signature c sig)
unfolding is_low_der_signature
Ends-is_low_der_signature c sig = search (ends_rules, Ends-low_s)

pub Ends-check_signature_encoding :
    (c : Crypto) (flags : ScriptVerifyFlags) (sig : Bytes)
    → Ends (check_signature_encoding c flags sig)
unfolding check_signature_encoding
Ends-check_signature_encoding c flags sig = search (ends_rules, Ends-is_low_der_signature)

pub Ends-check_pubkey_encoding :
    (flags : ScriptVerifyFlags) (v : SigVersion) (key : Bytes)
    → Ends (check_pubkey_encoding flags v key)
unfolding check_pubkey_encoding
Ends-check_pubkey_encoding flags v key = search ends_rules

Ends-delete_from : (script_code pattern : Bytes) → Ends (delete_from script_code pattern)
unfolding delete_from
Ends-delete_from script_code pattern =
    let (found, e) = find_and_delete_total script_code pattern in
    rw (e, delete_from) (Ends.returns found)

Ends-drop_signature : (env : Env) (sig code : Bytes) → Ends (drop_signature env sig code)
unfolding drop_signature
Ends-drop_signature env sig code = search (ends_rules, Ends-delete_from)

Ends-spend_weight : (b : Bool) (d : ScriptExecutionData) → Ends (spend_weight b d)
unfolding spend_weight
Ends-spend_weight b d = search ends_rules

Ends-schnorr_result : (o : Option ScriptError) → Ends (schnorr_result o)
Ends-schnorr_result none = search ends_rules
Ends-schnorr_result (some e) = search ends_rules

Ends-check_tapscript_key :
    (env : Env) (b : Bool) (d : ScriptExecutionData) (sig key : Bytes)
    → Ends (check_tapscript_key env b d sig key)
unfolding check_tapscript_key
Ends-check_tapscript_key env b d sig key = search (ends_rules, Ends-schnorr_result)

pub Ends-checksig_tapscript :
    (env : Env) (d : ScriptExecutionData) (sig key : Bytes)
    → Ends (checksig_tapscript env d sig key)
unfolding checksig_tapscript
Ends-checksig_tapscript env d sig key =
    search (ends_rules, Ends-spend_weight, Ends-check_tapscript_key)

ruleset checks =
    (ends_rules, Ends-check_signature_encoding, Ends-check_pubkey_encoding, Ends-drop_signature)

Ends-checksig_pre_tapscript :
    (env : Env) (m : Machine) (sig key : Bytes) → Ends (checksig_pre_tapscript env m sig key)
unfolding checksig_pre_tapscript
Ends-checksig_pre_tapscript env m sig key = search checks depth 7

pub Ends-eval_checksig :
    (v : SigVersion) (env : Env) (m : Machine) (sig key : Bytes)
    → Ends (eval_checksig v env m sig key)
unfolding eval_checksig
Ends-eval_checksig SigVersion.tapscript env m sig key = search Ends-checksig_tapscript
Ends-eval_checksig SigVersion.taproot env m sig key = search ends_rules
Ends-eval_checksig _ env m sig key = search (ends_rules, Ends-checksig_pre_tapscript)

pub Ends-read_count : (b : Bool) (v : Bytes) (k : ℕ) (e : ScriptError) → Ends (read_count b v k e)
unfolding read_count
Ends-read_count b v k e = search (ends_rules, Ends-stack_to_script_num)

pub Ends-drop_signatures :
    (env : Env) (sigs : List Bytes) (code : Bytes) → Ends (drop_signatures env sigs code)
unfolding drop_signatures
Ends-drop_signatures env [] code = search ends_rules
Ends-drop_signatures env (sig ∷ sigs) code =
    let ih = Ends-drop_signatures env sigs in search (checks, ih)

pub Ends-match_signatures :
    (env : Env) (code : Bytes) (sigs keys : List Bytes) → Ends (match_signatures env code sigs keys)
unfolding match_signatures
Ends-match_signatures env code [] keys = search ends_rules
Ends-match_signatures env code (sig ∷ sigs) [] = search ends_rules
Ends-match_signatures env code (sig ∷ sigs) (key ∷ keys) =
    let ih =
      Ends-match_signatures env code
        (if env.checker.check_ecdsa_signature sig key code env.sigversion then sigs else sig ∷ sigs)
        keys in
    search (checks, ih)

pub Ends-clean_up :
    (flags : ScriptVerifyFlags) (b : Bool) (i k : ℕ) (s : Stack) → Ends (clean_up flags b i k s)
unfolding clean_up
Ends-clean_up flags b zero k s = search ends_rules
Ends-clean_up flags b (suc i) k [] = search ends_rules
Ends-clean_up flags b (suc i) k (v ∷ s) =
    let ih = Ends-clean_up flags b i (k - 1) s in search (ends_rules, ih)

pub Ends-pop_dummy : (flags : ScriptVerifyFlags) (s : Stack) → Ends (pop_dummy flags s)
unfolding pop_dummy
Ends-pop_dummy flags [] = search ends_rules
Ends-pop_dummy flags (v ∷ s) = search ends_rules
