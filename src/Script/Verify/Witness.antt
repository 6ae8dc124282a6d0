-- ===== src/Script/Verify/Witness.antt =====
-- `verify_witness_program` and `execute_witness_script`.
use qubitcoin.Common.{
  ℕ, ◌+◌, ◌-◌, ◌%◌, ◌/◌, ◌*◌, Bool, true, false, not, ◌&&◌, ◌||◌, List, [], ◌∷◌, ◌++◌, ltb, ◌==◌,
  if◌then◌else◌, length, ok, err, ◌>>=◌, ◌>>◌, reverse, replicate,
}
use qubitcoin.Common.Int.{pos}
use qubitcoin.Common.Bytes.{Bytes, bytes_eq}
use qubitcoin.Serialize.CompactSize.{write_compact_size}
use qubitcoin.Script.Bytecode.{at, build_p2pkh}
use qubitcoin.Script.Types.{
  ScriptError, Eval, throw, check, out_of_fuel, SigVersion, is_tapscript, ScriptVerifyFlags,
  ScriptExecutionData, SignatureChecker, Crypto,
}
use qubitcoin.Script.Interp.Machine.{Stack, Env}
use qubitcoin.Script.Interp.Values.{cast_to_bool}
use qubitcoin.Script.Interp.CheckSig.{schnorr_result}
use qubitcoin.Script.Interp.Step.{eval_script, max_script_element_size, max_stack_size}
use qubitcoin.Script.Verify.Taproot.{
  annex_tag, taproot_leaf_tapscript, taproot_control_base_size, taproot_control_node_size,
  taproot_control_max_size, Scan, success, no_success, bad_op, spent, scan_op_success,
  compute_tapleaf_hash, verify_taproot_commitment, compute_witness_size,
}

-- `ScriptExecutionData::default()`.
abbrev pub default_exec_data : ScriptExecutionData
default_exec_data = record {
  tapleaf_hash_init = false;
  tapleaf_hash = replicate 32 0;
  codeseparator_pos_init = false;
  codeseparator_pos = 0;
  validation_weight_left_init = false;
  validation_weight_left = pos 0;
  annex_init = false;
  annex_present = false;
  annex_hash = replicate 32 0;
}

-- The loop over the sizes of the initial stack.
unfoldable pub oversized : Stack → Bool
oversized [] = false
oversized (item ∷ items) = ltb max_script_element_size (length item) || oversized items

-- The stack must end with one value that is true.
unfoldable pub one_true : Stack → Eval (Unit {0})
one_true (a ∷ []) = check (not (cast_to_bool a)) ScriptError.eval_false
one_true _ = throw ScriptError.clean_stack

unfoldable pub execute_witness_script : Env → Stack → ScriptExecutionData → Eval (Unit {0})
execute_witness_script env stack exec_data = do
  check (oversized stack) ScriptError.push_size
  check (is_tapscript env.sigversion && ltb max_stack_size (length stack)) ScriptError.stack_size
  r ← eval_script env stack exec_data
  one_true r.0

-- What both functions hand on to an evaluation.
pub record Context : Type 0 where
  pub flags : ScriptVerifyFlags
  pub checker : SignatureChecker
  pub crypto : Crypto

abbrev pub env_of : Context → SigVersion → Bytes → Env
env_of ctx sigversion script = record {
  flags = ctx.flags;
  sigversion = sigversion;
  checker = ctx.checker;
  crypto = ctx.crypto;
  script = script;
}

-- P2WSH: the last item is the script; the argument is the witness reversed.
unfoldable pub verify_p2wsh : Context → Bytes → Stack → Eval (Unit {0})
verify_p2wsh ctx program [] = throw ScriptError.witness_program_witness_empty
verify_p2wsh ctx program (script_bytes ∷ stack) = do
  check (not (bytes_eq (ctx.crypto.sha256_hash script_bytes) program))
      ScriptError.witness_program_mismatch
  execute_witness_script (env_of ctx SigVersion.witness_v0 script_bytes) stack default_exec_data

-- P2WPKH: two items run against the implied P2PKH script.
unfoldable pub verify_p2wpkh : Context → Bytes → Stack → Eval (Unit {0})
verify_p2wpkh ctx program stack = do
  check (not (length stack == 2)) ScriptError.witness_program_mismatch
  execute_witness_script (env_of ctx SigVersion.witness_v0 (build_p2pkh program)) stack
      default_exec_data

-- The annex is the last of two or more items, if it starts with the tag.
unfoldable pub split_annex : Crypto → Stack → Stack × ScriptExecutionData
split_annex crypto ((b ∷ annex) ∷ item ∷ items) =
    if b == annex_tag
    then (
      item ∷ items,
      record default_exec_data {
        annex_init = true;
        annex_present = true;
        annex_hash = crypto.sha256_hash (write_compact_size (length (b ∷ annex)) ++ (b ∷ annex));
      },
    )
    else ((b ∷ annex) ∷ item ∷ items, record default_exec_data { annex_init = true })
split_annex crypto stack = (stack, record default_exec_data { annex_init = true })

-- A tapscript, from the scan for OP_SUCCESS on.
unfoldable pub run_tapscript :
    Context → Scan → List Bytes → Bytes → Stack → ScriptExecutionData → Eval (Unit {0})
run_tapscript ctx success witness script stack exec_data =
    check ctx.flags.discourage_op_success ScriptError.discourage_op_success
run_tapscript ctx bad_op witness script stack exec_data = throw ScriptError.bad_opcode
run_tapscript ctx spent witness script stack exec_data = err out_of_fuel
run_tapscript ctx no_success witness script stack exec_data =
    execute_witness_script (env_of ctx SigVersion.tapscript script) stack (record exec_data {
      validation_weight_left_init = true;
      validation_weight_left = pos (compute_witness_size witness + 50);
    })

-- A control block has 33 bytes and up to 128 nodes of 32.
abbrev pub bad_control_size : Bytes → Bool
bad_control_size control =
    ltb (length control) taproot_control_base_size
    || ltb taproot_control_max_size (length control)
    || not ((length control - taproot_control_base_size) % taproot_control_node_size == 0)

-- The script path: a control block and a script on top of the stack of the script.
unfoldable pub verify_script_path :
    Context → List Bytes → Bytes → Bytes → Bytes → Stack → ScriptExecutionData → Eval (Unit {0})
verify_script_path ctx witness program control script stack exec_data = do
  check (bad_control_size control) ScriptError.taproot_wrong_control_size
  let leaf_version = at control 0 / 2 * 2
  let tapleaf_hash = compute_tapleaf_hash ctx.crypto leaf_version script
  check (not (verify_taproot_commitment ctx.crypto control program tapleaf_hash))
      ScriptError.witness_program_mismatch
  let exec_data' = record exec_data { tapleaf_hash_init = true; tapleaf_hash = tapleaf_hash }
  if leaf_version == taproot_leaf_tapscript
      then run_tapscript ctx (scan_op_success (length script) script 0) witness script stack
          exec_data'
      else check ctx.flags.discourage_upgradable_taproot_version
          ScriptError.discourage_upgradable_taproot_version

unfoldable pub spend_taproot :
    Context → List Bytes → Bytes → Stack → ScriptExecutionData → Eval (Unit {0})
spend_taproot ctx witness program [] exec_data = throw ScriptError.witness_program_witness_empty
spend_taproot ctx witness program (sig ∷ []) exec_data =
    schnorr_result (ctx.checker.check_schnorr_signature sig program SigVersion.taproot exec_data)
spend_taproot ctx witness program (control ∷ script ∷ stack) exec_data =
    verify_script_path ctx witness program control script stack exec_data

unfoldable pub verify_taproot : Context → List Bytes → Bytes → Eval (Unit {0})
verify_taproot ctx witness program =
    if not ctx.flags.taproot
    then ok tt
    else (let (stack, exec_data) = split_annex ctx.crypto (reverse witness) in
        spend_taproot ctx witness program stack exec_data)

unfoldable pub verify_witness_program : Context → List Bytes → ℕ → Bytes → Bool → Eval (Unit {0})
verify_witness_program ctx witness wit_version wit_program p2sh =
    if wit_version == 0
    then (if length wit_program == 32
        then verify_p2wsh ctx wit_program (reverse witness)
        else if length wit_program == 20
        then verify_p2wpkh ctx wit_program (reverse witness)
        else throw ScriptError.witness_program_wrong_length)
    else if wit_version == 1 && length wit_program == 32 && not p2sh
    then verify_taproot ctx witness wit_program
    else check ctx.flags.discourage_upgradable_witness_program
        ScriptError.discourage_upgradable_witness_program
