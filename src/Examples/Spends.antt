-- ===== src/Examples/Spends.antt =====
-- Spends of outputs.
use qubitcoin.Common.{
  ℕ, ◌≡◌, ◌≢◌, refl, true, false, none, some, [], ◌∷◌, ok, err, drop, reverse, replicate,
}
use qubitcoin.Common.Bytes.{Bytes}
use qubitcoin.Script.Bytecode.{is_push_only, is_p2wpkh}
use qubitcoin.Script.Types.{out_of_fuel, SigVersion}
use qubitcoin.Script.Interp.Machine.{Stack}
use qubitcoin.Script.Interp.Flags.{Fewer}
use qubitcoin.Script.Verify.{verify_script, run_base, top_is_true, witness_step, pop_to_one, finish}
use qubitcoin.Script.Verify.Witness.{
  verify_witness_program, verify_p2wpkh, execute_witness_script, oversized, one_true,
}
use qubitcoin.Script.Interp.Step.{
  eval_script, eval_loop, step, exec_op, count_op, dispatch, exec_byte, exec_opcode,
}
use qubitcoin.Script.Cond
use qubitcoin.Script.Bytecode.{
  get_op, read_op, take_push, is_witness_program, is_p2sh, push_data, build_p2pkh,
}
use qubitcoin.Script.Opcode.{is_disabled_opcode, from_u8}
use qubitcoin.Script.Interp.Values.{check_minimal_push, cast_to_bool}
use qubitcoin.Script.Interp.StackOps.{dup, hash_top, equal_verify}
use qubitcoin.Script.Interp.CheckSig.{
  check_sig, eval_checksig, checksig_pre_tapscript, drop_signature,
}
use qubitcoin.Script.Interp.Encoding.{check_signature_encoding, check_pubkey_encoding}
use qubitcoin.Script.Verify.Flags.{under}
use qubitcoin.Script.Verify.Flags.SoftFork.{Coherent, verify_script_soft_fork}
use qubitcoin.Script.Verify.Total.{verify_script_total}
use qubitcoin.Script.Verify.Rules.{verify_script-runs, verify_script-witness}
use qubitcoin.Script.Verify.PubkeyHash.Spend.{verify_p2wpkh-signed, verify_script-p2wpkh}
use qubitcoin.Examples.Data.{p2sh_flags, segwit_flags, segwit, key, key_output}

-- The key spends its output.
key_spends : verify_script segwit [] key_output (key ∷ key ∷ []) ≡ ok tt
unfolding verify_script run_base top_is_true witness_step pop_to_one finish verify_witness_program
    verify_p2wpkh execute_witness_script oversized one_true eval_script eval_loop step exec_op
    count_op dispatch exec_byte exec_opcode Cond.is_empty Cond.new Cond.all_true get_op read_op
    take_push is_witness_program is_p2sh push_data build_p2pkh is_disabled_opcode from_u8
    check_minimal_push cast_to_bool dup hash_top equal_verify check_sig eval_checksig
    checksig_pre_tapscript drop_signature check_signature_encoding check_pubkey_encoding
key_spends = refl

key_form : is_p2wpkh key_output ≡ true
unfolding is_p2wpkh
key_form = refl

verify_script-p2wpkh_example :
    (◌≡◌ {A = Bytes} [] [])
    × (k : Bytes) × (sig : Bytes) × (reverse (key ∷ key ∷ []) ≡ k ∷ sig ∷ [])
    × (segwit.crypto.hash160 k ≡ drop 2 key_output)
    × (segwit.checker.check_ecdsa_signature sig k
          (build_p2pkh (drop 2 key_output))
          SigVersion.witness_v0
        ≡ true)
verify_script-p2wpkh_example =
    verify_script-p2wpkh segwit [] key_output (key ∷ key ∷ []) key_spends refl key_form

key_program : verify_p2wpkh segwit (replicate 20 3) (key ∷ key ∷ []) ≡ ok tt
unfolding verify_script run_base top_is_true witness_step pop_to_one finish verify_witness_program
    verify_p2wpkh execute_witness_script oversized one_true eval_script eval_loop step exec_op
    count_op dispatch exec_byte exec_opcode Cond.is_empty Cond.new Cond.all_true get_op read_op
    take_push is_witness_program is_p2sh push_data build_p2pkh is_disabled_opcode from_u8
    check_minimal_push cast_to_bool dup hash_top equal_verify check_sig eval_checksig
    checksig_pre_tapscript drop_signature check_signature_encoding check_pubkey_encoding
key_program = refl

verify_p2wpkh-signed_example :
    (k : Bytes) × (sig : Bytes) × (key ∷ key ∷ [] ≡ k ∷ sig ∷ [])
    × (segwit.crypto.hash160 k ≡ replicate 20 3)
    × (segwit.checker.check_ecdsa_signature sig k
          (build_p2pkh (replicate 20 3))
          SigVersion.witness_v0
        ≡ true)
verify_p2wpkh-signed_example =
    verify_p2wpkh-signed segwit (replicate 20 3) (key ∷ key ∷ []) refl key_program

p2sh_Fewer : Fewer p2sh_flags segwit_flags
p2sh_Fewer = record {
  p2sh = λ h. refl;
  strictenc = λ h. h;
  dersig = λ h. h;
  low_s = λ h. h;
  nulldummy = λ h. h;
  sigpushonly = λ h. h;
  minimaldata = λ h. refl;
  discourage_upgradable_nops = λ h. h;
  cleanstack = λ h. refl;
  checklocktimeverify = λ h. h;
  checksequenceverify = λ h. h;
  witness = λ h. refl;
  discourage_upgradable_witness_program = λ h. h;
  minimalif = λ h. h;
  nullfail = λ h. refl;
  witness_pubkeytype = λ h. h;
  const_scriptcode = λ h. h;
  taproot = λ h. h;
  discourage_upgradable_taproot_version = λ h. h;
  discourage_op_success = λ h. h;
  discourage_upgradable_pubkeytype = λ h. h;
}

p2sh_Coherent : Coherent p2sh_flags
p2sh_Coherent = record { cleanstack = λ h. h; witness = λ h. refl }

verify_script_soft_fork_example :
    verify_script (under segwit p2sh_flags) [] key_output (key ∷ key ∷ []) ≡ ok tt
verify_script_soft_fork_example =
    verify_script_soft_fork p2sh_flags segwit_flags p2sh_Fewer p2sh_Coherent segwit [] key_output
      (key ∷ key ∷ []) key_spends

verify_script_total_example : verify_script segwit [] key_output (key ∷ key ∷ []) ≢ err out_of_fuel
verify_script_total_example = verify_script_total segwit [] key_output (key ∷ key ∷ [])

verify_script-runs_example :
    ((s : Stack) × (t : Stack) × (run_base segwit [] [] ≡ ok s)
      × (run_base segwit key_output s ≡ ok t)
      × (top_is_true t ≡ ok tt))
    × (segwit.flags.sigpushonly ≡ true → is_push_only [] ≡ true)
    × (segwit.flags.p2sh ≡ true → is_p2sh key_output ≡ true → is_push_only [] ≡ true)
verify_script-runs_example = verify_script-runs segwit [] key_output (key ∷ key ∷ []) key_spends

verify_script-witness_example :
    ((v : ℕ) (p : Bytes)
      → is_witness_program key_output ≡ some (v, p)
      → (◌≡◌ {A = Bytes} [] [])
        × (verify_witness_program segwit (key ∷ key ∷ []) v p false ≡ ok tt))
    × (is_witness_program key_output ≡ none → is_p2sh key_output ≡ false → key ∷ key ∷ [] ≡ [])
verify_script-witness_example =
    verify_script-witness segwit [] key_output (key ∷ key ∷ []) key_spends refl
