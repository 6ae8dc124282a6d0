-- ===== src/Script/Interp/Flags/Checks.antt =====
-- The signature checks under fewer flags.
use qubitcoin.Common.{
  ℕ, zero, suc, ◌-◌, refl, Bool, not, ◌&&◌, ◌||◌, List, [], ◌∷◌, ltb, ◌==◌, if◌then◌else◌, length,
  ok, arith,
}
use qubitcoin.Common.Bytes.{Bytes}
use qubitcoin.Script.Bytecode.{push_data}
use qubitcoin.Script.Types.{
  ScriptError, SigVersion, is_base, is_witness_v0, ScriptVerifyFlags, ScriptExecutionData, Crypto,
}
use qubitcoin.Script.Interp.Machine.{Stack, Env, Machine}
use qubitcoin.Script.Interp.Encoding.{
  is_nil, is_valid_signature_encoding, is_low_der_signature, is_defined_hashtype_signature,
  check_signature_encoding, check_pubkey_encoding, is_compressed_or_uncompressed_pubkey,
  is_compressed_pubkey,
}
use qubitcoin.Script.Interp.CheckSig.{
  delete_from, drop_signature, checksig_pre_tapscript, spend_weight, check_tapscript_key,
  checksig_tapscript, eval_checksig,
}
use qubitcoin.Script.Interp.MultiSig.{
  read_count, drop_signatures, match_signatures, clean_up, pop_dummy,
}
use qubitcoin.Script.Interp.Flags.{
  Fewer, Sub, Sub-refl, Sub-check, Sub-bind, Sub-if, Sub-if_flag, sub_rules,
  Sub-stack_to_script_num,
}

-- `e` with other flags.
abbrev pub with_flags : Env → ScriptVerifyFlags → Env
with_flags env f = record env { flags = f }

module _ {f g : ScriptVerifyFlags} (le : Fewer f g) where
  Sub-low_der : (c : Crypto) (sig : Bytes) → Sub (is_low_der_signature c sig) (ok tt)
  Sub-low_der c sig = record { at = λ a e. refl }

  Sub-check_signature_encoding :
      (c : Crypto) (sig : Bytes)
      → Sub (check_signature_encoding c g sig) (check_signature_encoding c f sig)
  unfolding check_signature_encoding
  Sub-check_signature_encoding c sig = Sub-if (is_nil sig) _ _ _ _ (Sub-refl _) (
      Sub-bind _ _ _ _
        (Sub-check ((g.dersig || g.low_s || g.strictenc) && not (is_valid_signature_encoding sig))
          ((f.dersig || f.low_s || f.strictenc) && not (is_valid_signature_encoding sig)) _ _
          (λ h. ground (arith, le.dersig, le.low_s, le.strictenc)))
        (λ _.
          Sub-bind _ _ _ _
            (Sub-if_flag g.low_s f.low_s _ _ _ le.low_s (Sub-refl _) (Sub-low_der c sig))
            (λ _.
              Sub-check (g.strictenc && not (is_defined_hashtype_signature sig))
                (f.strictenc && not (is_defined_hashtype_signature sig)) _ _
                (λ h. ground (arith, le.strictenc)))))

  Sub-check_pubkey_encoding :
      (v : SigVersion) (key : Bytes)
      → Sub (check_pubkey_encoding g v key) (check_pubkey_encoding f v key)
  unfolding check_pubkey_encoding
  Sub-check_pubkey_encoding v key =
      Sub-bind _ _ _ _
        (Sub-check (g.strictenc && not (is_compressed_or_uncompressed_pubkey key))
          (f.strictenc && not (is_compressed_or_uncompressed_pubkey key)) _ _
          (λ h. ground (arith, le.strictenc)))
        (λ _.
          Sub-check (g.witness_pubkeytype && is_witness_v0 v && not (is_compressed_pubkey key))
            (f.witness_pubkeytype && is_witness_v0 v && not (is_compressed_pubkey key)) _ _
            (λ h. ground (arith, le.witness_pubkeytype)))

  module _ (env : Env) where
    Sub-drop_signature :
        (sig code : Bytes)
        → Sub
            (drop_signature (with_flags env g) sig code)
            (drop_signature (with_flags env f) sig code)
    unfolding drop_signature
    Sub-drop_signature sig code =
        Sub-if (is_base env.sigversion) _ _ _ _
          (Sub-bind _ _ _ _ (Sub-refl (delete_from code (push_data sig))) λ found.
            Sub-bind _ _ _ _
              (Sub-check (ltb 0 found.1 && g.const_scriptcode) (ltb 0 found.1 && f.const_scriptcode)
                _ _ (λ h. ground (arith, le.const_scriptcode)))
              (λ _. Sub-refl _))
          (Sub-refl _)

    Sub-checksig_pre_tapscript :
        (m : Machine) (sig key : Bytes)
        → Sub
            (checksig_pre_tapscript (with_flags env g) m sig key)
            (checksig_pre_tapscript (with_flags env f) m sig key)
    unfolding checksig_pre_tapscript
    Sub-checksig_pre_tapscript m sig key = Sub-bind _ _ _ _ (Sub-drop_signature sig _) λ code.
        Sub-bind _ _ _ _ (Sub-check_signature_encoding env.crypto sig) λ _.
          Sub-bind _ _ _ _ (Sub-check_pubkey_encoding env.sigversion key) λ _.
            let b = env.checker.check_ecdsa_signature sig key code env.sigversion in
            Sub-bind _ _ _ _
              (Sub-check (not b && g.nullfail && not (is_nil sig))
                (not b && f.nullfail && not (is_nil sig)) _ _ (λ h. ground (arith, le.nullfail)))
              (λ _. Sub-refl _)

    pub Sub-checksig_tapscript :
        (d : ScriptExecutionData) (sig key : Bytes)
        → Sub
            (checksig_tapscript (with_flags env g) d sig key)
            (checksig_tapscript (with_flags env f) d sig key)
    unfolding checksig_tapscript check_tapscript_key
    Sub-checksig_tapscript d sig key =
        Sub-bind _ _ _ _ (Sub-refl (spend_weight (not (is_nil sig)) d)) λ d'.
          Sub-bind _ _ _ _
            (Sub-if (is_nil key) _ _ _ _ (Sub-refl _) (
              Sub-if (length key == 32) _ _ _ _ (Sub-refl _) (
                Sub-check g.discourage_upgradable_pubkeytype f.discourage_upgradable_pubkeytype _ _
                  le.discourage_upgradable_pubkeytype)))
            (λ _. Sub-refl _)

    pub Sub-eval_checksig :
        (v : SigVersion) (m : Machine) (sig key : Bytes)
        → Sub
            (eval_checksig v (with_flags env g) m sig key)
            (eval_checksig v (with_flags env f) m sig key)
    unfolding eval_checksig
    Sub-eval_checksig SigVersion.tapscript m sig key = Sub-checksig_tapscript m.exec_data sig key
    Sub-eval_checksig SigVersion.taproot m sig key = search sub_rules
    Sub-eval_checksig _ m sig key =
        Sub-bind _ _ _ _ (Sub-checksig_pre_tapscript m sig key) λ b. Sub-refl _

    pub Sub-read_count :
        (v : Bytes) (k : ℕ) (e : ScriptError)
        → Sub (read_count g.minimaldata v k e) (read_count f.minimaldata v k e)
    unfolding read_count
    Sub-read_count v k e =
        search (sub_rules, Sub-stack_to_script_num v g.minimaldata f.minimaldata 4 le.minimaldata)

    pub Sub-drop_signatures :
        (sigs : List Bytes) (code : Bytes)
        → Sub
            (drop_signatures (with_flags env g) sigs code)
            (drop_signatures (with_flags env f) sigs code)
    unfolding drop_signatures
    Sub-drop_signatures [] code = Sub-refl _
    Sub-drop_signatures (sig ∷ sigs) code =
        Sub-bind _ _ _ _ (Sub-drop_signature sig code) λ code'. Sub-drop_signatures sigs code'

    pub Sub-match_signatures :
        (code : Bytes) (sigs keys : List Bytes)
        → Sub
            (match_signatures (with_flags env g) code sigs keys)
            (match_signatures (with_flags env f) code sigs keys)
    unfolding match_signatures
    Sub-match_signatures code [] keys = Sub-refl _
    Sub-match_signatures code (sig ∷ sigs) [] = Sub-refl _
    Sub-match_signatures code (sig ∷ sigs) (key ∷ keys) =
        Sub-bind _ _ _ _ (Sub-check_signature_encoding env.crypto sig) λ _.
          Sub-bind _ _ _ _ (Sub-check_pubkey_encoding env.sigversion key) λ _.
            let left : List Bytes =
              if env.checker.check_ecdsa_signature sig key code env.sigversion
              then sigs
              else sig ∷ sigs in
            Sub-if (ltb (length keys) (length left)) _ _ _ _ (Sub-refl _)
              (Sub-match_signatures code left keys)

  pub Sub-clean_up :
      (b : Bool) (i k : ℕ) (s : Stack) → Sub (clean_up g b i k s) (clean_up f b i k s)
  unfolding clean_up
  Sub-clean_up b zero k s = Sub-refl _
  Sub-clean_up b (suc i) k [] = Sub-refl _
  Sub-clean_up b (suc i) k (v ∷ s) =
      Sub-bind _ _ _ _
        (Sub-check (not b && g.nullfail && k == 0 && not (is_nil v))
          (not b && f.nullfail && k == 0 && not (is_nil v)) _ _ (λ h. ground (arith, le.nullfail)))
        (λ _. Sub-clean_up b i (k - 1) s)

  pub Sub-pop_dummy : (s : Stack) → Sub (pop_dummy g s) (pop_dummy f s)
  unfolding pop_dummy
  Sub-pop_dummy [] = Sub-refl _
  Sub-pop_dummy (v ∷ s) =
      Sub-bind _ _ _ _
        (Sub-check (g.nulldummy && not (is_nil v)) (f.nulldummy && not (is_nil v)) _ _
          (λ h. ground (arith, le.nulldummy)))
        (λ _. Sub-refl _)
