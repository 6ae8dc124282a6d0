-- ===== src/Script/Types.antt =====
-- The data of the interpreter: errors, flags, signature versions, execution data, and what it is
-- handed from outside (crates/qubitcoin-script/src/{script_error,verify_flags,interpreter}.rs).
use qubitcoin.Common.{ℕ, Bool, true, false, Option, some, Result, ◌>>=◌, ◌≡◌, refl}
use qubitcoin.Common.Int.{ℤ}
use qubitcoin.Common.Bytes.{Bytes}

pub data ScriptError : Type 0 where
  ok unknown_error eval_false op_return script_num script_size push_size op_count stack_size
        sig_count pubkey_count verify equal_verify check_multi_sig_verify check_sig_verify
        num_equal_verify bad_opcode disabled_opcode invalid_stack_operation
        invalid_altstack_operation unbalanced_conditional negative_locktime unsatisfied_locktime
        sig_hashtype sig_der minimal_data sig_push_only sig_high_s sig_null_dummy pub_key_type
        clean_stack minimal_if sig_null_fail discourage_upgradable_nops
        discourage_upgradable_witness_program discourage_upgradable_taproot_version
        discourage_op_success discourage_upgradable_pubkey_type witness_program_wrong_length
        witness_program_witness_empty witness_program_mismatch witness_malleated
        witness_malleated_p2sh witness_unexpected witness_pub_key_type schnorr_sig_size
        schnorr_sig_hashtype schnorr_sig taproot_wrong_control_size tapscript_validation_weight
        tapscript_check_multi_sig tapscript_minimal_if tapscript_empty_pubkey op_code_separator
        sig_find_and_delete error_count :
      ScriptError

-- Why an evaluation stopped: an error of the program, or a loop of the model out of fuel. That
-- the second never happens is proved where the loops are used.
pub data Halt : Type 0 where
  fail : ScriptError → Halt
  out_of_fuel : Halt

abbrev pub Eval : Type 0 → Type 0
Eval = Result Halt

-- `{ *error = e; return false; }`
abbrev pub throw : {A : Type 0} → ScriptError → Eval A
throw e = Result.err (fail e)

-- `if bad { *error = e; return false; }`
abbrev pub check : Bool → ScriptError → Eval (Unit {0})
check true e = throw e
check false e = Result.ok tt

-- A computation that starts with a check and returns has passed the check.
pub check-eq-ok :
    {A : Type 0} (b : Bool) (e : ScriptError) (r : Eval A) {a : A}
    → (check b e >>= λ _. r) ≡ Result.ok a
    → (b ≡ false) × (r ≡ Result.ok a)
check-eq-ok true e r h = cc
check-eq-ok false e r h = (refl, h)

pub data SigVersion : Type 0 where
  base witness_v0 taproot tapscript : SigVersion

-- `sigversion == Base || sigversion == WitnessV0`
abbrev pub is_pre_tapscript : SigVersion → Bool
is_pre_tapscript SigVersion.base = true
is_pre_tapscript SigVersion.witness_v0 = true
is_pre_tapscript _ = false

abbrev pub is_base : SigVersion → Bool
is_base SigVersion.base = true
is_base _ = false

abbrev pub is_witness_v0 : SigVersion → Bool
is_witness_v0 SigVersion.witness_v0 = true
is_witness_v0 _ = false

abbrev pub is_tapscript : SigVersion → Bool
is_tapscript SigVersion.tapscript = true
is_tapscript _ = false

-- A set of flags: the bits of `ScriptVerifyFlags` as fields.
pub record ScriptVerifyFlags : Type 0 where
  pub p2sh : Bool
  pub strictenc : Bool
  pub dersig : Bool
  pub low_s : Bool
  pub nulldummy : Bool
  pub sigpushonly : Bool
  pub minimaldata : Bool
  pub discourage_upgradable_nops : Bool
  pub cleanstack : Bool
  pub checklocktimeverify : Bool
  pub checksequenceverify : Bool
  pub witness : Bool
  pub discourage_upgradable_witness_program : Bool
  pub minimalif : Bool
  pub nullfail : Bool
  pub witness_pubkeytype : Bool
  pub const_scriptcode : Bool
  pub taproot : Bool
  pub discourage_upgradable_taproot_version : Bool
  pub discourage_op_success : Bool
  pub discourage_upgradable_pubkeytype : Bool

pub record ScriptExecutionData : Type 0 where
  pub tapleaf_hash_init : Bool
  pub tapleaf_hash : Bytes
  pub codeseparator_pos_init : Bool
  pub codeseparator_pos : ℕ
  pub validation_weight_left_init : Bool
  pub validation_weight_left : ℤ
  pub annex_init : Bool
  pub annex_present : Bool
  pub annex_hash : Bytes

-- The trait `SignatureChecker`. `check_schnorr_signature` returns the error that it sets, or `none`
-- where it returns true.
pub record SignatureChecker : Type 0 where
  pub check_ecdsa_signature : Bytes → Bytes → Bytes → SigVersion → Bool
  pub check_schnorr_signature :
      Bytes → Bytes → SigVersion → ScriptExecutionData → Option ScriptError
  pub check_lock_time : ℤ → Bool
  pub check_sequence : ℤ → Bool

-- `BaseSignatureChecker`.
abbrev pub base_signature_checker : SignatureChecker
base_signature_checker = record {
  check_ecdsa_signature = λ sig pubkey script_code sigversion. false;
  check_schnorr_signature = λ sig pubkey sigversion exec_data. some ScriptError.schnorr_sig;
  check_lock_time = λ lock_time. false;
  check_sequence = λ sequence. false;
}

-- What the `bitcoin_hashes` and `secp256k1` packages compute. `normalizes_s` stands for parsing a
-- DER signature and normalising its S: `none` for a parse error, else whether S changed.
-- `tweak_add_check key tweak output parity` is false too where a key or the tweak is malformed.
pub record Crypto : Type 0 where
  pub ripemd160_hash : Bytes → Bytes
  pub sha1_hash : Bytes → Bytes
  pub sha256_hash : Bytes → Bytes
  pub hash160 : Bytes → Bytes
  pub hash256 : Bytes → Bytes
  pub normalizes_s : Bytes → Option Bool
  pub tweak_add_check : Bytes → Bytes → Bytes → ℕ → Bool
