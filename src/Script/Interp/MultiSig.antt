-- ===== src/Script/Interp/MultiSig.antt =====
-- OP_CHECKMULTISIG and OP_CHECKMULTISIGVERIFY. Below the key count `n` lie `n` keys, the signature
-- count `k`, `k` signatures and one more value.
use qubitcoin.Common.{
  ℕ, zero, suc, ◌+◌, ◌-◌, Bool, true, false, not, ◌&&◌, ◌||◌, List, [], ◌∷◌, ltb, leb, ◌==◌,
  if◌then◌else◌, length, take, drop, ok, ◌>>=◌, ◌>>◌,
}
use qubitcoin.Common.Int.{pos, abs, ltb_ℤ}
use qubitcoin.Common.Bytes.{Bytes}
use qubitcoin.Script.Num.{default_max_num_size, getint}
use qubitcoin.Script.Bytecode.{max_pubkeys_per_multisig}
use qubitcoin.Script.Types.{ScriptError, Eval, check, is_tapscript, ScriptVerifyFlags}
use qubitcoin.Script.Interp.Machine.{Stack, Env, Machine}
use qubitcoin.Script.Interp.Values.{from_bool, stack_to_script_num}
use qubitcoin.Script.Interp.StackOps.{too_short}
use qubitcoin.Script.Interp.Encoding.{is_nil, check_signature_encoding, check_pubkey_encoding}
use qubitcoin.Script.Interp.CheckSig.{drop_signature}

abbrev pub max_ops_per_script : ℕ
max_ops_per_script = 201

-- A count from the stack that must lie in [0, limit].
unfoldable pub read_count : Bool → Bytes → ℕ → ScriptError → Eval ℕ
read_count require_minimal val limit error = do
  sn ← stack_to_script_num val require_minimal default_max_num_size
  let n = getint sn
  check (ltb_ℤ n (pos 0) || ltb limit (abs n)) error
  ok (abs n)

-- The signatures are dropped one after the other, the topmost first.
unfoldable pub drop_signatures : Env → List Bytes → Bytes → Eval Bytes
drop_signatures env [] script_code = ok script_code
drop_signatures env (sig ∷ sigs) script_code = do
  script_code' ← drop_signature env sig script_code
  drop_signatures env sigs script_code'

-- The matching loop: keys are tried in order, a key that fits uses up a signature, and the loop
-- stops when more signatures than keys are left. There are never fewer keys than signatures.
unfoldable pub match_signatures : Env → Bytes → List Bytes → List Bytes → Eval Bool
match_signatures env script_code [] keys = ok true
match_signatures env script_code (sig ∷ sigs) [] = ok false
match_signatures env script_code (sig ∷ sigs) (key ∷ keys) =
    let f_ok = env.checker.check_ecdsa_signature sig key script_code env.sigversion in
    let left : List Bytes = if f_ok then sigs else sig ∷ sigs in
    let rest = match_signatures env script_code left keys in
    do
      check_signature_encoding env.crypto env.flags sig
      check_pubkey_encoding env.flags env.sigversion key
      if ltb (length keys) (length left) then ok false else rest

-- The clean-up of `i` values; with NULLFAIL a failed check wants those after the first `ikey2` empty.
unfoldable pub clean_up : ScriptVerifyFlags → Bool → ℕ → ℕ → Stack → Eval Stack
clean_up flags f_success zero ikey2 s = ok s
clean_up flags f_success (suc i) ikey2 [] = ok []
clean_up flags f_success (suc i) ikey2 (v ∷ s) = do
  check (not f_success && flags.nullfail && ikey2 == 0 && not (is_nil v)) ScriptError.sig_null_fail
  clean_up flags f_success i (ikey2 - 1) s

-- The value below the signatures, which the opcode takes as well.
unfoldable pub pop_dummy : ScriptVerifyFlags → Stack → Eval Stack
pop_dummy flags [] = too_short
pop_dummy flags (dummy ∷ s) = do
  check (flags.nulldummy && not (is_nil dummy)) ScriptError.sig_null_dummy
  ok s

-- From the signature count on: `whole` is the stack from the key count down. The value below the
-- signatures is counted in.
unfoldable pub multi_sig_signatures :
    Bool → Env → Machine → Stack → ℕ → List Bytes → Stack → Eval Machine
multi_sig_signatures verify env m whole n_keys keys [] = too_short
multi_sig_signatures verify env m whole n_keys keys (n_sigs_val ∷ below) = do
  n_sigs ← read_count env.flags.minimaldata n_sigs_val n_keys ScriptError.sig_count
  check (leb (length below) n_sigs) ScriptError.invalid_stack_operation
  let sigs = take n_sigs below
  script_code ← drop_signatures env sigs (drop m.pbegincodehash env.script)
  f_success ← match_signatures env script_code sigs keys
  cleaned ← clean_up env.flags f_success (2 + n_keys + n_sigs) (n_keys + 2) whole
  s ← pop_dummy env.flags cleaned
  check (verify && not f_success) ScriptError.check_multi_sig_verify
  ok (record m { stack = if verify then s else from_bool f_success ∷ s })

-- From the key count on.
unfoldable pub multi_sig_keys : Bool → Env → Machine → Stack → Eval Machine
multi_sig_keys verify env m [] = too_short
multi_sig_keys verify env m (n_keys_val ∷ below) = do
  n_keys ←
      read_count env.flags.minimaldata n_keys_val max_pubkeys_per_multisig ScriptError.pubkey_count
  let op_count = m.op_count + n_keys
  check (ltb max_ops_per_script op_count) ScriptError.op_count
  multi_sig_signatures verify env (record m { op_count = op_count }) (n_keys_val ∷ below) n_keys
      (take n_keys below) (drop n_keys below)

unfoldable pub check_multi_sig : Bool → Env → Machine → Stack → Eval Machine
check_multi_sig verify env m s = do
  check (is_tapscript env.sigversion) ScriptError.tapscript_check_multi_sig
  multi_sig_keys verify env m s
