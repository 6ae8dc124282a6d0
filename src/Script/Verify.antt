-- ===== src/Script/Verify.antt =====
-- `verify_script` and `verify_witness_program` of crates/qubitcoin-script/src/interpreter.rs. A
-- witness is the list of its items in order, so the stack made of it is the list reversed.
pub mod Taproot
pub mod Witness
pub mod Flags
pub mod Total
pub mod Rules
pub mod PubkeyHash
use qubitcoin.Common.{
  ℕ, Bool, true, false, not, ◌&&◌, ◌||◌, Option, none, some, List, [], ◌∷◌, ◌==◌, if◌then◌else◌,
  length, ok, ◌>>=◌, ◌>>◌,
}
use qubitcoin.Common.Bytes.{Bytes, bytes_eq}
use qubitcoin.Script.Bytecode.{push_data, is_push_only, is_witness_program, is_p2sh}
use qubitcoin.Script.Types.{
  ScriptError, Eval, throw, check, SigVersion, ScriptVerifyFlags, SignatureChecker, Crypto,
}
use qubitcoin.Script.Interp.Machine.{Stack, Env}
use qubitcoin.Script.Interp.Values.{cast_to_bool}
use qubitcoin.Script.Interp.Encoding.{is_nil}
use qubitcoin.Script.Interp.Step.{eval_script}
use Witness.{Context, env_of, default_exec_data, verify_witness_program}

-- `stack.empty()` or a false value on top: the script evaluated to false.
unfoldable pub top_is_true : Stack → Eval (Unit {0})
top_is_true [] = throw ScriptError.eval_false
top_is_true (a ∷ s) = check (not (cast_to_bool a)) ScriptError.eval_false

-- `while stack.size() > 1 { stack.pop() }`
unfoldable pub pop_to_one : Stack → Stack
pop_to_one [] = []
pop_to_one (a ∷ []) = a ∷ []
pop_to_one (a ∷ b ∷ s) = pop_to_one (b ∷ s)

-- The witness program in a script, if there is one: whether a witness was used, and the stack after
-- it. `malleated` says that the scriptSig is not what it must be beside a witness program.
unfoldable pub witness_step :
    Context → Bytes → Bool → ScriptError → Bool → List Bytes → Stack → Eval (Bool × Stack)
witness_step ctx script malleated error p2sh witness stack =
    if ctx.flags.witness
    then elim (is_witness_program script) [
      | none ↦ ok (false, stack)
      | some (wit_version, wit_program) ↦ do
        check malleated error
        verify_witness_program ctx witness wit_version wit_program p2sh
        ok (true, pop_to_one stack)
    ]
    else ok (false, stack)

-- The checks at the end of both paths.
unfoldable pub finish : Context → Bool → List Bytes → Stack → Eval (Unit {0})
finish ctx had_witness witness stack = do
  check (ctx.flags.cleanstack && not (length stack == 1)) ScriptError.clean_stack
  check (ctx.flags.witness && not had_witness && not (length witness == 0))
      ScriptError.witness_unexpected

unfoldable pub run_base : Context → Bytes → Stack → Eval Stack
run_base ctx script stack = do
  r ← eval_script (env_of ctx SigVersion.base script) stack default_exec_data
  ok r.0

-- The redeem script, on top of the stack from before the scriptPubKey, and what lies below it.
unfoldable pub verify_redeem : Context → Bytes → List Bytes → Bool → Stack → Eval (Unit {0})
verify_redeem ctx script_sig witness had_witness [] = throw ScriptError.eval_false
verify_redeem ctx script_sig witness had_witness (serialized ∷ below) = do
  stack ← run_base ctx serialized below
  top_is_true stack
  (had_program, stack') ←
      witness_step ctx serialized (not (bytes_eq script_sig (push_data serialized)))
        ScriptError.witness_malleated_p2sh true witness stack
  finish ctx (had_witness || had_program) witness stack'

unfoldable pub verify_p2sh : Context → Bytes → List Bytes → Bool → Stack → Eval (Unit {0})
verify_p2sh ctx script_sig witness had_witness stack_copy = do
  check (not (is_push_only script_sig)) ScriptError.sig_push_only
  verify_redeem ctx script_sig witness had_witness stack_copy

unfoldable pub verify_script : Context → Bytes → Bytes → List Bytes → Eval (Unit {0})
verify_script ctx script_sig script_pubkey witness = do
  check (ctx.flags.sigpushonly && not (is_push_only script_sig)) ScriptError.sig_push_only
  stack_copy ← run_base ctx script_sig []
  stack ← run_base ctx script_pubkey stack_copy
  top_is_true stack
  (had_witness, stack') ←
      witness_step ctx script_pubkey (not (is_nil script_sig)) ScriptError.witness_malleated false
        witness stack
  if ctx.flags.p2sh && is_p2sh script_pubkey
      then verify_p2sh ctx script_sig witness had_witness stack_copy
      else finish ctx had_witness witness stack'
