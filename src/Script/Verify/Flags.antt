-- ===== src/Script/Verify/Flags.antt =====
-- Witness programs under fewer flags.
pub mod SoftFork
use qubitcoin.Common.{
  ℕ, ◌≡◌, refl, Bool, true, false, not, ◌&&◌, ◌||◌, Option, none, some, List, [], ◌∷◌, ◌==◌, ltb,
  ◌/◌, ◌*◌, if◌then◌else◌, length, reverse, ok, err, ◌>>=◌, arith, inl, inr, Bool-cases, subst, sym,
}
use qubitcoin.Common.Bytes.{Bytes, bytes_eq}
use qubitcoin.Script.Bytecode.{at, push_data, is_push_only, is_witness_program, is_p2sh}
use qubitcoin.Script.Types.{
  ScriptError, Eval, throw, check, SigVersion, is_tapscript, ScriptVerifyFlags, ScriptExecutionData,
}
use qubitcoin.Script.Interp.Machine.{Stack, Env}
use qubitcoin.Script.Interp.Encoding.{is_nil}
use qubitcoin.Script.Interp.Step.{max_stack_size}
use qubitcoin.Script.Interp.Flags.{
  Fewer, Sub, Sub-refl, Sub-throw, Sub-check, Sub-bind, Sub-if, Sub-if_flag, Sub-after, sub_rules,
}
use qubitcoin.Script.Interp.Flags.Checks.{with_flags}
use qubitcoin.Script.Interp.Flags.Loop.{Sub-eval_script}
use qubitcoin.Script.Verify.{
  top_is_true, pop_to_one, witness_step, finish, run_base, verify_redeem, verify_p2sh,
  verify_script,
}
use qubitcoin.Script.Verify.Taproot.{
  taproot_leaf_tapscript, Scan, scan_op_success, compute_tapleaf_hash, verify_taproot_commitment,
}
use qubitcoin.Script.Verify.Witness.{
  Context, env_of, default_exec_data, oversized, one_true, execute_witness_script, verify_p2wsh,
  verify_p2wpkh, split_annex, run_tapscript, verify_script_path, bad_control_size, spend_taproot,
  verify_taproot, verify_witness_program,
}

abbrev pub under : Context → ScriptVerifyFlags → Context
under ctx flags = record ctx { flags = flags }

-- A check that returns no value.
pub Sub-any : (x : Eval (Unit {0})) → Sub x (ok tt)
Sub-any x = record { at = λ a h. refl }

-- A check that a flag turns on.
pub Sub-unless :
    (b c : Bool) (x y : Eval (Unit {0}))
    → (c ≡ true → b ≡ true)
    → Sub x y
    → Sub (if not b then ok tt else x) (if not c then ok tt else y)
Sub-unless true true x y i h = h
Sub-unless true false x y i h = Sub-any x
Sub-unless false true x y i h = record { at = λ a e. cc (i refl) }
Sub-unless false false x y i h = Sub-refl _

-- A branch that both take.
pub Sub-if_on :
    {A : Type 0} (b c : Bool) (x x' y : Eval A)
    → b ≡ true
    → c ≡ true
    → Sub x x'
    → Sub (if b then x else y) (if c then x' else y)
Sub-if_on true true x x' y i j h = h
Sub-if_on true false x x' y i j h = cc
Sub-if_on false c x x' y i j h = cc

pub Sub-if_any :
    (b c : Bool) (x x' y : Eval (Unit {0}))
    → (c ≡ true → b ≡ true)
    → Sub x x'
    → Sub (if b then x else y) (if c then x' else ok tt)
Sub-if_any b false x x' y i h = Sub-any _
Sub-if_any true true x x' y i h = h
Sub-if_any false true x x' y i h = cc (i refl)

pub Sub-if_same :
    {A : Type 0} (b c : Bool) (x x' y y' : Eval A)
    → b ≡ c
    → Sub x x'
    → Sub y y'
    → Sub (if b then x else y) (if c then x' else y')
Sub-if_same b c x x' y y' e h k = rw e (Sub-if c x y x' y' h k)

pub Sub-option :
    {A B : Type 0} (o : Option A) (x : Eval B) (h k : A → Eval B)
    → ((a : A) → Sub (h a) (k a))
    → Sub
        (elim o as (λ _. Eval B) [ none ↦ x | some a ↦ h a ])
        (elim o as (λ _. Eval B) [ none ↦ x | some a ↦ k a ])
Sub-option none x h k i = Sub-refl x
Sub-option (some a) x h k i = i a

module _ {f g : ScriptVerifyFlags} (le : Fewer f g) (ctx : Context) where
  abbrev strict : Context
  strict = under ctx g

  abbrev loose : Context
  loose = under ctx f

  Sub-execute_witness_script :
      (v : SigVersion) (script : Bytes) (stack : Stack) (d : ScriptExecutionData)
      → Sub
          (execute_witness_script (env_of strict v script) stack d)
          (execute_witness_script (env_of loose v script) stack d)
  unfolding execute_witness_script
  Sub-execute_witness_script v script stack d =
      Sub-bind _ _ _ _ (Sub-refl (check (oversized stack) ScriptError.push_size)) λ _.
        Sub-bind _ _ _ _
          (Sub-refl
            (check (is_tapscript v && ltb max_stack_size (length stack)) ScriptError.stack_size))
          λ _.
            Sub-bind _ _ _ _ (Sub-eval_script le (env_of ctx v script) stack d)
              (λ r. Sub-refl (one_true r.0))

  Sub-verify_p2wsh :
      (program : Bytes) (stack : Stack)
      → Sub (verify_p2wsh strict program stack) (verify_p2wsh loose program stack)
  unfolding verify_p2wsh
  Sub-verify_p2wsh program [] = Sub-refl _
  Sub-verify_p2wsh program (script ∷ stack) =
      Sub-bind _ _ _ _ (Sub-refl _)
        λ _. Sub-execute_witness_script SigVersion.witness_v0 script stack default_exec_data

  Sub-verify_p2wpkh :
      (program : Bytes) (stack : Stack)
      → Sub (verify_p2wpkh strict program stack) (verify_p2wpkh loose program stack)
  unfolding verify_p2wpkh
  Sub-verify_p2wpkh program stack =
      Sub-bind _ _ _ _ (Sub-refl _)
        λ _. Sub-execute_witness_script SigVersion.witness_v0 _ stack default_exec_data

  Sub-run_tapscript :
      (scan : Scan) (w : List Bytes) (script : Bytes) (stack : Stack) (d : ScriptExecutionData)
      → Sub (run_tapscript strict scan w script stack d) (run_tapscript loose scan w script stack d)
  unfolding run_tapscript
  Sub-run_tapscript Scan.success w script stack d =
      Sub-check g.discourage_op_success f.discourage_op_success _ _ le.discourage_op_success
  Sub-run_tapscript Scan.bad_op w script stack d = Sub-refl _
  Sub-run_tapscript Scan.spent w script stack d = Sub-refl _
  Sub-run_tapscript Scan.no_success w script stack d =
      Sub-execute_witness_script SigVersion.tapscript script stack _

  Sub-verify_script_path :
      (w : List Bytes) (program control script : Bytes) (stack : Stack) (d : ScriptExecutionData)
      → Sub
          (verify_script_path strict w program control script stack d)
          (verify_script_path loose w program control script stack d)
  unfolding verify_script_path
  Sub-verify_script_path w program control script stack d =
      let leaf_version = at control 0 / 2 * 2 in
      let tapleaf_hash = compute_tapleaf_hash ctx.crypto leaf_version script in
      Sub-bind _ _ _ _
        (Sub-refl (check (bad_control_size control) ScriptError.taproot_wrong_control_size))
        λ _.
          Sub-bind _ _ _ _
            (Sub-refl (
              check (not (verify_taproot_commitment ctx.crypto control program tapleaf_hash))
                ScriptError.witness_program_mismatch))
            λ _.
              Sub-if (leaf_version == taproot_leaf_tapscript) _ _ _ _
                (Sub-run_tapscript (scan_op_success (length script) script 0) w script stack
                  (record d { tapleaf_hash_init = true; tapleaf_hash = tapleaf_hash }))
                (Sub-check g.discourage_upgradable_taproot_version
                  f.discourage_upgradable_taproot_version
                  ScriptError.discourage_upgradable_taproot_version
                  ScriptError.discourage_upgradable_taproot_version
                  le.discourage_upgradable_taproot_version)

  Sub-spend_taproot :
      (w : List Bytes) (program : Bytes) (stack : Stack) (d : ScriptExecutionData)
      → Sub (spend_taproot strict w program stack d) (spend_taproot loose w program stack d)
  unfolding spend_taproot
  Sub-spend_taproot w program [] d = Sub-refl _
  Sub-spend_taproot w program (sig ∷ []) d = Sub-refl _
  Sub-spend_taproot w program (control ∷ script ∷ stack) d =
      Sub-verify_script_path w program control script stack d

  Sub-verify_taproot :
      (w : List Bytes) (program : Bytes)
      → Sub (verify_taproot strict w program) (verify_taproot loose w program)
  unfolding verify_taproot
  Sub-verify_taproot w program =
      Sub-unless g.taproot f.taproot _ _ le.taproot (Sub-spend_taproot w program _ _)

  pub Sub-verify_witness_program :
      (w : List Bytes) (version : ℕ) (program : Bytes) (p2sh : Bool)
      → Sub
          (verify_witness_program strict w version program p2sh)
          (verify_witness_program loose w version program p2sh)
  unfolding verify_witness_program
  Sub-verify_witness_program w version program p2sh =
      Sub-if (version == 0) _ _ _ _
        (Sub-if (length program == 32) _ _ _ _ (Sub-verify_p2wsh program (reverse w)) (
          Sub-if (length program == 20) _ _ _ _ (Sub-verify_p2wpkh program (reverse w))
            (Sub-refl _)))
        (Sub-if (version == 1 && length program == 32 && not p2sh) _ _ _ _
          (Sub-verify_taproot w program)
          (Sub-check g.discourage_upgradable_witness_program f.discourage_upgradable_witness_program
            _ _ le.discourage_upgradable_witness_program))

  pub Sub-run_base :
      (script : Bytes) (stack : Stack)
      → Sub (run_base strict script stack) (run_base loose script stack)
  unfolding run_base
  Sub-run_base script stack =
      Sub-bind _ _ _ _
        (Sub-eval_script le (env_of ctx SigVersion.base script) stack default_exec_data)
        λ r. Sub-refl _
