-- ===== src/Script/Interp/Flags/Opcodes.antt =====
-- Every opcode and the loop of `eval_script` under fewer flags.
use qubitcoin.Common.{
  ℕ, Bool, true, false, not, ◌&&◌, ◌||◌, Option, none, some, List, [], ◌∷◌, leb, ◌==◌, take, ok,
  ◌>>=◌, arith,
}
use qubitcoin.Common.Bytes.{Bytes}
use qubitcoin.Script.Num.{default_max_num_size}
use qubitcoin.Script.Opcode.{Opcode, from_u8}
use qubitcoin.Script.Bytecode.{max_pubkeys_per_multisig}
use qubitcoin.Script.Types.{
  ScriptError, check, SigVersion, is_base, is_witness_v0, ScriptVerifyFlags,
}
use qubitcoin.Script.Interp.Machine.{Stack, Env, Machine}
use qubitcoin.Script.Interp.Values.{stack_to_script_num, check_minimal_push}
use qubitcoin.Script.Interp.StackOps.{pick_or_roll}
use qubitcoin.Script.Interp.Numeric.{unary_op, binary_op, within}
use qubitcoin.Script.Interp.Flow.{
  check_lock_time_verify, check_sequence_verify, not_minimal_if, enter_if,
}
use qubitcoin.Script.Interp.CheckSig.{check_sig, check_sig_add}
use qubitcoin.Script.Interp.MultiSig.{multi_sig_signatures, multi_sig_keys, check_multi_sig}
use qubitcoin.Script.Interp.Step.{exec_opcode, exec_byte, count_op, dispatch, exec_op, step}
use qubitcoin.Script.Interp.Flags.{
  Fewer, Sub, Sub-refl, Sub-throw, Sub-check, Sub-after, Sub-bind, Sub-if, Sub-if_flag, sub_rules,
  Sub-stack_to_script_num,
}
use qubitcoin.Script.Interp.Flags.Checks.{
  with_flags, Sub-eval_checksig, Sub-checksig_tapscript, Sub-read_count, Sub-drop_signatures,
  Sub-match_signatures, Sub-clean_up, Sub-pop_dummy,
}

module _ {f g : ScriptVerifyFlags} (le : Fewer f g) where
  Sub-num :
      (v : Bytes) (k : ℕ)
      → Sub (stack_to_script_num v g.minimaldata k) (stack_to_script_num v f.minimaldata k)
  Sub-num v k = Sub-stack_to_script_num v g.minimaldata f.minimaldata k le.minimaldata

  Sub-pick_or_roll :
      (roll : Bool) (s : Stack)
      → Sub (pick_or_roll roll g.minimaldata s) (pick_or_roll roll f.minimaldata s)
  unfolding pick_or_roll
  Sub-pick_or_roll roll [] = Sub-refl _
  Sub-pick_or_roll roll (n ∷ []) = Sub-refl _
  Sub-pick_or_roll roll (n ∷ a ∷ s) = search (sub_rules, Sub-num)

  Sub-unary_op :
      (op : Opcode) (s : Stack) → Sub (unary_op op g.minimaldata s) (unary_op op f.minimaldata s)
  unfolding unary_op
  Sub-unary_op op [] = Sub-refl _
  Sub-unary_op op (a ∷ s) = search (sub_rules, Sub-num)

  Sub-binary_op :
      (op : Opcode) (s : Stack) → Sub (binary_op op g.minimaldata s) (binary_op op f.minimaldata s)
  unfolding binary_op
  Sub-binary_op op (a ∷ b ∷ s) = search (sub_rules, Sub-num)
  Sub-binary_op op _ = Sub-refl _

  Sub-within : (s : Stack) → Sub (within g.minimaldata s) (within f.minimaldata s)
  unfolding within
  Sub-within (a ∷ b ∷ c ∷ s) = search (sub_rules, Sub-num)
  Sub-within _ = Sub-refl _

  module _ (env : Env) where
    abbrev strict : Env
    strict = with_flags env g

    abbrev loose : Env
    loose = with_flags env f

    Sub-check_lock_time_verify :
        (m : Machine) (s : Stack)
        → Sub (check_lock_time_verify strict m s) (check_lock_time_verify loose m s)
    unfolding check_lock_time_verify
    Sub-check_lock_time_verify m [] = Sub-refl _
    Sub-check_lock_time_verify m (a ∷ s) = search (sub_rules, Sub-num)

    Sub-check_sequence_verify :
        (m : Machine) (s : Stack)
        → Sub (check_sequence_verify strict m s) (check_sequence_verify loose m s)
    unfolding check_sequence_verify
    Sub-check_sequence_verify m [] = Sub-refl _
    Sub-check_sequence_verify m (a ∷ s) = search (sub_rules, Sub-num)

    -- The opcodes that were no-ops change nothing where they succeed.
    check_lock_time_verify-nop :
        (m : Machine) (s : Stack) → Sub (check_lock_time_verify strict m s) (ok m)
    unfolding check_lock_time_verify
    check_lock_time_verify-nop m [] = Sub-throw _ _
    check_lock_time_verify-nop m (a ∷ s) = search (Sub-after, Sub-refl)

    check_sequence_verify-nop :
        (m : Machine) (s : Stack) → Sub (check_sequence_verify strict m s) (ok m)
    unfolding check_sequence_verify
    check_sequence_verify-nop m [] = Sub-throw _ _
    check_sequence_verify-nop m (a ∷ s) = search (Sub-after, Sub-refl)

    Sub-nop :
        (m : Machine)
        → Sub
            (check g.discourage_upgradable_nops ScriptError.discourage_upgradable_nops >>= λ _.
              ok m)
            (check f.discourage_upgradable_nops ScriptError.discourage_upgradable_nops >>= λ _.
              ok m)
    Sub-nop m =
        Sub-bind _ _ _ _
          (Sub-check g.discourage_upgradable_nops f.discourage_upgradable_nops _ _
            le.discourage_upgradable_nops)
          (λ _. Sub-refl _)

    Sub-enter_if :
        (negate f_exec : Bool) (m : Machine) (s : Stack)
        → Sub (enter_if negate strict f_exec m s) (enter_if negate loose f_exec m s)
    unfolding enter_if
    Sub-enter_if negate false m s = Sub-refl _
    Sub-enter_if negate true m [] = Sub-refl _
    Sub-enter_if negate true m (v ∷ s) = Sub-bind _ _ _ _ (Sub-refl _) λ _.
        Sub-bind _ _ _ _
          (Sub-check (is_witness_v0 env.sigversion && g.minimalif && not_minimal_if v)
            (is_witness_v0 env.sigversion && f.minimalif && not_minimal_if v) _ _
            (λ h. ground (arith, le.minimalif)))
          (λ _. Sub-refl _)

    Sub-check_sig :
        (v : Bool) (m : Machine) (s : Stack) → Sub (check_sig v strict m s) (check_sig v loose m s)
    unfolding check_sig
    Sub-check_sig v m (key ∷ sig ∷ s) =
        Sub-bind _ _ _ _ (Sub-eval_checksig le env env.sigversion m sig key) λ _. Sub-refl _
    Sub-check_sig v m _ = Sub-refl _

    Sub-check_sig_add :
        (v : SigVersion) (m : Machine) (s : Stack)
        → Sub (check_sig_add v strict m s) (check_sig_add v loose m s)
    unfolding check_sig_add
    Sub-check_sig_add SigVersion.base m s = Sub-refl _
    Sub-check_sig_add SigVersion.witness_v0 m s = Sub-refl _
    Sub-check_sig_add v m (a ∷ b ∷ c ∷ s) =
        Sub-bind _ _ _ _ (Sub-num b default_max_num_size)
          λ n. Sub-bind _ _ _ _ (Sub-checksig_tapscript le env m.exec_data c a) λ _. Sub-refl _
    Sub-check_sig_add v m _ = Sub-refl _

    Sub-multi_sig_signatures :
        (v : Bool) (m : Machine) (whole : Stack) (n : ℕ) (keys : List Bytes) (below : Stack)
        → Sub
            (multi_sig_signatures v strict m whole n keys below)
            (multi_sig_signatures v loose m whole n keys below)
    unfolding multi_sig_signatures
    Sub-multi_sig_signatures v m whole n keys [] = Sub-refl _
    Sub-multi_sig_signatures v m whole n keys (k ∷ below) =
        Sub-bind _ _ _ _ (Sub-read_count le env k n _) λ n_sigs. Sub-bind _ _ _ _ (Sub-refl _) λ _.
          Sub-bind _ _ _ _ (Sub-drop_signatures le env (take n_sigs below) _) λ code.
            Sub-bind _ _ _ _ (Sub-match_signatures le env code (take n_sigs below) keys) λ b.
              Sub-bind _ _ _ _ (Sub-clean_up le b _ _ whole)
                λ cleaned. Sub-bind _ _ _ _ (Sub-pop_dummy le cleaned) λ s. Sub-refl _

    Sub-check_multi_sig :
        (v : Bool) (m : Machine) (s : Stack)
        → Sub (check_multi_sig v strict m s) (check_multi_sig v loose m s)
    unfolding check_multi_sig multi_sig_keys
    Sub-check_multi_sig v m [] = Sub-refl _
    Sub-check_multi_sig v m (a ∷ below) = Sub-bind _ _ _ _ (Sub-refl _) λ _.
        Sub-bind _ _ _ _ (Sub-read_count le env a max_pubkeys_per_multisig _)
          λ n. Sub-bind _ _ _ _ (Sub-refl _) λ _. Sub-multi_sig_signatures v _ (a ∷ below) n _ _

    ruleset opcode_subs = (
      sub_rules, Sub-pick_or_roll, Sub-unary_op, Sub-binary_op, Sub-within, Sub-enter_if,
      Sub-check_sig, Sub-check_sig_add, Sub-check_multi_sig, Sub-nop,
    )

    Sub-exec_opcode :
        (op : Opcode) (f_exec : Bool) (m : Machine)
        → Sub (exec_opcode op strict f_exec m) (exec_opcode op loose f_exec m)
    unfolding exec_opcode
    Sub-exec_opcode Opcode.op_check_lock_time_verify f_exec m =
        Sub-if_flag g.checklocktimeverify f.checklocktimeverify _ _ _ le.checklocktimeverify
          (Sub-check_lock_time_verify m m.stack) (check_lock_time_verify-nop m m.stack)
    Sub-exec_opcode Opcode.op_check_sequence_verify f_exec m =
        Sub-if_flag g.checksequenceverify f.checksequenceverify _ _ _ le.checksequenceverify
          (Sub-check_sequence_verify m m.stack) (check_sequence_verify-nop m m.stack)
    Sub-exec_opcode _ f_exec m = search opcode_subs

    Sub-exec_byte :
        (o : Option Opcode) (f_exec : Bool) (m : Machine)
        → Sub (exec_byte o strict f_exec m) (exec_byte o loose f_exec m)
    unfolding exec_byte
    Sub-exec_byte none f_exec m = Sub-refl _
    Sub-exec_byte (some op) f_exec m = Sub-exec_opcode op f_exec m

    Sub-dispatch :
        (f_exec : Bool) (opcode : ℕ) (push : Bytes) (m : Machine)
        → Sub (dispatch strict f_exec opcode push m) (dispatch loose f_exec opcode push m)
    unfolding dispatch
    Sub-dispatch f_exec opcode push m =
        Sub-if (f_exec && leb opcode 0x4e) _ _ _ _
          (Sub-bind _ _ _ _
            (Sub-check (g.minimaldata && not (check_minimal_push push opcode))
              (f.minimaldata && not (check_minimal_push push opcode)) _ _
              (λ h. ground (arith, le.minimaldata)))
            (λ _. Sub-refl _))
          (Sub-if (f_exec || (leb 0x63 opcode && leb opcode 0x68)) _ _ _ _
            (Sub-exec_byte (from_u8 opcode) f_exec m) (Sub-refl _))

    Sub-check_separator :
        (opcode : ℕ)
        → Sub
            (check
              (opcode == 0xab && is_base env.sigversion && g.const_scriptcode)
              ScriptError.op_code_separator)
            (check
              (opcode == 0xab && is_base env.sigversion && f.const_scriptcode)
              ScriptError.op_code_separator)
    Sub-check_separator opcode =
        Sub-check (opcode == 0xab && is_base env.sigversion && g.const_scriptcode)
          (opcode == 0xab && is_base env.sigversion && f.const_scriptcode) _ _
          (λ h. ground (arith, le.const_scriptcode))

    Sub-exec_op :
        (opcode : ℕ) (push : Bytes) (m : Machine)
        → Sub (exec_op strict opcode push m) (exec_op loose opcode push m)
    unfolding exec_op count_op
    Sub-exec_op opcode push m = search (sub_rules, Sub-dispatch, Sub-check_separator) depth 12

    pub Sub-step :
        (m : Machine) (o : Option (ℕ × Bytes × ℕ)) → Sub (step strict m o) (step loose m o)
    unfolding step
    Sub-step m none = Sub-refl _
    Sub-step m (some (opcode, push, j)) = Sub-exec_op opcode push (record m { pc = j })
