-- ===== src/Script/Interp/Laws/Keeps.antt =====
-- What every opcode keeps, whichever it is: the program counter, the opcode position, and the bound
-- on the op count. No opcode runs out of fuel.
use qubitcoin.Common.{
  ℕ, ◌+◌, ◌≤◌, ◌≡◌, refl, Bool, true, false, Option, none, some, List, [], ◌∷◌, ltb, if◌then◌else◌,
  ok, ◌>>=◌, ◌∙◌, arith,
}
use qubitcoin.Common.Bytes.{Bytes}
use qubitcoin.Script.Opcode.{Opcode, op0}
use qubitcoin.Script.Types.{ScriptError, Eval, throw, check, SigVersion}
use qubitcoin.Script.Interp.Machine.{Stack, Env, Machine}
use qubitcoin.Script.Interp.Flow.{
  check_lock_time_verify, check_sequence_verify, enter_if, to_alt_stack, from_alt_stack,
}
use qubitcoin.Script.Interp.CheckSig.{check_sig, check_sig_add}
use qubitcoin.Script.Interp.MultiSig.{
  max_ops_per_script, multi_sig_signatures, multi_sig_keys, check_multi_sig,
}
use qubitcoin.Script.Interp.Step.{exec_opcode, exec_byte, dispatch}
use qubitcoin.Script.Interp.Laws.Ends.{Ends, ends_rules, stack_ends, Ends-stack_to_script_num}
use qubitcoin.Script.Interp.Laws.Checks.{
  Ends-eval_checksig, Ends-checksig_tapscript, Ends-read_count, Ends-drop_signatures,
  Ends-match_signatures, Ends-clean_up, Ends-pop_dummy,
}

pub record Keeps (m m' : Machine) : Type 0 where
  pub pc : m'.pc ≡ m.pc
  pub opcode_pos : m'.opcode_pos ≡ m.opcode_pos
  pub op_count_grows : m.op_count ≤ m'.op_count
  pub op_count : m.op_count ≤ max_ops_per_script → m'.op_count ≤ max_ops_per_script

pub data Good (m : Machine) : Eval Machine → Type 0 where
  good : (m' : Machine) → Keeps m m' → Good m (ok m')
  failed : (e : ScriptError) → Good m (throw e)

-- A new machine with the three fields as they were.
pub Good-same :
    (m m' : Machine)
    → m'.pc ≡ m.pc
    → m'.opcode_pos ≡ m.opcode_pos
    → m'.op_count ≡ m.op_count
    → Good m (ok m')
Good-same m m' p q r =
    good m'
      (record { pc = p; opcode_pos = q; op_count_grows = omega arith; op_count = λ h. rw r h })

pub Good-if :
    (m : Machine) (b : Bool) (x y : Eval Machine)
    → Good m x
    → Good m y
    → Good m (if b then x else y)
Good-if m true x y h k = h
Good-if m false x y h k = k

pub Good-bind :
    {A : Type 0} (m : Machine) (r : Eval A) (f : A → Eval Machine)
    → Ends r
    → ((a : A) → Good m (f a))
    → Good m (r >>= f)
Good-bind m r f (Ends.returns a) k = k a
Good-bind m r f (Ends.fails e) k = failed e

pub ruleset good_rules = (Good-same, failed, Good-if, Good-bind, ends_rules)

Good-check_lock_time_verify :
    (env : Env) (m : Machine) (s : Stack) → Good m (check_lock_time_verify env m s)
unfolding check_lock_time_verify
Good-check_lock_time_verify env m [] = search good_rules
Good-check_lock_time_verify env m (a ∷ s) = search (good_rules, Ends-stack_to_script_num)

Good-check_sequence_verify :
    (env : Env) (m : Machine) (s : Stack) → Good m (check_sequence_verify env m s)
unfolding check_sequence_verify
Good-check_sequence_verify env m [] = search good_rules
Good-check_sequence_verify env m (a ∷ s) = search (good_rules, Ends-stack_to_script_num)

Good-enter_if :
    (negate : Bool) (env : Env) (f_exec : Bool) (m : Machine) (s : Stack)
    → Good m (enter_if negate env f_exec m s)
unfolding enter_if
Good-enter_if negate env false m s = search good_rules
Good-enter_if negate env true m [] = search good_rules
Good-enter_if negate env true m (a ∷ s) = search good_rules

Good-to_alt_stack : (m : Machine) (s : Stack) → Good m (to_alt_stack m s)
unfolding to_alt_stack
Good-to_alt_stack m [] = search good_rules
Good-to_alt_stack m (a ∷ s) = search good_rules

Good-from_alt_stack : (m : Machine) (s : Stack) → Good m (from_alt_stack m s)
unfolding from_alt_stack
Good-from_alt_stack m [] = search good_rules
Good-from_alt_stack m (a ∷ s) = search good_rules

Good-check_sig : (v : Bool) (env : Env) (m : Machine) (s : Stack) → Good m (check_sig v env m s)
unfolding check_sig
Good-check_sig v env m (a ∷ b ∷ s) = search (good_rules, Ends-eval_checksig)
Good-check_sig v env m _ = search good_rules

Good-check_sig_add :
    (v : SigVersion) (env : Env) (m : Machine) (s : Stack) → Good m (check_sig_add v env m s)
unfolding check_sig_add
Good-check_sig_add SigVersion.base env m s = search good_rules
Good-check_sig_add SigVersion.witness_v0 env m s = search good_rules
Good-check_sig_add v env m (a ∷ b ∷ c ∷ s) =
    search (good_rules, Ends-stack_to_script_num, Ends-checksig_tapscript)
Good-check_sig_add v env m _ = search good_rules

Good-trans : {m m' : Machine} (r : Eval Machine) → Keeps m m' → Good m' r → Good m r
Good-trans r k (good m2 k2) = good m2 (record {
  pc = k2.pc ∙ k.pc;
  opcode_pos = k2.opcode_pos ∙ k.opcode_pos;
  op_count_grows = omega arith;
  op_count = λ h. k2.op_count (k.op_count h);
})
Good-trans r k (failed e) = failed e

-- What follows a check may use that it passed.
pub Good-check :
    (m : Machine) (b : Bool) (e : ScriptError) (r : Eval Machine)
    → (b ≡ false → Good m r)
    → Good m (check b e >>= λ _. r)
Good-check m true e r k = failed e
Good-check m false e r k = k refl

Good-multi_sig_signatures :
    (v : Bool) (env : Env) (m : Machine) (whole : Stack) (n : ℕ) (keys : List Bytes) (below : Stack)
    → Good m (multi_sig_signatures v env m whole n keys below)
unfolding multi_sig_signatures
Good-multi_sig_signatures v env m whole n keys [] = search good_rules
Good-multi_sig_signatures v env m whole n keys (k ∷ below) =
    search
      (
        good_rules, Ends-read_count, Ends-drop_signatures, Ends-match_signatures, Ends-clean_up,
        Ends-pop_dummy,
      )
      depth 12

Good-multi_sig_keys :
    (v : Bool) (env : Env) (m : Machine) (s : Stack) → Good m (multi_sig_keys v env m s)
unfolding multi_sig_keys
Good-multi_sig_keys v env m [] = search good_rules
Good-multi_sig_keys v env m (a ∷ below) = Good-bind m _ _ (Ends-read_count _ _ _ _) λ n.
    Good-check m (ltb max_ops_per_script (m.op_count + n)) _ _ λ fits.
      Good-trans _
        (record {
          pc = refl;
          opcode_pos = refl;
          op_count_grows = omega arith;
          op_count = λ _. ground arith;
        })
        (Good-multi_sig_signatures v env (record m { op_count = m.op_count + n }) (a ∷ below) n _ _)

Good-check_multi_sig :
    (v : Bool) (env : Env) (m : Machine) (s : Stack) → Good m (check_multi_sig v env m s)
unfolding check_multi_sig
Good-check_multi_sig v env m s = search (good_rules, Good-multi_sig_keys)

ruleset opcode_rules = (
  good_rules, stack_ends, Good-check_lock_time_verify, Good-check_sequence_verify, Good-enter_if,
  Good-to_alt_stack, Good-from_alt_stack, Good-check_sig, Good-check_sig_add, Good-check_multi_sig,
)

-- Every opcode: it ends, and keeps the program counter, the opcode position and the op count's bound.
pub exec_opcode-Good :
    (op : Opcode) (env : Env) (f_exec : Bool) (m : Machine) → Good m (exec_opcode op env f_exec m)
unfolding exec_opcode
exec_opcode-Good op0 env f_exec m = search opcode_rules
exec_opcode-Good _ env f_exec m = search opcode_rules

exec_byte-Good :
    (o : Option Opcode) (env : Env) (f_exec : Bool) (m : Machine)
    → Good m (exec_byte o env f_exec m)
unfolding exec_byte
exec_byte-Good none env f_exec m = search good_rules
exec_byte-Good (some op) env f_exec m = exec_opcode-Good op env f_exec m

pub dispatch-Good :
    (env : Env) (f_exec : Bool) (opcode : ℕ) (push : Bytes) (m : Machine)
    → Good m (dispatch env f_exec opcode push m)
unfolding dispatch
dispatch-Good env f_exec opcode push m = search (good_rules, exec_byte-Good)
