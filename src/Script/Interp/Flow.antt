-- ===== src/Script/Interp/Flow.antt =====
-- The opcodes that read the checker's locks, branch, or move values to and from the other stack.
use qubitcoin.Common.{
  ℕ, ◌/◌, ◌%◌, ◌^◌, Bool, true, false, not, ◌&&◌, [], ◌∷◌, ◌==◌, if◌then◌else◌, ok, ◌>>=◌, ◌>>◌,
}
use qubitcoin.Common.Int.{pos, abs, ltb_ℤ}
use qubitcoin.Common.Bytes.{Bytes}
use qubitcoin.Script.Cond
use qubitcoin.Script.Types.{ScriptError, Eval, throw, check, is_witness_v0, is_tapscript}
use qubitcoin.Script.Interp.Machine.{Stack, Env, Machine}
use qubitcoin.Script.Interp.Values.{cast_to_bool, stack_to_script_num}
use qubitcoin.Script.Interp.StackOps.{too_short}

unfoldable pub check_lock_time_verify : Env → Machine → Stack → Eval Machine
check_lock_time_verify env m [] = too_short
check_lock_time_verify env m (a ∷ s) = do
  lock_time ← stack_to_script_num a env.flags.minimaldata 5
  check (ltb_ℤ lock_time (pos 0)) ScriptError.negative_locktime
  check (not (env.checker.check_lock_time lock_time)) ScriptError.unsatisfied_locktime
  ok m

-- `sequence as u32 & SEQUENCE_LOCKTIME_DISABLE_FLAG != 0`, for a sequence that is not negative.
abbrev disable_flag_set : ℕ → Bool
disable_flag_set n = n / 2 ^ 31 % 2 == 1

unfoldable pub check_sequence_verify : Env → Machine → Stack → Eval Machine
check_sequence_verify env m [] = too_short
check_sequence_verify env m (a ∷ s) = do
  sequence ← stack_to_script_num a env.flags.minimaldata 5
  check (ltb_ℤ sequence (pos 0)) ScriptError.negative_locktime
  check (not (disable_flag_set (abs sequence)) && not (env.checker.check_sequence sequence))
      ScriptError.unsatisfied_locktime
  ok m

-- `vch.len() > 1 || (vch.len() == 1 && vch[0] != 1)`
abbrev pub not_minimal_if : Bytes → Bool
not_minimal_if [] = false
not_minimal_if (b ∷ []) = not (b == 1)
not_minimal_if (b ∷ c ∷ bs) = true

-- OP_IF and OP_NOTIF; where nothing executes the branch is entered as false.
unfoldable pub enter_if : Bool → Env → Bool → Machine → Stack → Eval Machine
enter_if negate env false m s = ok (record m { vf_exec = Cond.push_back false m.vf_exec })
enter_if negate env true m [] = too_short
enter_if negate env true m (vch ∷ s) = do
  check (is_tapscript env.sigversion && not_minimal_if vch) ScriptError.tapscript_minimal_if
  check (is_witness_v0 env.sigversion && env.flags.minimalif && not_minimal_if vch)
      ScriptError.minimal_if
  let f_value = if negate then not (cast_to_bool vch) else cast_to_bool vch
  ok (record m { stack = s; vf_exec = Cond.push_back f_value m.vf_exec })

unfoldable pub to_alt_stack : Machine → Stack → Eval Machine
to_alt_stack m [] = too_short
to_alt_stack m (a ∷ s) = ok (record m { stack = s; altstack = a ∷ m.altstack })

unfoldable pub from_alt_stack : Machine → Stack → Eval Machine
from_alt_stack m [] = throw ScriptError.invalid_altstack_operation
from_alt_stack m (a ∷ alt) = ok (record m { stack = a ∷ m.stack; altstack = alt })
