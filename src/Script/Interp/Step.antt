-- ===== src/Script/Interp/Step.antt =====
-- One round of the loop of `eval_script`, and the loop.
use qubitcoin.Common.{
  ℕ, zero, suc, ◌+◌, ◌-◌, Bool, true, false, not, ◌&&◌, ◌||◌, Option, none, some, ◌∷◌, ltb, leb,
  ◌==◌, if◌then◌else◌, length, ok, err, ◌>>=◌, ◌>>◌,
}
use qubitcoin.Common.Int.{ℤ, pos, negsuc}
use qubitcoin.Common.Bytes.{Bytes}
use qubitcoin.Script.Num.{encode_i64}
use qubitcoin.Script.Opcode.{
  Opcode, from_u8, is_disabled_opcode, to_u8, op1_negate, op1, op2, op3, op4, op5, op6, op7, op8,
  op9, op10, op11, op12, op13, op14, op15, op16, op_nop, op_if, op_not_if, op_else, op_end_if,
  op_verify, op_return, op_to_alt_stack, op_from_alt_stack, op2_drop, op2_dup, op3_dup, op2_over,
  op2_rot, op2_swap, op_if_dup, op_depth, op_drop, op_dup, op_nip, op_over, op_pick, op_roll,
  op_rot, op_swap, op_tuck, op_size, op_equal, op_equal_verify, op1_add, op1_sub, op_negate, op_abs,
  op_not, op0_not_equal, op_add, op_sub, op_bool_and, op_bool_or, op_num_equal, op_num_equal_verify,
  op_num_not_equal, op_less_than, op_greater_than, op_less_than_or_equal, op_greater_than_or_equal,
  op_min, op_max, op_within, op_ripemd160, op_sha1, op_sha256, op_hash160, op_hash256,
  op_code_separator, op_check_sig, op_check_sig_verify, op_check_multi_sig,
  op_check_multi_sig_verify, op_nop1, op_check_lock_time_verify, op_check_sequence_verify, op_nop4,
  op_nop5, op_nop6, op_nop7, op_nop8, op_nop9, op_nop10, op_check_sig_add,
}
use qubitcoin.Script.Bytecode.{get_op, max_script_size}
use qubitcoin.Script.Cond
use qubitcoin.Script.Types.{
  ScriptError, out_of_fuel, Eval, throw, check, is_base, is_pre_tapscript, ScriptExecutionData,
}
use qubitcoin.Script.Interp.Machine.{Stack, Env, Machine, start}
use qubitcoin.Script.Interp.Values.{check_minimal_push}
use qubitcoin.Script.Interp.StackOps
use qubitcoin.Script.Interp.Flow.{
  check_lock_time_verify, check_sequence_verify, enter_if, to_alt_stack, from_alt_stack,
}
use qubitcoin.Script.Interp.Numeric.{unary_op, binary_op, num_equal_verify, within}
use qubitcoin.Script.Interp.CheckSig.{check_sig, check_sig_add}
use qubitcoin.Script.Interp.MultiSig.{max_ops_per_script, check_multi_sig}

abbrev pub max_script_element_size : ℕ
max_script_element_size = 520

abbrev pub max_stack_size : ℕ
max_stack_size = 1000

-- A change of the stack alone.
abbrev on_stack : Machine → (Stack → Eval Stack) → Eval Machine
on_stack m f = do s ← f m.stack; ok (record m { stack = s })

abbrev push_num : Machine → ℤ → Eval Machine
push_num m n = ok (record m { stack = encode_i64 n ∷ m.stack })

-- OP_1 to OP_16: `op - OP_1 + 1`.
abbrev small_int : Machine → Opcode → Eval Machine
small_int m op = push_num m (pos (to_u8 op - 0x51 + 1))

-- The match on the opcode, for opcodes above OP_PUSHDATA4.
unfoldable pub exec_opcode : Opcode → Env → Bool → Machine → Eval Machine
exec_opcode op1_negate env f_exec m = push_num m (negsuc 0)
exec_opcode op1 env f_exec m = small_int m op1
exec_opcode op2 env f_exec m = small_int m op2
exec_opcode op3 env f_exec m = small_int m op3
exec_opcode op4 env f_exec m = small_int m op4
exec_opcode op5 env f_exec m = small_int m op5
exec_opcode op6 env f_exec m = small_int m op6
exec_opcode op7 env f_exec m = small_int m op7
exec_opcode op8 env f_exec m = small_int m op8
exec_opcode op9 env f_exec m = small_int m op9
exec_opcode op10 env f_exec m = small_int m op10
exec_opcode op11 env f_exec m = small_int m op11
exec_opcode op12 env f_exec m = small_int m op12
exec_opcode op13 env f_exec m = small_int m op13
exec_opcode op14 env f_exec m = small_int m op14
exec_opcode op15 env f_exec m = small_int m op15
exec_opcode op16 env f_exec m = small_int m op16
exec_opcode op_nop env f_exec m = ok m
exec_opcode op_if env f_exec m = enter_if false env f_exec m m.stack
exec_opcode op_not_if env f_exec m = enter_if true env f_exec m m.stack
exec_opcode op_else env f_exec m = do
  check (Cond.is_empty m.vf_exec) ScriptError.unbalanced_conditional
  ok (record m { vf_exec = Cond.toggle_top m.vf_exec })
exec_opcode op_end_if env f_exec m = do
  check (Cond.is_empty m.vf_exec) ScriptError.unbalanced_conditional
  ok (record m { vf_exec = Cond.pop_back m.vf_exec })
exec_opcode op_verify env f_exec m = on_stack m StackOps.verify
exec_opcode op_return env f_exec m = throw ScriptError.op_return
exec_opcode op_to_alt_stack env f_exec m = to_alt_stack m m.stack
exec_opcode op_from_alt_stack env f_exec m = from_alt_stack m m.altstack
exec_opcode op2_drop env f_exec m = on_stack m StackOps.two_drop
exec_opcode op2_dup env f_exec m = on_stack m StackOps.two_dup
exec_opcode op3_dup env f_exec m = on_stack m StackOps.three_dup
exec_opcode op2_over env f_exec m = on_stack m StackOps.two_over
exec_opcode op2_rot env f_exec m = on_stack m StackOps.two_rot
exec_opcode op2_swap env f_exec m = on_stack m StackOps.two_swap
exec_opcode op_if_dup env f_exec m = on_stack m StackOps.if_dup
exec_opcode op_depth env f_exec m = on_stack m StackOps.depth
exec_opcode op_drop env f_exec m = on_stack m StackOps.drop_top
exec_opcode op_dup env f_exec m = on_stack m StackOps.dup
exec_opcode op_nip env f_exec m = on_stack m StackOps.nip
exec_opcode op_over env f_exec m = on_stack m StackOps.over
exec_opcode op_pick env f_exec m = on_stack m (StackOps.pick_or_roll false env.flags.minimaldata)
exec_opcode op_roll env f_exec m = on_stack m (StackOps.pick_or_roll true env.flags.minimaldata)
exec_opcode op_rot env f_exec m = on_stack m StackOps.rot
exec_opcode op_swap env f_exec m = on_stack m StackOps.swap
exec_opcode op_tuck env f_exec m = on_stack m StackOps.tuck
exec_opcode op_size env f_exec m = on_stack m StackOps.size
exec_opcode op_equal env f_exec m = on_stack m StackOps.equal
exec_opcode op_equal_verify env f_exec m = on_stack m StackOps.equal_verify
exec_opcode op1_add env f_exec m = on_stack m (unary_op op1_add env.flags.minimaldata)
exec_opcode op1_sub env f_exec m = on_stack m (unary_op op1_sub env.flags.minimaldata)
exec_opcode op_negate env f_exec m = on_stack m (unary_op op_negate env.flags.minimaldata)
exec_opcode op_abs env f_exec m = on_stack m (unary_op op_abs env.flags.minimaldata)
exec_opcode op_not env f_exec m = on_stack m (unary_op op_not env.flags.minimaldata)
exec_opcode op0_not_equal env f_exec m = on_stack m (unary_op op0_not_equal env.flags.minimaldata)
exec_opcode op_add env f_exec m = on_stack m (binary_op op_add env.flags.minimaldata)
exec_opcode op_sub env f_exec m = on_stack m (binary_op op_sub env.flags.minimaldata)
exec_opcode op_bool_and env f_exec m = on_stack m (binary_op op_bool_and env.flags.minimaldata)
exec_opcode op_bool_or env f_exec m = on_stack m (binary_op op_bool_or env.flags.minimaldata)
exec_opcode op_num_equal env f_exec m = on_stack m (binary_op op_num_equal env.flags.minimaldata)
exec_opcode op_num_equal_verify env f_exec m =
    on_stack m
      (λ s. do t ← binary_op op_num_equal_verify env.flags.minimaldata s; num_equal_verify t)
exec_opcode op_num_not_equal env f_exec m =
    on_stack m (binary_op op_num_not_equal env.flags.minimaldata)
exec_opcode op_less_than env f_exec m = on_stack m (binary_op op_less_than env.flags.minimaldata)
exec_opcode op_greater_than env f_exec m =
    on_stack m (binary_op op_greater_than env.flags.minimaldata)
exec_opcode op_less_than_or_equal env f_exec m =
    on_stack m (binary_op op_less_than_or_equal env.flags.minimaldata)
exec_opcode op_greater_than_or_equal env f_exec m =
    on_stack m (binary_op op_greater_than_or_equal env.flags.minimaldata)
exec_opcode op_min env f_exec m = on_stack m (binary_op op_min env.flags.minimaldata)
exec_opcode op_max env f_exec m = on_stack m (binary_op op_max env.flags.minimaldata)
exec_opcode op_within env f_exec m = on_stack m (within env.flags.minimaldata)
exec_opcode op_ripemd160 env f_exec m = on_stack m (StackOps.hash_top env.crypto.ripemd160_hash)
exec_opcode op_sha1 env f_exec m = on_stack m (StackOps.hash_top env.crypto.sha1_hash)
exec_opcode op_sha256 env f_exec m = on_stack m (StackOps.hash_top env.crypto.sha256_hash)
exec_opcode op_hash160 env f_exec m = on_stack m (StackOps.hash_top env.crypto.hash160)
exec_opcode op_hash256 env f_exec m = on_stack m (StackOps.hash_top env.crypto.hash256)
exec_opcode op_code_separator env f_exec m = ok (record m {
  pbegincodehash = m.pc;
  exec_data = record m.exec_data { codeseparator_pos = m.opcode_pos };
})
exec_opcode op_check_sig env f_exec m = check_sig false env m m.stack
exec_opcode op_check_sig_verify env f_exec m = check_sig true env m m.stack
exec_opcode op_check_multi_sig env f_exec m = check_multi_sig false env m m.stack
exec_opcode op_check_multi_sig_verify env f_exec m = check_multi_sig true env m m.stack
exec_opcode op_nop1 env f_exec m = do
  check env.flags.discourage_upgradable_nops ScriptError.discourage_upgradable_nops
  ok m
exec_opcode op_check_lock_time_verify env f_exec m =
    if env.flags.checklocktimeverify then check_lock_time_verify env m m.stack else ok m
exec_opcode op_check_sequence_verify env f_exec m =
    if env.flags.checksequenceverify then check_sequence_verify env m m.stack else ok m
exec_opcode op_nop4 env f_exec m = do
  check env.flags.discourage_upgradable_nops ScriptError.discourage_upgradable_nops
  ok m
exec_opcode op_nop5 env f_exec m = do
  check env.flags.discourage_upgradable_nops ScriptError.discourage_upgradable_nops
  ok m
exec_opcode op_nop6 env f_exec m = do
  check env.flags.discourage_upgradable_nops ScriptError.discourage_upgradable_nops
  ok m
exec_opcode op_nop7 env f_exec m = do
  check env.flags.discourage_upgradable_nops ScriptError.discourage_upgradable_nops
  ok m
exec_opcode op_nop8 env f_exec m = do
  check env.flags.discourage_upgradable_nops ScriptError.discourage_upgradable_nops
  ok m
exec_opcode op_nop9 env f_exec m = do
  check env.flags.discourage_upgradable_nops ScriptError.discourage_upgradable_nops
  ok m
exec_opcode op_nop10 env f_exec m = do
  check env.flags.discourage_upgradable_nops ScriptError.discourage_upgradable_nops
  ok m
exec_opcode op_check_sig_add env f_exec m = check_sig_add env.sigversion env m m.stack
exec_opcode _ env f_exec m = throw ScriptError.bad_opcode

-- A byte that no opcode has is a bad opcode.
unfoldable pub exec_byte : Option Opcode → Env → Bool → Machine → Eval Machine
exec_byte none env f_exec m = throw ScriptError.bad_opcode
exec_byte (some op) env f_exec m = exec_opcode op env f_exec m

-- The op count before tapscript: every opcode above OP_16 counts, executed or not.
unfoldable pub count_op : Env → ℕ → Machine → Eval Machine
count_op env opcode m =
    if is_pre_tapscript env.sigversion && ltb 0x60 opcode
    then (do
      check (ltb max_ops_per_script (m.op_count + 1)) ScriptError.op_count
      ok (record m { op_count = m.op_count + 1 }))
    else ok m

-- A push, an opcode that executes, or an opcode skipped in a branch not taken.
unfoldable pub dispatch : Env → Bool → ℕ → Bytes → Machine → Eval Machine
dispatch env f_exec opcode push m =
    if f_exec && leb opcode 0x4e
    then (do
      check (env.flags.minimaldata && not (check_minimal_push push opcode)) ScriptError.minimal_data
      ok (record m { stack = push ∷ m.stack }))
    else if f_exec || (leb 0x63 opcode && leb opcode 0x68)
    then exec_byte (from_u8 opcode) env f_exec m
    else ok m

-- The body of the loop behind `get_op`, with `pc` already at the next instruction.
unfoldable pub exec_op : Env → ℕ → Bytes → Machine → Eval Machine
exec_op env opcode push m = do
  let f_exec = Cond.all_true m.vf_exec
  check (ltb max_script_element_size (length push)) ScriptError.push_size
  m1 ← count_op env opcode m
  check (is_disabled_opcode opcode) ScriptError.disabled_opcode
  check (opcode == 0xab && is_base env.sigversion && env.flags.const_scriptcode)
      ScriptError.op_code_separator
  m2 ← dispatch env f_exec opcode push m1
  check (ltb max_stack_size (length m2.stack + length m2.altstack)) ScriptError.stack_size
  ok (record m2 { opcode_pos = m2.opcode_pos + 1 })

unfoldable pub step : Env → Machine → Option (ℕ × Bytes × ℕ) → Eval Machine
step env m none = throw ScriptError.bad_opcode
step env m (some (opcode, push, new_pc)) = exec_op env opcode push (record m { pc = new_pc })

-- `while pc < script_bytes.len()`.
unfoldable pub eval_loop : ℕ → Env → Machine → Eval Machine
eval_loop zero env m = if ltb m.pc (length env.script) then err out_of_fuel else ok m
eval_loop (suc fuel) env m = elim (ltb m.pc (length env.script)) [
  | false ↦ ok m
  | true ↦ elim (step env m (get_op env.script m.pc)) [
    | err e ↦ err e
    | ok m' ↦ eval_loop fuel env m'
  ]
]

-- `eval_script`: the stack and the execution data after a success, or the error. Each instruction
-- takes a byte at least, so the length of the script is fuel enough.
unfoldable pub eval_script : Env → Stack → ScriptExecutionData → Eval (Stack × ScriptExecutionData)
eval_script env stack exec_data = do
  check (is_pre_tapscript env.sigversion && ltb max_script_size (length env.script))
      ScriptError.script_size
  m ← eval_loop (length env.script) env (start stack exec_data)
  check (not (Cond.is_empty m.vf_exec)) ScriptError.unbalanced_conditional
  ok (m.stack, m.exec_data)
