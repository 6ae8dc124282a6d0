-- ===== src/Examples/Scripts.antt =====
-- Scripts: instructions, templates and evaluations.
use qubitcoin.Common.{
  ℕ, ◌||◌, ◌+◌, ◌≤◌, ◌<◌, ◌≡◌, ◌≢◌, ◌↔◌, refl, Bool, true, false, none, some, [], ◌∷◌, ◌++◌, ok,
  err, length, drop, All, arith, ◌==◌, if◌then◌else◌,
}
use qubitcoin.Common.Int.{pos}
use qubitcoin.Common.Bytes.{Bytes}
use qubitcoin.Script.Opcode.{Opcode, from_u8, is_disabled_opcode}
use qubitcoin.Script.Bytecode.{
  push_data, push_int, get_op, read_op, take_push, ops_from, iter_ops, is_p2sh, is_p2wpkh, is_p2wsh,
  is_p2tr, is_witness_program,
}
use qubitcoin.Script.Bytecode.Push.{push_opcode, get_op-push_data}
use qubitcoin.Script.Bytecode.Walk.{get_op-bounds, ops_from_enough}
use qubitcoin.Script.Bytecode.Templates.{
  is_witness_program-push, is_witness_program-form, is_witness_program-outputs,
}
use qubitcoin.Script.Cond
use qubitcoin.Script.Cond.Refine.{of_list, refines}
use qubitcoin.Script.Types.{out_of_fuel, is_pre_tapscript}
use qubitcoin.Script.Num.{encode_i64, add_sign, magnitude}
use qubitcoin.Script.Interp.Flow.{enter_if}
use qubitcoin.Script.Interp.Machine.{Machine, start}
use qubitcoin.Script.Interp.Encoding.{check_signature_encoding, check_pubkey_encoding}
use qubitcoin.Script.Interp.Values.{cast_to_bool, check_minimal_push}
use qubitcoin.Script.Interp.MultiSig.{match_signatures}
use qubitcoin.Script.Interp.Step.{
  exec_opcode, exec_byte, count_op, dispatch, exec_op, step, eval_loop, eval_script,
}
use qubitcoin.Script.Interp.Laws.Keeps.{Good, exec_opcode-Good}
use qubitcoin.Script.Interp.Laws.Loop.{
  OpFits, non_push_count, eval_script_total, eval_script_limits,
}
use qubitcoin.Script.Interp.Laws.Skipped.{SameData, exec_op-skipped}
use qubitcoin.Script.Interp.Laws.Multi.{Matches, fits_in, match_signatures-Matches}
use qubitcoin.Script.Interp.Laws.Minimal.{has_own_opcode, check_minimal_push-push_data}
use qubitcoin.Script.Verify.Witness.{default_exec_data}
use qubitcoin.Examples.Data.{toy_env, key, key_output}

-- OP_1 OP_IF OP_2 OP_ELSE OP_DUP OP_ENDIF
abbrev branches : Bytes
branches = 0x51 ∷ 0x63 ∷ 0x52 ∷ 0x67 ∷ 0x76 ∷ 0x68 ∷ []

-- The first branch runs and the second does not.
branches_run :
    eval_script (toy_env branches) [] default_exec_data
    ≡ ok ((2 ∷ []) ∷ [], (start [] default_exec_data).exec_data)
unfolding eval_script eval_loop step get_op read_op take_push exec_op count_op is_disabled_opcode
    from_u8 dispatch exec_byte exec_opcode enter_if cast_to_bool encode_i64 add_sign magnitude
    Cond.all_true Cond.new Cond.push_back Cond.toggle_top Cond.pop_back Cond.is_empty
branches_run = refl

eval_script_limits_example :
    All OpFits (iter_ops branches)
    × (is_pre_tapscript (toy_env branches).sigversion ≡ true
        → (non_push_count (iter_ops branches) ≤ 201) × (length branches ≤ 10000))
    × (0 ≤ 1000 → 1 ≤ 1000)
eval_script_limits_example =
    eval_script_limits (toy_env branches) [] default_exec_data ((2 ∷ []) ∷ [])
      (start [] default_exec_data).exec_data branches_run

eval_script_total_example : eval_script (toy_env branches) [] default_exec_data ≢ err out_of_fuel
eval_script_total_example = eval_script_total (toy_env branches) [] default_exec_data

-- A state inside a branch that is not taken, before and after OP_DUP.
abbrev not_taken : ℕ → ℕ → Machine
not_taken count at = record (start (key ∷ []) default_exec_data) {
  vf_exec = record { stack_size = 1; first_false_pos = 0 };
  op_count = count;
  opcode_pos = at;
}

dup_skipped : exec_op (toy_env branches) 0x76 [] (not_taken 1 4) ≡ ok (not_taken 2 5)
unfolding exec_op count_op is_disabled_opcode from_u8 dispatch Cond.all_true
dup_skipped = refl

nothing_runs : Cond.all_true (not_taken 1 4).vf_exec ≡ false
unfolding Cond.all_true
nothing_runs = refl

exec_op-skipped_example : SameData (not_taken 1 4) (not_taken 2 5)
exec_op-skipped_example =
    exec_op-skipped (toy_env branches) 0x76 [] (not_taken 1 4) (not_taken 2 5) nothing_runs
      dup_skipped

exec_opcode-Good_example :
    Good
      (start (key ∷ []) default_exec_data)
      (exec_opcode Opcode.op_dup (toy_env branches) true (start (key ∷ []) default_exec_data))
exec_opcode-Good_example =
    exec_opcode-Good Opcode.op_dup (toy_env branches) true (start (key ∷ []) default_exec_data)

-- One of two keys signs.
one_of_two : match_signatures (toy_env branches) [] (key ∷ []) (key ∷ [] ∷ []) ≡ ok true
unfolding match_signatures check_signature_encoding check_pubkey_encoding
one_of_two = refl

match_signatures-Matches_example :
    (◌≡◌ {A = Bool} true true) ↔ Matches (fits_in (toy_env branches) []) (key ∷ []) (key ∷ [] ∷ [])
match_signatures-Matches_example =
    match_signatures-Matches (toy_env branches) [] (key ∷ []) (key ∷ [] ∷ []) true one_of_two

refines_example :
    (Cond.new ≡ of_list [])
    × (Cond.is_empty (of_list []) ≡ true)
    × (Cond.is_empty (of_list (false ∷ true ∷ [])) ≡ false)
    × (Cond.all_true (of_list (true ∷ [])) ≡ true)
    × (Cond.push_back false (of_list (true ∷ [])) ≡ of_list (false ∷ true ∷ []))
    × (Cond.pop_back (of_list (false ∷ true ∷ [])) ≡ of_list (true ∷ []))
    × (Cond.toggle_top (of_list (false ∷ true ∷ [])) ≡ of_list (true ∷ true ∷ []))
refines_example = refines false (true ∷ []) (omega arith)

get_op-push_data_example :
    get_op ((0x51 ∷ []) ++ (push_data key ++ (0x52 ∷ []))) 1
    ≡ some (push_opcode key, key, 1 + length (push_data key))
get_op-push_data_example = get_op-push_data (0x51 ∷ []) key (0x52 ∷ []) (omega arith)

push_read : get_op (3 ∷ key) 0 ≡ some (3, key, 4)
unfolding get_op read_op take_push
push_read = refl

get_op-bounds_example : (0 + length key < 4) × (4 ≤ length (3 ∷ key))
get_op-bounds_example = get_op-bounds (3 ∷ key) 0 3 key 4 push_read

ops_from_enough_example : ops_from 7 branches 0 ≡ ops_from 9 branches 0
ops_from_enough_example = ops_from_enough 7 9 branches 0 (omega arith) (omega arith)

is_witness_program-push_example :
    is_witness_program (push_int (pos 1) ++ push_data key) ≡ some (1, key)
is_witness_program-push_example =
    is_witness_program-push 1 key (omega arith) (omega arith) (omega arith)

key_program : is_witness_program (0x51 ∷ 3 ∷ key) ≡ some (1, key)
unfolding is_witness_program
key_program = refl

is_witness_program-form_example :
    (0x51 ∷ 3 ∷ key ≡ push_int (pos 1) ++ push_data key)
    × (1 ≤ 16)
    × (2 ≤ length key)
    × (length key ≤ 40)
is_witness_program-form_example = is_witness_program-form (0x51 ∷ 3 ∷ key) 1 key key_program

-- A P2WPKH output.
key_tested :
    is_p2tr key_output || is_p2wsh key_output || is_p2wpkh key_output || is_p2sh key_output ≡ true
unfolding is_p2tr is_p2wsh is_p2wpkh is_p2sh
key_tested = refl

is_witness_program-outputs_example : is_witness_program key_output ≡ (
    if is_p2sh key_output
    then none
    else some ((if is_p2tr key_output then 1 else 0), drop 2 key_output))
is_witness_program-outputs_example = is_witness_program-outputs key_output key_tested

check_minimal_push-push_data_example :
    check_minimal_push key 3 ≡ (if has_own_opcode key then false else 3 == push_opcode key)
check_minimal_push-push_data_example = check_minimal_push-push_data key 3 (omega arith)
