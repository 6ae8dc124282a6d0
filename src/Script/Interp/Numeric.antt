-- ===== src/Script/Interp/Numeric.antt =====
-- The arithmetic opcodes.
use qubitcoin.Common.{Bool, not, ◌&&◌, ◌||◌, [], ◌∷◌, if◌then◌else◌, ok, ◌>>=◌}
use qubitcoin.Common.Int.{ℤ, pos, neg, ◌+ℤ◌, ◌-ℤ◌, ltb_ℤ, leb_ℤ, eqb_ℤ}
use qubitcoin.Script.Num.{default_max_num_size, encode_i64}
use qubitcoin.Script.Opcode.{
  Opcode, op1_add, op1_sub, op_negate, op_abs, op_not, op0_not_equal, op_add, op_sub, op_bool_and,
  op_bool_or, op_num_equal, op_num_equal_verify, op_num_not_equal, op_less_than, op_greater_than,
  op_less_than_or_equal, op_greater_than_or_equal, op_min, op_max,
}
use qubitcoin.Script.Types.{ScriptError, Eval, throw}
use qubitcoin.Script.Interp.Machine.{Stack}
use qubitcoin.Script.Interp.Values.{cast_to_bool, from_bool, stack_to_script_num}
use qubitcoin.Script.Interp.StackOps.{too_short}

-- `ScriptNum::new(if b { 1 } else { 0 })`
abbrev pub num_of : Bool → ℤ
num_of b = pos (if b then 1 else 0)

abbrev is_zero : ℤ → Bool
is_zero n = eqb_ℤ n (pos 0)

-- The inner match of the unary opcodes; `_ => unreachable!()` is the last clause.
unfoldable pub unary : Opcode → ℤ → ℤ
unary op1_add bn = bn +ℤ pos 1
unary op1_sub bn = bn -ℤ pos 1
unary op_negate bn = neg bn
unary op_abs bn = if ltb_ℤ bn (pos 0) then neg bn else bn
unary op_not bn = num_of (is_zero bn)
unary op0_not_equal bn = num_of (not (is_zero bn))
unary _ bn = bn

unfoldable pub unary_op : Opcode → Bool → Stack → Eval Stack
unary_op op require_minimal (val ∷ s) = do
  bn ← stack_to_script_num val require_minimal default_max_num_size
  ok (encode_i64 (unary op bn) ∷ s)
unary_op op require_minimal [] = too_short

-- The inner match of the binary opcodes.
unfoldable pub binary : Opcode → ℤ → ℤ → ℤ
binary op_add bn1 bn2 = bn1 +ℤ bn2
binary op_sub bn1 bn2 = bn1 -ℤ bn2
binary op_bool_and bn1 bn2 = num_of (not (is_zero bn1) && not (is_zero bn2))
binary op_bool_or bn1 bn2 = num_of (not (is_zero bn1) || not (is_zero bn2))
binary op_num_equal bn1 bn2 = num_of (eqb_ℤ bn1 bn2)
binary op_num_equal_verify bn1 bn2 = num_of (eqb_ℤ bn1 bn2)
binary op_num_not_equal bn1 bn2 = num_of (not (eqb_ℤ bn1 bn2))
binary op_less_than bn1 bn2 = num_of (ltb_ℤ bn1 bn2)
binary op_greater_than bn1 bn2 = num_of (ltb_ℤ bn2 bn1)
binary op_less_than_or_equal bn1 bn2 = num_of (leb_ℤ bn1 bn2)
binary op_greater_than_or_equal bn1 bn2 = num_of (leb_ℤ bn2 bn1)
binary op_min bn1 bn2 = if ltb_ℤ bn1 bn2 then bn1 else bn2
binary op_max bn1 bn2 = if ltb_ℤ bn2 bn1 then bn1 else bn2
binary _ bn1 bn2 = bn1

unfoldable pub binary_op : Opcode → Bool → Stack → Eval Stack
binary_op op require_minimal (v2 ∷ v1 ∷ s) = do
  bn1 ← stack_to_script_num v1 require_minimal default_max_num_size
  bn2 ← stack_to_script_num v2 require_minimal default_max_num_size
  ok (encode_i64 (binary op bn1 bn2) ∷ s)
binary_op op require_minimal _ = too_short

-- The end of OP_NUMEQUALVERIFY, on the stack that the comparison leaves.
unfoldable pub num_equal_verify : Stack → Eval Stack
num_equal_verify (a ∷ s) = if cast_to_bool a then ok s else throw ScriptError.num_equal_verify
num_equal_verify [] = too_short

unfoldable pub within : Bool → Stack → Eval Stack
within require_minimal (v3 ∷ v2 ∷ v1 ∷ s) = do
  bn1 ← stack_to_script_num v1 require_minimal default_max_num_size
  bn2 ← stack_to_script_num v2 require_minimal default_max_num_size
  bn3 ← stack_to_script_num v3 require_minimal default_max_num_size
  ok (from_bool (leb_ℤ bn2 bn1 && ltb_ℤ bn1 bn3) ∷ s)
within require_minimal _ = too_short
