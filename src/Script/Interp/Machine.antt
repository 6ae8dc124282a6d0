-- ===== src/Script/Interp/Machine.antt =====
-- The state of `eval_script`, and what an evaluation is given.
use qubitcoin.Common.{ℕ, List, [], ◌-◌, ◌^◌, true}
use qubitcoin.Common.Bytes.{Bytes}
use qubitcoin.Script.Types.{
  SigVersion, ScriptVerifyFlags, ScriptExecutionData, SignatureChecker, Crypto,
}
use qubitcoin.Script.Cond
use qubitcoin.Script.Cond.{ConditionStack}

-- `ScriptStack`, the top first: `top(-k)` is the k-th element from the left.
abbrev pub Stack : Type 0
Stack = List Bytes

-- The arguments of `eval_script` that it does not change.
pub record Env : Type 0 where
  pub flags : ScriptVerifyFlags
  pub sigversion : SigVersion
  pub checker : SignatureChecker
  pub crypto : Crypto
  pub script : Bytes

-- The stack and the execution data are the caller's; the other fields are the local variables.
pub record Machine : Type 0 where
  pub stack : Stack
  pub altstack : Stack
  pub vf_exec : ConditionStack
  pub op_count : ℕ
  pub pc : ℕ
  pub pbegincodehash : ℕ
  pub opcode_pos : ℕ
  pub exec_data : ScriptExecutionData

-- The local variables at the start, and the code separator position reset.
abbrev pub start : Stack → ScriptExecutionData → Machine
start stack exec_data = record {
  stack = stack;
  altstack = [];
  vf_exec = Cond.new;
  op_count = 0;
  pc = 0;
  pbegincodehash = 0;
  opcode_pos = 0;
  exec_data = record exec_data { codeseparator_pos_init = true; codeseparator_pos = 2 ^ 32 - 1 };
}
