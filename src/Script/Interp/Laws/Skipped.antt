-- ===== src/Script/Interp/Laws/Skipped.antt =====
-- The instructions of a branch that is not taken.
use qubitcoin.Common.{
  ℕ, ◌+◌, ◌≤◌, ◌≡◌, refl, Bool, true, false, ◌&&◌, ltb, leb, ◌==◌, if◌then◌else◌, length, ok, ◌>>=◌,
  arith, inl, inr, Bool-cases, >>=-eq-ok, ok-injective, subst, Option-cases, ◌∙◌,
}
use qubitcoin.Common.Bytes.{Bytes}
use qubitcoin.Script.Opcode.{Opcode, op0, to_u8, from_u8, is_disabled_opcode}
use qubitcoin.Script.Opcode.Decode.{to_u8-from_u8}
use qubitcoin.Script.Cond
use qubitcoin.Script.Types.{ScriptError, Eval, throw, check, check-eq-ok, is_base, is_pre_tapscript}
use qubitcoin.Script.Interp.Machine.{Env, Machine}
use qubitcoin.Script.Interp.Flow.{enter_if}
use qubitcoin.Script.Interp.MultiSig.{max_ops_per_script}
use qubitcoin.Script.Interp.Step.{
  exec_opcode, exec_byte, count_op, dispatch, exec_op, max_script_element_size, max_stack_size,
}

-- What an evaluation works on, but for the conditions.
pub record SameData (m m' : Machine) : Type 0 where
  pub stack : m'.stack ≡ m.stack
  pub altstack : m'.altstack ≡ m.altstack
  pub pbegincodehash : m'.pbegincodehash ≡ m.pbegincodehash
  pub exec_data : m'.exec_data ≡ m.exec_data

SameData-trans : {m m1 m2 : Machine} → SameData m m1 → SameData m1 m2 → SameData m m2
SameData-trans h k = record {
  stack = k.stack ∙ h.stack;
  altstack = k.altstack ∙ h.altstack;
  pbegincodehash = k.pbegincodehash ∙ h.pbegincodehash;
  exec_data = k.exec_data ∙ h.exec_data;
}

-- A computation that, where it returns, returns a machine with the same data.
record SameAfter (m : Machine) (r : Eval Machine) : Type 0 where
  pub at : (m' : Machine) → r ≡ ok m' → SameData m m'

same_ok : (m m' : Machine) → SameData m m' → SameAfter m (ok m')
same_ok m m' s = record { at = λ m2 e. subst (SameData m) (ok-injective (ok m') refl e) s }

same_throw : (m : Machine) (e : ScriptError) → SameAfter m (throw e)
same_throw m e = record { at = λ m2 h. cc }

same_if :
    (m : Machine) (b : Bool) (x y : Eval Machine)
    → SameAfter m x
    → SameAfter m y
    → SameAfter m (if b then x else y)
same_if m true x y h k = h
same_if m false x y h k = k

same_after :
    {A : Type 0} (m : Machine) (x : Eval A) (f : A → Eval Machine)
    → ((a : A) → SameAfter m (f a))
    → SameAfter m (x >>= f)
same_after m x f k = record { at = λ m2 e. let (a, e1, e2) = >>=-eq-ok x f e in (k a).at m2 e2 }

same_data : (m : Machine) → SameData m m
same_data m = record { stack = refl; altstack = refl; pbegincodehash = refl; exec_data = refl }

-- The opcodes that are looked at in such a branch, OP_IF to OP_ENDIF.
exec_opcode-skipped :
    (op : Opcode) (env : Env) (m : Machine)
    → 0x63 ≤ to_u8 op
    → to_u8 op ≤ 0x68
    → SameAfter m (exec_opcode op env false m)
unfolding exec_opcode enter_if
exec_opcode-skipped Opcode.op_if env m lo hi =
    same_ok m _ (record { stack = refl; altstack = refl; pbegincodehash = refl; exec_data = refl })
exec_opcode-skipped Opcode.op_not_if env m lo hi =
    same_ok m _ (record { stack = refl; altstack = refl; pbegincodehash = refl; exec_data = refl })
exec_opcode-skipped Opcode.op_else env m lo hi =
    same_after m (check (Cond.is_empty m.vf_exec) ScriptError.unbalanced_conditional) _ λ _.
      same_ok m _
        (record { stack = refl; altstack = refl; pbegincodehash = refl; exec_data = refl })
exec_opcode-skipped Opcode.op_end_if env m lo hi =
    same_after m (check (Cond.is_empty m.vf_exec) ScriptError.unbalanced_conditional) _ λ _.
      same_ok m _
        (record { stack = refl; altstack = refl; pbegincodehash = refl; exec_data = refl })
exec_opcode-skipped Opcode.op_ver_if env m lo hi = same_throw m _
exec_opcode-skipped Opcode.op_ver_not_if env m lo hi = same_throw m _
exec_opcode-skipped op0 env m lo hi = absurd (omega arith)
exec_opcode-skipped _ env m lo hi = absurd (omega arith)

exec_byte-skipped :
    (opcode : ℕ) (env : Env) (m : Machine)
    → 0x63 ≤ opcode
    → opcode ≤ 0x68
    → SameAfter m (exec_byte (from_u8 opcode) env false m)
unfolding exec_byte
exec_byte-skipped opcode env m lo hi = elim (Option-cases (from_u8 opcode)) [
  | inl bad ↦ rw (bad, exec_byte) (same_throw m _)
  | inr (op, e) ↦
      let byte = to_u8-from_u8 opcode op e in
      rw (e, exec_byte) (exec_opcode-skipped op env m (omega arith) (omega arith))
]

dispatch-skipped :
    (env : Env) (opcode : ℕ) (push : Bytes) (m : Machine)
    → SameAfter m (dispatch env false opcode push m)
unfolding dispatch
dispatch-skipped env opcode push m = elim (Bool-cases (leb 0x63 opcode && leb opcode 0x68)) [
  | inl looked ↦ rw looked (exec_byte-skipped opcode env m (ground arith) (ground arith))
  | inr passed ↦ rw passed (same_ok m m (same_data m))
]

count_op-skipped : (env : Env) (opcode : ℕ) (m : Machine) → SameAfter m (count_op env opcode m)
unfolding count_op
count_op-skipped env opcode m =
    same_if m (is_pre_tapscript env.sigversion && ltb 0x60 opcode) _ _
      (same_after m (check (ltb max_ops_per_script (m.op_count + 1)) ScriptError.op_count) _ λ _.
        same_ok m _
          (record { stack = refl; altstack = refl; pbegincodehash = refl; exec_data = refl }))
      (same_ok m m (same_data m))

-- An instruction in a branch that is not taken, where it passes, leaves the stack, the alt stack, the start
-- of the signed code and the execution data as they were, whatever the instruction is.
pub exec_op-skipped :
    (env : Env) (opcode : ℕ) (push : Bytes) (m m' : Machine)
    → Cond.all_true m.vf_exec ≡ false
    → exec_op env opcode push m ≡ ok m'
    → SameData m m'
unfolding exec_op
exec_op-skipped env opcode push m m' skipped h =
    let (short, h1) = check-eq-ok (ltb max_script_element_size (length push)) _ _ h in
    let (m1, e1, h2) = >>=-eq-ok (count_op env opcode m) _ h1 in
    let (enabled, h3) = check-eq-ok (is_disabled_opcode opcode) _ _ h2 in
    let (allowed, h4) =
      check-eq-ok (opcode == 0xab && is_base env.sigversion && env.flags.const_scriptcode) _ _ h3 in
    let (m2, e2, h5) = >>=-eq-ok (dispatch env (Cond.all_true m.vf_exec) opcode push m1) _ h4 in
    let (small, h6) =
      check-eq-ok (ltb max_stack_size (length m2.stack + length m2.altstack)) _ _ h5 in
    let same1 = (count_op-skipped env opcode m).at m1 e1 in
    let same2 = (dispatch-skipped env opcode push m1).at m2 (rw skipped at e2) in
    let last : SameAfter m2 (ok (record m2 { opcode_pos = m2.opcode_pos + 1 })) =
      same_ok m2 _
        (record { stack = refl; altstack = refl; pbegincodehash = refl; exec_data = refl }) in
    SameData-trans same1 (SameData-trans same2 (last.at m' h6))
