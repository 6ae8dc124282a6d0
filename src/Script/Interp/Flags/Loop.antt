-- ===== src/Script/Interp/Flags/Loop.antt =====
-- `eval_script` under fewer flags.
use qubitcoin.Common.{ℕ, zero, suc, refl, Bool, true, false, ltb, length, ok, err}
use qubitcoin.Script.Bytecode.{get_op}
use qubitcoin.Script.Types.{Eval, ScriptVerifyFlags, ScriptExecutionData}
use qubitcoin.Script.Interp.Machine.{Stack, Env, Machine, start}
use qubitcoin.Script.Interp.Step.{eval_loop, eval_script}
use qubitcoin.Script.Interp.Flags.{Fewer, Sub, Sub-refl, Sub-bind}
use qubitcoin.Script.Interp.Flags.Checks.{with_flags}
use qubitcoin.Script.Interp.Flags.Opcodes.{Sub-step}

module _ {f g : ScriptVerifyFlags} (le : Fewer f g) (env : Env) where
  -- One round with the rest of the run.
  Sub-next :
      (x y : Eval Machine) (h k : Machine → Eval Machine)
      → Sub x y
      → ((m : Machine) → Sub (h m) (k m))
      → Sub
          (elim x as (λ _. Eval Machine) [ err e ↦ err e | ok m ↦ h m ])
          (elim y as (λ _. Eval Machine) [ err e ↦ err e | ok m ↦ k m ])
  Sub-next (err e) y h k s t = record { at = λ a i. cc }
  Sub-next (ok m) y h k s t = record { at = λ a i. rw (s.at m refl) ((t m).at a i) }

  Sub-elim :
      (b : Bool) (m : Machine) (x y : Eval Machine)
      → Sub x y
      → Sub
          (elim b as (λ _. Eval Machine) [ false ↦ ok m | true ↦ x ])
          (elim b as (λ _. Eval Machine) [ false ↦ ok m | true ↦ y ])
  Sub-elim true m x y h = h
  Sub-elim false m x y h = Sub-refl _

  Sub-eval_loop :
      (fuel : ℕ) (m : Machine)
      → Sub (eval_loop fuel (with_flags env g) m) (eval_loop fuel (with_flags env f) m)
  unfolding eval_loop
  Sub-eval_loop zero m = Sub-refl _
  Sub-eval_loop (suc fuel) m =
      Sub-elim (ltb m.pc (length env.script)) m _ _
        (Sub-next _ _ _ _ (Sub-step le env m (get_op env.script m.pc)) (Sub-eval_loop fuel))

  pub Sub-eval_script :
      (stack : Stack) (exec_data : ScriptExecutionData)
      → Sub
          (eval_script (with_flags env g) stack exec_data)
          (eval_script (with_flags env f) stack exec_data)
  unfolding eval_script
  Sub-eval_script stack exec_data = Sub-bind _ _ _ _ (Sub-refl _) λ _.
      Sub-bind _ _ _ _ (Sub-eval_loop (length env.script) (start stack exec_data)) λ m. Sub-refl _
