-- ===== src/Script/Verify/Flags/SoftFork.antt =====
-- `verify_script` under fewer flags: tightening the rules only ever rejects more.
use qubitcoin.Common.{
  ◌≡◌, refl, Bool, true, false, not, ◌&&◌, ◌||◌, List, [], ◌∷◌, ◌==◌, if◌then◌else◌, length, ok,
  ◌>>=◌, arith, inl, inr, Bool-cases,
}
use qubitcoin.Common.Bytes.{Bytes, bytes_eq}
use qubitcoin.Script.Bytecode.{push_data, is_push_only, is_witness_program, is_p2sh}
use qubitcoin.Script.Types.{ScriptError, Eval, check, ScriptVerifyFlags}
use qubitcoin.Script.Interp.Machine.{Stack}
use qubitcoin.Script.Interp.Encoding.{is_nil}
use qubitcoin.Script.Interp.Flags.{Fewer, Sub, Sub-refl, Sub-check, Sub-bind, Sub-after}
use qubitcoin.Script.Verify.{
  top_is_true, pop_to_one, witness_step, finish, verify_redeem, verify_p2sh, verify_script,
}
use qubitcoin.Script.Verify.Witness.{Context}
use qubitcoin.Script.Verify.Flags.{
  under, Sub-any, Sub-if_any, Sub-if_same, Sub-if_on, Sub-option, Sub-verify_witness_program,
  Sub-run_base,
}

-- The combinations of flags that are meant to be used: CLEANSTACK only with P2SH and WITNESS, and
-- WITNESS only with P2SH.
pub record Coherent (f : ScriptVerifyFlags) : Type 0 where
  pub cleanstack : f.cleanstack ≡ true → f.witness ≡ true
  pub witness : f.witness ≡ true → f.p2sh ≡ true

both_true : {b c : Bool} (d : Bool) → b ≡ true → c ≡ true → b && d ≡ c && d
both_true d h k = ground arith

module _ {f g : ScriptVerifyFlags} (le : Fewer f g) (ctx : Context) where
  abbrev strict : Context
  strict = under ctx g

  abbrev loose : Context
  loose = under ctx f

  -- Without WITNESS there is nothing to check at the end.
  finish_lax :
      Coherent f
      → f.witness ≡ false
      → (had : Bool) (w : List Bytes) (s : Stack) → finish loose had w s ≡ ok tt
  unfolding finish
  finish_lax co off had w s = elim (Bool-cases f.cleanstack) [
    | inl clean ↦ cc (co.cleanstack clean)
    | inr unclean ↦ rw (off, unclean) refl
  ]

  Sub-finish :
      f.witness ≡ true
      → (had : Bool) (w : List Bytes) (s : Stack)
      → Sub (finish strict had w s) (finish loose had w s)
  unfolding finish
  Sub-finish on had w s =
      Sub-bind _ _ _ _
        (Sub-check (g.cleanstack && not (length s == 1)) (f.cleanstack && not (length s == 1)) _ _
          (λ h. ground (arith, le.cleanstack)))
        λ _.
          Sub-check (g.witness && not had && not (length w == 0))
            (f.witness && not had && not (length w == 0)) _ _ (λ h. ground (arith, le.witness))

  -- Without WITNESS no program is looked for, and everything after the evaluation succeeds.
  witness_step_off :
      f.witness ≡ false
      → (script : Bytes) (malleated : Bool) (e : ScriptError) (p2sh : Bool) (w : List Bytes)
        (s : Stack)
      → witness_step loose script malleated e p2sh w s ≡ ok (false, s)
  unfolding witness_step
  witness_step_off off script malleated e p2sh w s = rw off refl

  Sub-verify_redeem_off :
      Coherent f
      → f.witness ≡ false
      → (sig : Bytes) (w : List Bytes) (had had' : Bool) (s : Stack)
      → Sub (verify_redeem strict sig w had s) (verify_redeem loose sig w had' s)
  unfolding verify_redeem
  Sub-verify_redeem_off co off sig w had had' [] = Sub-refl _
  Sub-verify_redeem_off co off sig w had had' (script ∷ below) =
      Sub-bind _ _ _ _ (Sub-run_base le ctx script below) λ s.
        Sub-bind _ _ _ _ (Sub-refl (top_is_true s)) λ _.
          rw
            (
              witness_step_off off script (not (bytes_eq sig (push_data script)))
                  ScriptError.witness_malleated_p2sh true w s,
              finish_lax co off (had' || false) w s,
            )
            (Sub-any _)

  Sub-witness_step :
      f.witness ≡ true
      → (script : Bytes) (malleated : Bool) (e : ScriptError) (p2sh : Bool) (w : List Bytes)
        (s : Stack)
      → Sub
          (witness_step strict script malleated e p2sh w s)
          (witness_step loose script malleated e p2sh w s)
  unfolding witness_step
  Sub-witness_step on script malleated e p2sh w s =
      Sub-if_on g.witness f.witness _ _ _ (le.witness on) on (
        Sub-option (is_witness_program script) _ _ _ λ p.
          Sub-bind _ _ _ _ (Sub-refl (check malleated e)) λ _.
            Sub-bind _ _ _ _ (Sub-verify_witness_program le ctx w p.0 p.1 p2sh)
              λ _. Sub-refl (ok (true, pop_to_one s)))

  Sub-verify_redeem_on :
      f.witness ≡ true
      → (sig : Bytes) (w : List Bytes) (had : Bool) (s : Stack)
      → Sub (verify_redeem strict sig w had s) (verify_redeem loose sig w had s)
  unfolding verify_redeem
  Sub-verify_redeem_on on sig w had [] = Sub-refl _
  Sub-verify_redeem_on on sig w had (script ∷ below) =
      Sub-bind _ _ _ _ (Sub-run_base le ctx script below) λ s.
        Sub-bind _ _ _ _ (Sub-refl (top_is_true s)) λ _.
          Sub-bind _ _ _ _
            (Sub-witness_step on script (not (bytes_eq sig (push_data script)))
              ScriptError.witness_malleated_p2sh true w s)
            λ r. Sub-finish on (had || r.0) w r.1

  Sub-verify_p2sh_off :
      Coherent f
      → f.witness ≡ false
      → (sig : Bytes) (w : List Bytes) (had had' : Bool) (s : Stack)
      → Sub (verify_p2sh strict sig w had s) (verify_p2sh loose sig w had' s)
  unfolding verify_p2sh
  Sub-verify_p2sh_off co off sig w had had' s =
      Sub-bind _ _ _ _ (Sub-refl (check (not (is_push_only sig)) ScriptError.sig_push_only))
        λ _. Sub-verify_redeem_off co off sig w had had' s

  Sub-verify_p2sh_on :
      f.witness ≡ true
      → (sig : Bytes) (w : List Bytes) (had : Bool) (s : Stack)
      → Sub (verify_p2sh strict sig w had s) (verify_p2sh loose sig w had s)
  unfolding verify_p2sh
  Sub-verify_p2sh_on on sig w had s =
      Sub-bind _ _ _ _ (Sub-refl (check (not (is_push_only sig)) ScriptError.sig_push_only))
        λ _. Sub-verify_redeem_on on sig w had s

  abbrev tail : Context → Bytes → Bytes → List Bytes → Stack → Stack → Eval (Unit {0})
  tail c sig script w stack_copy stack = do
    (had_witness, stack') ←
        witness_step c script (not (is_nil sig)) ScriptError.witness_malleated false w stack
    if c.flags.p2sh && is_p2sh script
        then verify_p2sh c sig w had_witness stack_copy
        else finish c had_witness w stack'

  Sub-tail_off :
      Coherent f
      → f.witness ≡ false
      → (sig script : Bytes) (w : List Bytes) (stack_copy stack : Stack)
      → Sub (tail strict sig script w stack_copy stack) (tail loose sig script w stack_copy stack)
  Sub-tail_off co off sig script w stack_copy stack =
      rw
        (witness_step_off off script (not (is_nil sig)) ScriptError.witness_malleated false w stack)
        (Sub-after
          (witness_step strict script (not (is_nil sig)) ScriptError.witness_malleated false w
            stack)
          _ _
          λ r. rw (finish_lax co off false w stack) (
            Sub-if_any (g.p2sh && is_p2sh script) (f.p2sh && is_p2sh script) _ _ _
              (λ h. ground (arith, le.p2sh))
              (Sub-verify_p2sh_off co off sig w r.0 false stack_copy)))

  Sub-tail_on :
      Coherent f
      → f.witness ≡ true
      → (sig script : Bytes) (w : List Bytes) (stack_copy stack : Stack)
      → Sub (tail strict sig script w stack_copy stack) (tail loose sig script w stack_copy stack)
  Sub-tail_on co on sig script w stack_copy stack =
      Sub-bind _ _ _ _
        (Sub-witness_step on script (not (is_nil sig)) ScriptError.witness_malleated false w stack)
        λ r.
          Sub-if_same (g.p2sh && is_p2sh script) (f.p2sh && is_p2sh script) _ _ _ _
            (both_true (is_p2sh script) (le.p2sh (co.witness on)) (co.witness on))
            (Sub-verify_p2sh_on on sig w r.0 stack_copy) (Sub-finish on r.0 w r.1)

  Sub-verify_script :
      Coherent f
      → (sig script : Bytes) (w : List Bytes)
      → Sub (verify_script strict sig script w) (verify_script loose sig script w)
  unfolding verify_script
  Sub-verify_script co sig script w =
      Sub-bind _ _ _ _
        (Sub-check (g.sigpushonly && not (is_push_only sig))
          (f.sigpushonly && not (is_push_only sig)) ScriptError.sig_push_only
          ScriptError.sig_push_only (λ h. ground (arith, le.sigpushonly)))
        λ _. Sub-bind _ _ _ _ (Sub-run_base le ctx sig []) λ stack_copy.
          Sub-bind _ _ _ _ (Sub-run_base le ctx script stack_copy) λ stack.
            Sub-bind _ _ _ _ (Sub-refl (top_is_true stack)) λ _. elim (Bool-cases f.witness) [
              | inl on ↦ Sub-tail_on co on sig script w stack_copy stack
              | inr off ↦ Sub-tail_off co off sig script w stack_copy stack
            ]

-- An input that verifies under the flags `g` verifies under any coherent flags `f` that set no flag
-- that `g` does not set: CLEANSTACK comes with WITNESS, and WITNESS with P2SH.
pub verify_script_soft_fork :
    (f g : ScriptVerifyFlags)
    → Fewer f g
    → Coherent f
    → (ctx : Context) (script_sig script_pubkey : Bytes) (witness : List Bytes)
    → verify_script (under ctx g) script_sig script_pubkey witness ≡ ok tt
    → verify_script (under ctx f) script_sig script_pubkey witness ≡ ok tt
verify_script_soft_fork f g le co ctx script_sig script_pubkey witness h =
    (Sub-verify_script le ctx co script_sig script_pubkey witness).at tt h
