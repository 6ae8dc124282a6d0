-- ===== src/Script/Verify/Rules.antt =====
-- What an input that verifies has satisfied.
use qubitcoin.Common.{
  ℕ, ◌≡◌, refl, Bool, true, false, not, ◌&&◌, none, some, List, [], ◌∷◌, ◌==◌, if◌then◌else◌,
  length, ok, ◌>>=◌, >>=-eq-ok, ok-injective, arith, sym, ◌∙◌, ap,
}
use qubitcoin.Common.Bytes.{Bytes}
use qubitcoin.Script.Bytecode.{is_push_only, is_witness_program, is_p2sh}
use qubitcoin.Script.Types.{ScriptError, Eval, check, check-eq-ok}
use qubitcoin.Script.Interp.Machine.{Stack}
use qubitcoin.Script.Interp.Encoding.{is_nil}
use qubitcoin.Script.Verify.{
  top_is_true, pop_to_one, witness_step, finish, run_base, verify_p2sh, verify_script,
}
use qubitcoin.Script.Verify.Witness.{Context, verify_witness_program}

is_nil-eq : (s : Bytes) → not (is_nil s) ≡ false → s ≡ []
is_nil-eq [] h = refl
is_nil-eq (b ∷ bs) h = cc

nothing : {A : Type 0} (xs : List A) → not (length xs == 0) ≡ false → xs ≡ []
nothing [] h = refl
nothing (x ∷ xs) h = ground arith

module _ (ctx : Context) where
  witness_step-some :
      (script : Bytes) (malleated : Bool) (e : ScriptError) (p2sh : Bool) (w : List Bytes)
      (s : Stack) (v : ℕ) (p : Bytes)
      → ctx.flags.witness ≡ true
      → is_witness_program script ≡ some (v, p)
      → witness_step ctx script malleated e p2sh w s ≡ (
          check malleated e >>= λ _.
          verify_witness_program ctx w v p p2sh >>= λ _. ok (true, pop_to_one s))
  unfolding witness_step
  witness_step-some script malleated e p2sh w s v p on program = ground arith

  witness_step-program :
      (script : Bytes) (malleated : Bool) (e : ScriptError) (p2sh : Bool) (w : List Bytes)
      (s : Stack) (r : Bool × Stack) (v : ℕ) (p : Bytes)
      → ctx.flags.witness ≡ true
      → is_witness_program script ≡ some (v, p)
      → witness_step ctx script malleated e p2sh w s ≡ ok r
      → (malleated ≡ false) × (verify_witness_program ctx w v p p2sh ≡ ok tt)
  witness_step-program script malleated e p2sh w s r v p on program h =
      let (clean, h2) =
        check-eq-ok malleated e _
          (sym (witness_step-some script malleated e p2sh w s v p on program) ∙ h) in
      let (u, h3, h4) = >>=-eq-ok (verify_witness_program ctx w v p p2sh) _ h2 in (clean, h3)

  witness_step-none :
      (script : Bytes) (malleated : Bool) (e : ScriptError) (p2sh : Bool) (w : List Bytes)
      (s : Stack)
      → is_witness_program script ≡ none
      → witness_step ctx script malleated e p2sh w s ≡ ok (false, s)
  unfolding witness_step
  witness_step-none script malleated e p2sh w s h = ground arith

  finish-rules :
      (had : Bool) (w : List Bytes) (s : Stack)
      → finish ctx had w s ≡ ok tt
      → (ctx.flags.cleanstack ≡ true → length s ≡ 1)
        × (ctx.flags.witness ≡ true → had ≡ false → w ≡ [])
  unfolding finish
  finish-rules had w s h =
      let (one, h1) = check-eq-ok (ctx.flags.cleanstack && not (length s == 1)) _ _ h in
      (λ c. ground arith, λ c d. nothing w (ground arith))

  verify_p2sh-rules :
      (sig : Bytes) (w : List Bytes) (had : Bool) (s : Stack)
      → verify_p2sh ctx sig w had s ≡ ok tt
      → is_push_only sig ≡ true
  unfolding verify_p2sh
  verify_p2sh-rules sig w had s h =
      let (pushes, h1) = check-eq-ok (not (is_push_only sig)) _ _ h in ground arith

  -- The end of a verification, after the scriptPubKey has left a true value.
  abbrev tail : Bytes → Bytes → List Bytes → Stack → Bool × Stack → Eval (Unit {0})
  tail sig script w stack_copy r =
      if ctx.flags.p2sh && is_p2sh script
      then verify_p2sh ctx sig w r.0 stack_copy
      else finish ctx r.0 w r.1

  tail-p2sh :
      (sig script : Bytes) (w : List Bytes) (stack_copy : Stack) (r : Bool × Stack)
      → tail sig script w stack_copy r ≡ ok tt
      → ctx.flags.p2sh ≡ true
      → is_p2sh script ≡ true
      → verify_p2sh ctx sig w r.0 stack_copy ≡ ok tt
  tail-p2sh sig script w stack_copy r h on form = ground arith

  tail-finish :
      (sig script : Bytes) (w : List Bytes) (stack_copy : Stack) (r : Bool × Stack)
      → tail sig script w stack_copy r ≡ ok tt
      → is_p2sh script ≡ false
      → finish ctx r.0 w r.1 ≡ ok tt
  tail-finish sig script w stack_copy r h form = ground arith

  -- The parts of a verification that succeeds.
  record Parts (sig script : Bytes) (w : List Bytes) : Type 0 where
    pub sig_stack : Stack
    pub stack : Stack
    pub result : Bool × Stack
    pub pushes : ctx.flags.sigpushonly ≡ true → is_push_only sig ≡ true
    pub sig_runs : run_base ctx sig [] ≡ ok sig_stack
    pub script_runs : run_base ctx script sig_stack ≡ ok stack
    pub is_true : top_is_true stack ≡ ok tt
    pub program :
        witness_step ctx script (not (is_nil sig)) ScriptError.witness_malleated false w stack
        ≡ ok result
    pub end : tail sig script w sig_stack result ≡ ok tt

  verify_script-Parts :
      (sig script : Bytes) (w : List Bytes)
      → verify_script ctx sig script w ≡ ok tt
      → Parts sig script w
  unfolding verify_script
  verify_script-Parts sig script w h =
      let (pushes, h1) = check-eq-ok (ctx.flags.sigpushonly && not (is_push_only sig)) _ _ h in
      let (sig_stack, e1, h2) = >>=-eq-ok (run_base ctx sig []) _ h1 in
      let (stack, e2, h3) = >>=-eq-ok (run_base ctx script sig_stack) _ h2 in
      let (u, e3, h4) = >>=-eq-ok (top_is_true stack) _ h3 in
      let (r, e4, h5) =
        >>=-eq-ok
          (witness_step ctx script (not (is_nil sig)) ScriptError.witness_malleated false w stack) _
          h4 in
      record {
        sig_stack = sig_stack;
        stack = stack;
        result = r;
        pushes = λ c. ground arith;
        sig_runs = e1;
        script_runs = e2;
        is_true = e3;
        program = e4;
        end = h5;
      }

-- An input that verifies has evaluated its scriptSig and then, on the stack of that, its
-- scriptPubKey, to a true value. With SIGPUSHONLY, or with P2SH where the output is a P2SH one, the
-- scriptSig only pushes.
pub verify_script-runs :
    (ctx : Context) (script_sig script_pubkey : Bytes) (witness : List Bytes)
    → verify_script ctx script_sig script_pubkey witness ≡ ok tt
    → ((s : Stack) × (t : Stack) × (run_base ctx script_sig [] ≡ ok s)
        × (run_base ctx script_pubkey s ≡ ok t)
        × (top_is_true t ≡ ok tt))
      × (ctx.flags.sigpushonly ≡ true → is_push_only script_sig ≡ true)
      × (ctx.flags.p2sh ≡ true → is_p2sh script_pubkey ≡ true → is_push_only script_sig ≡ true)
verify_script-runs ctx script_sig script_pubkey witness h =
    let p = verify_script-Parts ctx script_sig script_pubkey witness h in
    (
      (p.sig_stack, p.stack, p.sig_runs, p.script_runs, p.is_true),
      p.pushes,
      λ on form.
          verify_p2sh-rules ctx script_sig witness p.result.0 p.sig_stack
            (tail-p2sh ctx script_sig script_pubkey witness p.sig_stack p.result p.end on form),
    )

-- With WITNESS, an input that verifies spends a bare witness program only with an empty scriptSig and
-- a witness that satisfies the program, and where the output is neither a witness program nor a
-- P2SH one it has no witness.
pub verify_script-witness :
    (ctx : Context) (script_sig script_pubkey : Bytes) (witness : List Bytes)
    → verify_script ctx script_sig script_pubkey witness ≡ ok tt
    → ctx.flags.witness ≡ true
    → ((v : ℕ) (p : Bytes)
        → is_witness_program script_pubkey ≡ some (v, p)
        → (script_sig ≡ []) × (verify_witness_program ctx witness v p false ≡ ok tt))
      × (is_witness_program script_pubkey ≡ none → is_p2sh script_pubkey ≡ false → witness ≡ [])
verify_script-witness ctx script_sig script_pubkey witness h on =
    let parts = verify_script-Parts ctx script_sig script_pubkey witness h in
    (
      λ v p e.
          let (clean, accepted) =
            witness_step-program ctx script_pubkey (not (is_nil script_sig))
              ScriptError.witness_malleated false witness parts.stack parts.result v p on e
              parts.program in
          (is_nil-eq script_sig clean, accepted),
      λ e form.
          let r : parts.result ≡ (false, parts.stack) = ok-injective _ parts.program (
            witness_step-none ctx script_pubkey (not (is_nil script_sig))
              ScriptError.witness_malleated false witness parts.stack e) in
          let finished =
            tail-finish ctx script_sig script_pubkey witness parts.sig_stack parts.result parts.end
              form in
          (finish-rules ctx parts.result.0 witness parts.result.1 finished).1 on (ap (λ x. x.0) r),
    )
