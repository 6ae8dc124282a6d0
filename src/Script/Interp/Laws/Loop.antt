-- ===== src/Script/Interp/Laws/Loop.antt =====
-- The loop of `eval_script`: it ends, and what a successful run says of the whole script.
use qubitcoin.Common.{
  ℕ, zero, suc, ◌+◌, ◌≤◌, ◌≡◌, ◌≢◌, refl, Bool, true, false, not, ◌&&◌, none, some, List, [], ◌∷◌,
  ltb, ◌==◌, if◌then◌else◌, length, ok, err, ◌>>=◌, arith, inl, inr, subst, >>=-eq-ok, ok-injective,
  Bool-cases, Option-cases, All,
}
use qubitcoin.Common.Bytes.{Bytes}
use qubitcoin.Script.Opcode.{is_disabled_opcode}
use qubitcoin.Script.Bytecode.{get_op, ops_from, iter_ops, max_script_size}
use qubitcoin.Script.Bytecode.Walk.{get_op-bounds, get_op_end}
use qubitcoin.Script.Cond
use qubitcoin.Script.Types.{
  ScriptError, out_of_fuel, Eval, throw, check, check-eq-ok, is_base, is_pre_tapscript,
  ScriptExecutionData,
}
use qubitcoin.Script.Interp.Machine.{Stack, Env, Machine, start}
use qubitcoin.Script.Interp.MultiSig.{max_ops_per_script}
use qubitcoin.Script.Interp.Step.{
  count_op, exec_op, step, eval_loop, eval_script, max_script_element_size, max_stack_size,
}
use qubitcoin.Script.Interp.Laws.Ends.{Ends, ends_rules, Ends-total}
use qubitcoin.Script.Interp.Laws.Keeps.{Keeps, Good, good, failed, dispatch-Good}

-- The instructions that count against the limit.
abbrev pub counts : ℕ → ℕ
counts opcode = if ltb 0x60 opcode then 1 else 0

abbrev pub non_push_count : List (ℕ × Bytes) → ℕ
non_push_count [] = 0
non_push_count ((opcode, d) ∷ ops) = counts opcode + non_push_count ops

-- What an instruction must satisfy wherever it stands: a push of at most 520 bytes, no disabled
-- opcode.
abbrev pub OpFits : ℕ × Bytes → Type 0
OpFits (opcode, d) = (length d ≤ max_script_element_size) × (is_disabled_opcode opcode ≡ false)

record Advanced (env : Env) (opcode : ℕ) (push : Bytes) (m m' : Machine) : Type 0 where
  pub pc : m'.pc ≡ m.pc
  pub opcode_pos : m'.opcode_pos ≡ m.opcode_pos + 1
  pub fits : OpFits (opcode, push)
  pub counted : is_pre_tapscript env.sigversion ≡ true → m.op_count + counts opcode ≤ m'.op_count
  pub op_count : m.op_count ≤ max_ops_per_script → m'.op_count ≤ max_ops_per_script
  pub size : length m'.stack + length m'.altstack ≤ max_stack_size

data Round (env : Env) (opcode : ℕ) (push : Bytes) (m : Machine) : Eval Machine → Type 0 where
  advanced : (m' : Machine) → Advanced env opcode push m m' → Round env opcode push m (ok m')
  stopped : (e : ScriptError) → Round env opcode push m (throw e)

module _ (env : Env) (opcode : ℕ) (push : Bytes) where
  Round-check :
      (m : Machine) (b : Bool) (e : ScriptError) (r : Eval Machine)
      → (b ≡ false → Round env opcode push m r)
      → Round env opcode push m (check b e >>= λ _. r)
  Round-check m true e r k = stopped e
  Round-check m false e r k = k refl

  Round-Good :
      (m m1 : Machine) (r : Eval Machine) (f : Machine → Eval Machine)
      → Good m1 r
      → ((m2 : Machine) → Keeps m1 m2 → Round env opcode push m (f m2))
      → Round env opcode push m (r >>= f)
  Round-Good m m1 r f (good m2 k) h = h m2 k
  Round-Good m m1 r f (failed e) h = stopped e

  record Counted (m m' : Machine) : Type 0 where
    pub pc : m'.pc ≡ m.pc
    pub opcode_pos : m'.opcode_pos ≡ m.opcode_pos
    pub counted : is_pre_tapscript env.sigversion ≡ true → m.op_count + counts opcode ≤ m'.op_count
    pub op_count : m.op_count ≤ max_ops_per_script → m'.op_count ≤ max_ops_per_script

  -- What follows the op count.
  Round-count :
      (m : Machine) (f : Machine → Eval Machine)
      → ((m1 : Machine) → Counted m m1 → Round env opcode push m (f m1))
      → Round env opcode push m (count_op env opcode m >>= f)
  unfolding count_op
  Round-count m f h = elim (Bool-cases (is_pre_tapscript env.sigversion && ltb 0x60 opcode)) [
    | inl e ↦ elim (Bool-cases (ltb max_ops_per_script (m.op_count + 1))) [
      | inl over ↦ rw (e, over) (stopped _)
      | inr under ↦
          rw (e, under)
            (h _ (record {
              pc = refl;
              opcode_pos = refl;
              counted = λ p. ground arith;
              op_count = λ p. ground arith;
            }))
    ]
    | inr e ↦ rw e (
        h m
          (record { pc = refl; opcode_pos = refl; counted = λ p. ground arith; op_count = λ p. p }))
  ]

  exec_op-Round : (m : Machine) → Round env opcode push m (exec_op env opcode push m)
  unfolding exec_op
  exec_op-Round m = Round-check m (ltb max_script_element_size (length push)) _ _ λ short.
      Round-count m _ λ m1 c. Round-check m (is_disabled_opcode opcode) _ _ λ enabled.
        Round-check m (opcode == 0xab && is_base env.sigversion && env.flags.const_scriptcode) _ _
          λ _. Round-Good m m1 _ _ (dispatch-Good env _ opcode push m1) λ m2 k.
            Round-check m (ltb max_stack_size (length m2.stack + length m2.altstack)) _ _ λ small.
              advanced (record m2 { opcode_pos = m2.opcode_pos + 1 })
                (record {
                  pc = ground arith;
                  opcode_pos = ground arith;
                  fits = (ground arith, enabled);
                  counted = λ p. omega (arith, c.counted p);
                  op_count = λ p. k.op_count (c.op_count p);
                  size = ground arith;
                })

-- What the whole run has done when it returns.
record Final (env : Env) (ops : List (ℕ × Bytes)) (m m' : Machine) : Type 0 where
  pub fits : All OpFits ops
  pub counted :
      is_pre_tapscript env.sigversion ≡ true → m.op_count + non_push_count ops ≤ m'.op_count
  pub op_count : m.op_count ≤ max_ops_per_script → m'.op_count ≤ max_ops_per_script
  pub size :
      length m.stack + length m.altstack ≤ max_stack_size
      → length m'.stack + length m'.altstack ≤ max_stack_size

data Finished (env : Env) (ops : List (ℕ × Bytes)) (m : Machine) : Eval Machine → Type 0 where
  finished : (m' : Machine) → Final env ops m m' → Finished env ops m (ok m')
  halted : (e : ScriptError) → Finished env ops m (throw e)

ops_from_step :
    (f : ℕ) (script : Bytes) (i opcode : ℕ) (push : Bytes) (j : ℕ)
    → get_op script i ≡ some (opcode, push, j)
    → ops_from (suc f) script i ≡ (opcode, push) ∷ ops_from f script j
unfolding ops_from
ops_from_step f script i opcode push j e = rw (e, ops_from)

Finished-nil :
    (env : Env) (f : ℕ) (m : Machine)
    → length env.script ≤ m.pc
    → Finished env (ops_from f env.script m.pc) m (ok m)
unfolding ops_from
Finished-nil env zero m h =
    finished m (record { fits = tt; counted = λ _. omega arith; op_count = λ p. p; size = λ p. p })
Finished-nil env (suc f) m h =
    rw (get_op_end env.script m.pc h, ops_from)
      (finished m
        (record { fits = tt; counted = λ _. omega arith; op_count = λ p. p; size = λ p. p }))

module _ (env : Env) where
  Finished-round :
      (opcode : ℕ) (push : Bytes) (ops : List (ℕ × Bytes)) (m m1 : Machine) (r : Eval Machine)
      → Advanced env opcode push m m1
      → Finished env ops m1 r
      → Finished env ((opcode, push) ∷ ops) m r
  Finished-round opcode push ops m m1 r a (finished m2 f) = finished m2 (record {
    fits = (a.fits, f.fits);
    counted = λ p. omega (arith, a.counted p, f.counted p);
    op_count = λ p. f.op_count (a.op_count p);
    size = λ _. f.size a.size;
  })
  Finished-round opcode push ops m m1 r a (halted e) = halted e

  abbrev pub next : ℕ → Eval Machine → Eval Machine
  next fuel r = elim r [ err e ↦ err e | ok m' ↦ eval_loop fuel env m' ]

  -- The rest of the run after one round.
  after-Round :
      (fuel opcode : ℕ) (push : Bytes) (j : ℕ) (m : Machine) (r : Eval Machine)
      → ((m1 : Machine)
          → m1.pc ≡ j
          → Finished env (ops_from (suc fuel) env.script j) m1 (eval_loop fuel env m1))
      → m.pc ≡ j
      → Round env opcode push m r
      → Finished env ((opcode, push) ∷ ops_from (suc fuel) env.script j) m (next fuel r)
  after-Round fuel opcode push j m r ih e (advanced m1 a) =
      Finished-round opcode push _ m m1 _ a (ih m1 (ground arith))
  after-Round fuel opcode push j m r ih e (stopped x) = halted x

  -- `Final` does not speak of the position.
  Finished-pc :
      (j : ℕ) (m : Machine) (ops : List (ℕ × Bytes)) (r : Eval Machine)
      → Finished env ops (record m { pc = j }) r
      → Finished env ops m r
  Finished-pc j m ops r (finished m' f) =
      finished m'
        (record { fits = f.fits; counted = f.counted; op_count = f.op_count; size = f.size })
  Finished-pc j m ops r (halted e) = halted e

  step-Round :
      (opcode : ℕ) (push : Bytes) (j : ℕ) (m : Machine)
      → Round env opcode push (record m { pc = j }) (step env m (some (opcode, push, j)))
  unfolding step
  step-Round opcode push j m = exec_op-Round env opcode push (record m { pc = j })

  step-none :
      (m : Machine) (ops : List (ℕ × Bytes)) (fuel : ℕ)
      → Finished env ops m (next fuel (step env m none))
  unfolding step
  step-none m ops fuel = halted ScriptError.bad_opcode

  pub eval_loop_end :
      (f : ℕ) (m : Machine) → ltb m.pc (length env.script) ≡ false → eval_loop f env m ≡ ok m
  unfolding eval_loop
  eval_loop_end zero m e = rw (e, eval_loop)
  eval_loop_end (suc f) m e = rw (e, eval_loop)

  pub eval_loop-step :
      (f : ℕ) (m : Machine)
      → ltb m.pc (length env.script) ≡ true
      → eval_loop (suc f) env m ≡ next f (step env m (get_op env.script m.pc))
  unfolding eval_loop
  eval_loop-step f m e = rw (e, eval_loop)

  eval_loop-Finished :
      (fuel : ℕ) (m : Machine)
      → length env.script ≤ m.pc + fuel
      → Finished env (ops_from (suc fuel) env.script m.pc) m (eval_loop fuel env m)
  eval_loop-Finished zero m h =
      rw (eval_loop_end 0 m (ground arith)) (Finished-nil env 1 m (omega arith))
  eval_loop-Finished (suc fuel) m h = elim (Bool-cases (ltb m.pc (length env.script))) [
    | inr done ↦
        rw (eval_loop_end (suc fuel) m done) (Finished-nil env (suc (suc fuel)) m (ground arith))
    | inl more ↦ elim (Option-cases (get_op env.script m.pc)) [
      | inl bad ↦ rw (eval_loop-step fuel m more) (rw bad (step-none m _ fuel))
      | inr ((opcode, push, j), e) ↦
          let (lo, hi) = get_op-bounds env.script m.pc opcode push j e in
          rw
            (
              eval_loop-step fuel m more,
              ops_from_step (suc fuel) env.script m.pc opcode push j e,
              e,
            )
            (Finished-pc j m _ _ (
              after-Round fuel opcode push j (record m { pc = j }) _
                (λ m1 at. rw (← at) (eval_loop-Finished fuel m1 (omega arith))) refl
                (step-Round opcode push j m)))
    ]
  ]

Finished-start :
    (env : Env) (stack : Stack) (exec_data : ScriptExecutionData)
    → Finished env
        (iter_ops env.script)
        (start stack exec_data)
        (eval_loop (length env.script) env (start stack exec_data))
unfolding iter_ops
Finished-start env stack exec_data =
    eval_loop-Finished env (length env.script) (start stack exec_data) (omega arith)

Finished-Ends :
    {env : Env} {ops : List (ℕ × Bytes)} {m : Machine} (r : Eval Machine)
    → Finished env ops m r
    → Ends r
Finished-Ends r (finished m f) = Ends.returns m
Finished-Ends r (halted e) = Ends.fails e

pub eval_script-Ends :
    (env : Env) (stack : Stack) (exec_data : ScriptExecutionData)
    → Ends (eval_script env stack exec_data)
unfolding eval_script
eval_script-Ends env stack exec_data =
    let loop = Finished-Ends _ (Finished-start env stack exec_data) in search (ends_rules, loop)

-- `eval_script` returns, or fails with an error of the program: the length of the script is fuel
-- enough for its loop.
pub eval_script_total :
    (env : Env) (stack : Stack) (exec_data : ScriptExecutionData)
    → eval_script env stack exec_data ≢ err out_of_fuel
eval_script_total env stack exec_data = Ends-total _ (eval_script-Ends env stack exec_data)

Final-of :
    {env : Env} {ops : List (ℕ × Bytes)} {m m' : Machine} (r : Eval Machine)
    → Finished env ops m r
    → r ≡ ok m'
    → Final env ops m m'
Final-of r (finished m1 f) e = subst (Final _ _ _) (ok-injective (ok m1) refl e) f
Final-of r (halted x) e = cc

-- A script that evaluates successfully was within the limits as a whole, the branches that were not
-- taken included: every push has at most 520 bytes, no opcode is disabled, and before tapscript at
-- most 201 opcodes are above OP_16 and the script has at most 10,000 bytes. From a stack of at
-- most 1,000 values it leaves one of at most 1,000.
pub eval_script_limits :
    (env : Env) (stack : Stack) (exec_data : ScriptExecutionData) (stack' : Stack)
    (exec_data' : ScriptExecutionData)
    → eval_script env stack exec_data ≡ ok (stack', exec_data')
    → All OpFits (iter_ops env.script)
      × (is_pre_tapscript env.sigversion ≡ true
          → (non_push_count (iter_ops env.script) ≤ 201) × (length env.script ≤ 10000))
      × (length stack ≤ 1000 → length stack' ≤ 1000)
unfolding eval_script
eval_script_limits env stack exec_data stack' exec_data' h =
    let (small, h1) =
      check-eq-ok (is_pre_tapscript env.sigversion && ltb max_script_size (length env.script)) _ _
        h in
    let (m, run, h2) = >>=-eq-ok (eval_loop (length env.script) env (start stack exec_data)) _ h1 in
    let (balanced, h3) = check-eq-ok (not (Cond.is_empty m.vf_exec)) _ _ h2 in
    let f = Final-of _ (Finished-start env stack exec_data) run in
    let e : ◌≡◌ {A = Stack × ScriptExecutionData} (m.stack, m.exec_data) (stack', exec_data') =
      ok-injective (ok (m.stack, m.exec_data)) refl h3 in
    (
      f.fits,
      λ p. (omega (arith, f.counted p, f.op_count (omega arith)), ground arith),
      λ s. let b = f.size (omega arith) in ground arith,
    )
