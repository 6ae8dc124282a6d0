-- ===== src/Script/Verify/PubkeyHash.antt =====
-- The P2PKH script that a P2WPKH output implies, run instruction by instruction.
pub mod Spend
use qubitcoin.Common.{
  ℕ, zero, suc, ◌+◌, ◌≡◌, refl, Bool, true, false, not, ◌&&◌, Option, none, some, List, [], ◌∷◌,
  ◌++◌, ltb, leb, ◌==◌, if◌then◌else◌, length, drop, ok, err, ◌>>=◌, arith, sym, ◌∙◌, ap, subst,
  inl, inr, >>=-eq-ok, ok-injective, Result-cases, Bool-cases, length-append, drop-append,
  length-drop, reverse, ◌<◌, lt→ltb,
}
use qubitcoin.Common.Bytes.{Bytes, bytes_eq, bytes_eq-eq}
use qubitcoin.Script.Opcode.{from_u8, is_disabled_opcode}
use qubitcoin.Script.Cond
use qubitcoin.Script.Bytecode.{push_data, get_op, read_op, is_p2wpkh, build_p2pkh, max_script_size}
use qubitcoin.Script.Bytecode.Push.{push_opcode, get_op-push_data}
use qubitcoin.Script.Types.{
  ScriptError, Halt, Eval, throw, check, check-eq-ok, SigVersion, ScriptExecutionData,
  SignatureChecker,
}
use qubitcoin.Script.Interp.Machine.{Stack, Env, Machine, start}
use qubitcoin.Script.Interp.Values.{from_bool, cast_to_bool, check_minimal_push}
use qubitcoin.Script.Interp.StackOps
use qubitcoin.Script.Interp.Encoding.{is_nil, check_signature_encoding, check_pubkey_encoding}
use qubitcoin.Script.Interp.CheckSig.{
  drop_signature, checksig_pre_tapscript, eval_checksig, check_sig,
}
use qubitcoin.Script.Interp.Step.{
  exec_opcode, exec_byte, count_op, dispatch, exec_op, step, eval_loop, eval_script,
}
use qubitcoin.Script.Interp.Laws.Loop.{next, eval_loop_end, eval_loop-step}
use qubitcoin.Script.Bytecode.Templates.{is_witness_program-outputs}
use qubitcoin.Script.Verify.{verify_script}
use qubitcoin.Script.Verify.Rules.{verify_script-witness}
use qubitcoin.Script.Verify.Witness.{
  Context, env_of, default_exec_data, oversized, one_true, execute_witness_script, verify_p2wpkh,
  verify_witness_program,
}

minimal_20 : (p : Bytes) → length p ≡ 20 → check_minimal_push p 20 ≡ true
unfolding check_minimal_push
minimal_20 [] len = absurd (omega arith)
minimal_20 (b ∷ []) len = absurd (omega arith)
minimal_20 (b ∷ c ∷ bs) len = ground arith

and_false : (b : Bool) → b && false ≡ false
and_false b = ground arith

opcode_20 : (p : Bytes) → length p ≡ 20 → push_opcode p ≡ 20
unfolding push_opcode
opcode_20 p len = rw len refl

drop_exact : (xs ys : Bytes) (n : ℕ) → length xs ≡ n → drop n (xs ++ ys) ≡ ys
drop_exact xs ys n h = rw (← h) (drop-append xs ys)

drop-suc : (n : ℕ) (s : Bytes) (b : ℕ) (r : Bytes) → drop n s ≡ b ∷ r → drop (suc n) s ≡ r
drop-suc zero [] b r h = cc
drop-suc zero (a ∷ s) b r h = cc
drop-suc (suc n) [] b r h = cc
drop-suc (suc n) (a ∷ s) b r h = drop-suc n s b r h

module _ (ctx : Context) (p : Bytes) where
  abbrev env : Env
  env = env_of ctx SigVersion.witness_v0 (build_p2pkh p)

  -- A state between the instructions of the script.
  abbrev at_pc : Stack → ℕ → ℕ → ℕ → ScriptExecutionData → Machine
  at_pc s count pc pos d = record {
    stack = s;
    altstack = [];
    vf_exec = Cond.new;
    op_count = count;
    pc = pc;
    pbegincodehash = 0;
    opcode_pos = pos;
    exec_data = d;
  }

  next-inverse :
      (f : ℕ) (r : Eval Machine) (z : Machine)
      → next env f r ≡ ok z
      → (m1 : Machine) × (r ≡ ok m1) × (eval_loop f env m1 ≡ ok z)
  next-inverse f (ok m1) z h = (m1, refl, h)
  next-inverse f (err e) z h = cc

  -- A round of a run that returns.
  round :
      (f : ℕ) (m z : Machine) (o : ℕ) (push : Bytes) (j : ℕ)
      → ltb m.pc (length env.script) ≡ true
      → get_op env.script m.pc ≡ some (o, push, j)
      → eval_loop (suc f) env m ≡ ok z
      → (m1 : Machine) × (exec_op env o push (record m { pc = j }) ≡ ok m1)
        × (eval_loop f env m1 ≡ ok z)
  unfolding step
  round f m z o push j more e h =
      let (m1, e1, rest) =
        next-inverse f (step env m (get_op env.script m.pc)) z
          (sym (eval_loop-step env f m more) ∙ h) in
      (m1, rw e at e1, rest)

  module _ (key sig : Bytes) (d : ScriptExecutionData) where
    dup_key :
        exec_op env 0x76 [] (at_pc (key ∷ sig ∷ []) 0 1 0 d)
        ≡ ok (at_pc (key ∷ key ∷ sig ∷ []) 1 1 1 d)
    unfolding exec_op count_op dispatch exec_byte exec_opcode from_u8 is_disabled_opcode
        Cond.all_true Cond.new StackOps.dup
    dup_key = refl

    hash_key :
        exec_op env 0xa9 [] (at_pc (key ∷ key ∷ sig ∷ []) 1 2 1 d)
        ≡ ok (at_pc (ctx.crypto.hash160 key ∷ key ∷ sig ∷ []) 2 2 2 d)
    unfolding exec_op count_op dispatch exec_byte exec_opcode from_u8 is_disabled_opcode
        Cond.all_true Cond.new StackOps.hash_top
    hash_key = refl

    push_hash :
        (h : Bytes)
        → length p ≡ 20
        → exec_op env 20 p (at_pc (h ∷ key ∷ sig ∷ []) 2 23 2 d)
          ≡ ok (at_pc (p ∷ h ∷ key ∷ sig ∷ []) 2 23 3 d)
    unfolding exec_op count_op dispatch is_disabled_opcode from_u8 Cond.all_true Cond.new
    push_hash h len =
        let fits : ltb 520 (length p) ≡ false = ground arith in
        rw (fits, minimal_20 p len, and_false ctx.flags.minimaldata) refl

    compare_same :
        (h : Bytes)
        → bytes_eq h p ≡ true
        → exec_op env 0x88 [] (at_pc (p ∷ h ∷ key ∷ sig ∷ []) 2 24 3 d)
          ≡ ok (at_pc (key ∷ sig ∷ []) 3 24 4 d)
    unfolding exec_op count_op dispatch exec_byte exec_opcode from_u8 is_disabled_opcode
        Cond.all_true Cond.new StackOps.equal_verify
    compare_same h e = rw e refl

    compare_other :
        (h : Bytes)
        → bytes_eq h p ≡ false
        → exec_op env 0x88 [] (at_pc (p ∷ h ∷ key ∷ sig ∷ []) 2 24 3 d)
          ≡ throw ScriptError.equal_verify
    unfolding exec_op count_op dispatch exec_byte exec_opcode from_u8 is_disabled_opcode
        Cond.all_true Cond.new StackOps.equal_verify
    compare_other h e = rw e refl

    compare_hash :
        (h : Bytes) (m : Machine)
        → exec_op env 0x88 [] (at_pc (p ∷ h ∷ key ∷ sig ∷ []) 2 24 3 d) ≡ ok m
        → (h ≡ p) × (m ≡ at_pc (key ∷ sig ∷ []) 3 24 4 d)
    compare_hash h m e = elim (Bool-cases (bytes_eq h p)) [
      | inl same ↦ (bytes_eq-eq h p same, ok-injective _ e (compare_same h same))
      | inr other ↦ cc (compare_other h other)
    ]

    -- The state in which the signature is checked.
    abbrev checking : Machine
    checking = at_pc (key ∷ sig ∷ []) 4 25 4 d

    signature_checked :
        (b : Bool)
        → checksig_pre_tapscript env checking sig key ≡ ok b
        → exec_op env 0xac [] (at_pc (key ∷ sig ∷ []) 3 25 4 d)
          ≡ ok (at_pc (from_bool b ∷ []) 4 25 5 d)
    unfolding exec_op count_op dispatch exec_byte exec_opcode from_u8 is_disabled_opcode
        Cond.all_true Cond.new check_sig eval_checksig
    signature_checked b e = rw e refl

    signature_refused :
        (x : Halt)
        → checksig_pre_tapscript env checking sig key ≡ err x
        → exec_op env 0xac [] (at_pc (key ∷ sig ∷ []) 3 25 4 d) ≡ err x
    unfolding exec_op count_op dispatch exec_byte exec_opcode from_u8 is_disabled_opcode
        Cond.all_true Cond.new check_sig eval_checksig
    signature_refused x e = rw e refl

    checksig-result :
        (b : Bool)
        → checksig_pre_tapscript env checking sig key ≡ ok b
        → ctx.checker.check_ecdsa_signature sig key (build_p2pkh p) SigVersion.witness_v0 ≡ b
    unfolding checksig_pre_tapscript drop_signature
    checksig-result b h =
        let (u, e1, h1) = >>=-eq-ok (check_signature_encoding ctx.crypto ctx.flags sig) _ h in
        let (v, e2, h2) =
          >>=-eq-ok (check_pubkey_encoding ctx.flags SigVersion.witness_v0 key) _ h1 in
        let fits : Bool =
          ctx.checker.check_ecdsa_signature sig key (build_p2pkh p) SigVersion.witness_v0 in
        let (clean, h3) = check-eq-ok (not fits && ctx.flags.nullfail && not (is_nil sig)) _ _ h2 in
        ok-injective (ok fits) refl h3

    signature :
        (m : Machine)
        → exec_op env 0xac [] (at_pc (key ∷ sig ∷ []) 3 25 4 d) ≡ ok m
        → m
          ≡ at_pc
              (from_bool
                  (ctx.checker.check_ecdsa_signature sig key (build_p2pkh p) SigVersion.witness_v0)
                ∷ [])
              4
              25
              5
              d
    signature m e = elim (Result-cases (checksig_pre_tapscript env checking sig key)) [
      | inl (b, r) ↦ rw (checksig-result b r) (ok-injective _ e (signature_checked b r))
      | inr (x, r) ↦ cc (signature_refused x r)
    ]

  -- The five instructions of the script, where the hash has 20 bytes.
  module _ (len : length p ≡ 20) where
    pushed : push_data p ≡ 20 ∷ p
    unfolding push_data
    pushed = ground arith

    script_form : build_p2pkh p ≡ (0x76 ∷ 0xa9 ∷ 20 ∷ p) ++ (0x88 ∷ 0xac ∷ [])
    unfolding build_p2pkh
    script_form = rw pushed refl

    pub script_length : length (build_p2pkh p) ≡ 25
    script_length =
        rw (script_form, length-append (0x76 ∷ 0xa9 ∷ 20 ∷ p) (0x88 ∷ 0xac ∷ [])) (omega arith)

    op_0 : get_op (build_p2pkh p) 0 ≡ some (0x76, [], 1)
    unfolding build_p2pkh get_op read_op
    op_0 = refl

    op_1 : get_op (build_p2pkh p) 1 ≡ some (0xa9, [], 2)
    unfolding build_p2pkh get_op read_op
    op_1 = refl

    op_2 : get_op (build_p2pkh p) 2 ≡ some (20, p, 23)
    unfolding build_p2pkh
    op_2 =
        get_op-push_data (0x76 ∷ 0xa9 ∷ []) p (0x88 ∷ 0xac ∷ []) (omega arith)
        ∙ rw (opcode_20 p len, pushed, len) refl

    rest_23 : drop 23 (build_p2pkh p) ≡ 0x88 ∷ 0xac ∷ []
    rest_23 = rw script_form (drop_exact (0x76 ∷ 0xa9 ∷ 20 ∷ p) (0x88 ∷ 0xac ∷ []) 23 (omega arith))

    op_3 : get_op (build_p2pkh p) 23 ≡ some (0x88, [], 24)
    unfolding get_op read_op
    op_3 = rw rest_23 refl

    rest_24 : drop 24 (build_p2pkh p) ≡ 0xac ∷ []
    rest_24 = drop-suc 23 (build_p2pkh p) 0x88 (0xac ∷ []) rest_23

    op_4 : get_op (build_p2pkh p) 24 ≡ some (0xac, [], 25)
    unfolding get_op read_op
    op_4 = rw rest_24 refl

    within_script : (i : ℕ) → i < 25 → ltb i (length (build_p2pkh p)) ≡ true
    within_script i h = rw script_length (lt→ltb i 25 h)

    ended : ltb 25 (length (build_p2pkh p)) ≡ false
    ended = rw script_length refl

    pub run :
        (key sig : Bytes) (d : ScriptExecutionData) (z : Machine)
        → eval_loop 25 env (at_pc (key ∷ sig ∷ []) 0 0 0 d) ≡ ok z
        → (ctx.crypto.hash160 key ≡ p)
          × (z.stack
              ≡ from_bool
                  (ctx.checker.check_ecdsa_signature sig key (build_p2pkh p) SigVersion.witness_v0)
                ∷ [])
    run key sig d z h =
        let s0 = at_pc (key ∷ sig ∷ []) 0 0 0 d in
        let (m1, e1, h1) = round 24 s0 z 0x76 [] 1 (within_script 0 (omega arith)) op_0 h in
        let s1 = at_pc (key ∷ key ∷ sig ∷ []) 1 1 1 d in
        let g1 =
          subst (λ m. eval_loop 24 env m ≡ ok z) (ok-injective _ e1 (dup_key key sig d)) h1 in
        let (m2, e2, h2) = round 23 s1 z 0xa9 [] 2 (within_script 1 (omega arith)) op_1 g1 in
        let s2 = at_pc (ctx.crypto.hash160 key ∷ key ∷ sig ∷ []) 2 2 2 d in
        let g2 =
          subst (λ m. eval_loop 23 env m ≡ ok z) (ok-injective _ e2 (hash_key key sig d)) h2 in
        let (m3, e3, h3) = round 22 s2 z 20 p 23 (within_script 2 (omega arith)) op_2 g2 in
        let s3 = at_pc (p ∷ ctx.crypto.hash160 key ∷ key ∷ sig ∷ []) 2 23 3 d in
        let g3 =
          subst (λ m. eval_loop 22 env m ≡ ok z) (ok-injective _ e3 (push_hash key sig d _ len))
            h3 in
        let (m4, e4, h4) = round 21 s3 z 0x88 [] 24 (within_script 23 (omega arith)) op_3 g3 in
        let (same, at4) = compare_hash key sig d (ctx.crypto.hash160 key) m4 e4 in
        let s4 = at_pc (key ∷ sig ∷ []) 3 24 4 d in
        let g4 = subst (λ m. eval_loop 21 env m ≡ ok z) at4 h4 in
        let (m5, e5, h5) = round 20 s4 z 0xac [] 25 (within_script 24 (omega arith)) op_4 g4 in
        let g5 = subst (λ m. eval_loop 20 env m ≡ ok z) (signature key sig d m5 e5) h5 in
        (same, ap (λ m. m.stack) (ok-injective _ g5 (eval_loop_end env 20 _ ended)))
