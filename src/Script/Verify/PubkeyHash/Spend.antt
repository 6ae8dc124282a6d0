-- ===== src/Script/Verify/PubkeyHash/Spend.antt =====
-- A spend of a P2WPKH output.
use qubitcoin.Common.{
  ◌≡◌, refl, Bool, true, false, not, List, [], ◌∷◌, ltb, ◌==◌, length, drop, ok, arith, sym, ap,
  subst, >>=-eq-ok, ok-injective, length-drop, reverse,
}
use qubitcoin.Common.Bytes.{Bytes}
use qubitcoin.Script.Cond
use qubitcoin.Script.Bytecode.{is_p2wpkh, build_p2pkh, max_script_size}
use qubitcoin.Script.Types.{check-eq-ok, SigVersion}
use qubitcoin.Script.Interp.Machine.{Stack, start}
use qubitcoin.Script.Interp.Values.{from_bool, cast_to_bool}
use qubitcoin.Script.Interp.Step.{eval_loop, eval_script}
use qubitcoin.Script.Bytecode.Templates.{is_witness_program-p2wpkh}
use qubitcoin.Script.Verify.{verify_script}
use qubitcoin.Script.Verify.Rules.{verify_script-witness}
use qubitcoin.Script.Verify.Witness.{
  Context, env_of, default_exec_data, oversized, one_true, execute_witness_script, verify_p2wpkh,
  verify_witness_program,
}
use qubitcoin.Script.Verify.PubkeyHash.{script_length, run}

two_items : (s : Stack) → not (length s == 2) ≡ false → (a : Bytes) × (b : Bytes) × (s ≡ a ∷ b ∷ [])
two_items [] h = cc
two_items (a ∷ []) h = cc
two_items (a ∷ b ∷ []) h = (a, b, refl)
two_items (a ∷ b ∷ c ∷ s) h = ground arith

one_true-from_bool : (b : Bool) → one_true (from_bool b ∷ []) ≡ ok tt → b ≡ true
unfolding one_true cast_to_bool
one_true-from_bool true h = refl
one_true-from_bool false h = cc

execute_p2pkh :
    (ctx : Context) (p key sig : Bytes)
    → length p ≡ 20
    → execute_witness_script
        (env_of ctx SigVersion.witness_v0 (build_p2pkh p))
        (key ∷ sig ∷ [])
        default_exec_data
      ≡ ok tt
    → (ctx.crypto.hash160 key ≡ p)
      × (ctx.checker.check_ecdsa_signature sig key (build_p2pkh p) SigVersion.witness_v0 ≡ true)
unfolding execute_witness_script eval_script
execute_p2pkh ctx p key sig len h =
    let script = build_p2pkh p in
    let (small, h1) = check-eq-ok (oversized (key ∷ sig ∷ [])) _ _ h in
    let (r, e, top) =
      >>=-eq-ok
        (eval_script (env_of ctx SigVersion.witness_v0 script) (key ∷ sig ∷ []) default_exec_data) _
        h1 in
    let (short, h2) = check-eq-ok (ltb max_script_size (length script)) _ _ e in
    let (z, loop, h3) =
      >>=-eq-ok
        (eval_loop (length script) (env_of ctx SigVersion.witness_v0 script)
          (start (key ∷ sig ∷ []) default_exec_data))
        _ h2 in
    let (balanced, h4) = check-eq-ok (not (Cond.is_empty z.vf_exec)) _ _ h3 in
    let start_state = start (key ∷ sig ∷ []) default_exec_data in
    let loop25 =
      subst (λ n. eval_loop n (env_of ctx SigVersion.witness_v0 script) start_state ≡ ok z)
        (script_length ctx p len) loop in
    let (same, at_end) = run ctx p len key sig start_state.exec_data z loop25 in
    let left : z.stack ≡ r.0 = ap (λ x. x.0) (ok-injective (ok (z.stack, z.exec_data)) refl h4) in
    (
      same,
      one_true-from_bool _ (
          subst (λ s. one_true s ≡ ok tt) (at_end)
            (subst (λ s. one_true s ≡ ok tt) (sym left) top)),
    )

-- A spend of P2WPKH that verifies has two witness items: a signature and a public key, whose hash is
-- the program, and the signature is valid for the key over the P2PKH script of the program.
pub verify_p2wpkh-signed :
    (ctx : Context) (program : Bytes) (stack : Stack)
    → length program ≡ 20
    → verify_p2wpkh ctx program stack ≡ ok tt
    → (key : Bytes) × (sig : Bytes) × (stack ≡ key ∷ sig ∷ [])
      × (ctx.crypto.hash160 key ≡ program)
      × (ctx.checker.check_ecdsa_signature sig key (build_p2pkh program) SigVersion.witness_v0
          ≡ true)
unfolding verify_p2wpkh
verify_p2wpkh-signed ctx program stack len h =
    let (two, h1) = check-eq-ok (not (length stack == 2)) _ _ h in
    let (key, sig, items) = two_items stack two in
    let executed =
      subst
        (λ s.
          execute_witness_script (env_of ctx SigVersion.witness_v0 (build_p2pkh program)) s
            default_exec_data
          ≡ ok tt)
        items h1 in
    let (same, valid) = execute_p2pkh ctx program key sig len executed in
    (key, sig, items, same, valid)

program_of :
    (ctx : Context) (witness : List Bytes) (program : Bytes)
    → length program ≡ 20
    → verify_witness_program ctx witness 0 program false ≡ ok tt
    → verify_p2wpkh ctx program (reverse witness) ≡ ok tt
unfolding verify_witness_program
program_of ctx witness program len h = rw len at h

-- With WITNESS, an input that verifies against a P2WPKH output has an empty scriptSig and a witness
-- of a signature and a public key: the key's HASH160 is the one in the output, and the signature
-- is valid for the key over the P2PKH script of that hash.
pub verify_script-p2wpkh :
    (ctx : Context) (script_sig script_pubkey : Bytes) (witness : List Bytes)
    → verify_script ctx script_sig script_pubkey witness ≡ ok tt
    → ctx.flags.witness ≡ true
    → is_p2wpkh script_pubkey ≡ true
    → (script_sig ≡ [])
      × (key : Bytes) × (sig : Bytes) × (reverse witness ≡ key ∷ sig ∷ [])
      × (ctx.crypto.hash160 key ≡ drop 2 script_pubkey)
      × (ctx.checker.check_ecdsa_signature sig key
            (build_p2pkh (drop 2 script_pubkey))
            SigVersion.witness_v0
          ≡ true)
unfolding is_p2wpkh
verify_script-p2wpkh ctx script_sig script_pubkey witness h on form =
    let program = is_witness_program-p2wpkh script_pubkey form in
    let (no_sig, accepted) =
      (verify_script-witness ctx script_sig script_pubkey witness h on).0 0 (drop 2 script_pubkey)
        program in
    let len : length (drop 2 script_pubkey) ≡ 20 = ground (arith, length-drop 2 script_pubkey) in
    let (key, sig, items, same, valid) =
      verify_p2wpkh-signed ctx (drop 2 script_pubkey) (reverse witness) len
        (program_of ctx witness (drop 2 script_pubkey) len accepted) in
    (no_sig, key, sig, items, same, valid)
