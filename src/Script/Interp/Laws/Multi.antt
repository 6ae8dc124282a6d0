-- ===== src/Script/Interp/Laws/Multi.antt =====
-- The matching loop of OP_CHECKMULTISIG against its meaning: the signatures, in their order, fit
-- some of the keys, in theirs.
use qubitcoin.Common.{
  ◌≤◌, ◌≡◌, ◌↔◌, refl, Bool, true, false, List, [], ◌∷◌, ltb, if◌then◌else◌, length, ok, arith, inl,
  inr, Bool-cases, >>=-eq-ok,
}
use qubitcoin.Common.Bytes.{Bytes}
use qubitcoin.Script.Types.{Eval}
use qubitcoin.Script.Interp.Machine.{Env}
use qubitcoin.Script.Interp.Encoding.{check_signature_encoding, check_pubkey_encoding}
use qubitcoin.Script.Interp.MultiSig.{match_signatures}

-- Every signature fits a key of its own, and a later signature a later key.
pub data Matches (fits : Bytes → Bytes → Bool) : List Bytes → List Bytes → Type 0 where
  all_used : (keys : List Bytes) → Matches fits [] keys
  fit :
      (sig key : Bytes) (sigs keys : List Bytes)
      → fits sig key ≡ true
      → Matches fits sigs keys
      → Matches fits (sig ∷ sigs) (key ∷ keys)
  skip :
      (sig key : Bytes) (sigs keys : List Bytes)
      → Matches fits (sig ∷ sigs) keys
      → Matches fits (sig ∷ sigs) (key ∷ keys)

module _ (fits : Bytes → Bytes → Bool) where
  Matches-weaken :
      (key : Bytes) (sigs keys : List Bytes)
      → Matches fits sigs keys
      → Matches fits sigs (key ∷ keys)
  Matches-weaken key [] keys m = all_used (key ∷ keys)
  Matches-weaken key (sig ∷ sigs) keys m = skip sig key sigs keys m

  Matches-tail :
      (sig : Bytes) (sigs keys : List Bytes)
      → Matches fits (sig ∷ sigs) keys
      → Matches fits sigs keys
  Matches-tail sig sigs [] m = elim m [ ]
  Matches-tail sig sigs (key ∷ keys) (fit _ _ _ _ e m) = Matches-weaken key sigs keys m
  Matches-tail sig sigs (key ∷ keys) (skip _ _ _ _ m) =
      Matches-weaken key sigs keys (Matches-tail sig sigs keys m)

  Matches-length : (sigs keys : List Bytes) → Matches fits sigs keys → length sigs ≤ length keys
  Matches-length [] keys (all_used _) = omega arith
  Matches-length (sig ∷ sigs) [] m = elim m [ ]
  Matches-length (sig ∷ sigs) (key ∷ keys) (fit _ _ _ _ e m) =
      omega (arith, Matches-length sigs keys m)
  Matches-length (sig ∷ sigs) (key ∷ keys) (skip _ _ _ _ m) =
      omega (arith, Matches-length (sig ∷ sigs) keys m)

  -- To use a key as soon as it fits loses nothing.
  Matches-step :
      (sig key : Bytes) (sigs keys : List Bytes)
      → Matches fits (sig ∷ sigs) (key ∷ keys)
      → Matches fits (if fits sig key then sigs else sig ∷ sigs) keys
  Matches-step sig key sigs keys (fit _ _ _ _ e m) = rw e m
  Matches-step sig key sigs keys (skip _ _ _ _ m) = elim (Bool-cases (fits sig key)) [
    | inl e ↦ rw e (Matches-tail sig sigs keys m)
    | inr e ↦ rw e m
  ]

  Matches-back :
      (sig key : Bytes) (sigs keys : List Bytes) (b : Bool)
      → fits sig key ≡ b
      → Matches fits (if b then sigs else sig ∷ sigs) keys
      → Matches fits (sig ∷ sigs) (key ∷ keys)
  Matches-back sig key sigs keys true e m = fit sig key sigs keys e m
  Matches-back sig key sigs keys false e m = skip sig key sigs keys m

-- Whether a signature fits a key, for the checker of an evaluation.
abbrev pub fits_in : Env → Bytes → Bytes → Bytes → Bool
fits_in env code sig key = env.checker.check_ecdsa_signature sig key code env.sigversion

module _ (env : Env) (code : Bytes) where
  Agrees : Bool → List Bytes → List Bytes → Type 0
  Agrees b sigs keys = (b ≡ true) ↔ Matches (fits_in env code) sigs keys

  -- The last test of a round, on whether there are keys enough.
  round-Agrees :
      (b : Bool) (left keys : List Bytes) (r : Eval Bool)
      → (r ≡ ok b → Agrees b left keys)
      → (if ltb (length keys) (length left) then ok false else r) ≡ ok b
      → Agrees b left keys
  unfolding Agrees
  round-Agrees b left keys r ih h = elim (Bool-cases (ltb (length keys) (length left))) [
    | inl few ↦
        (λ t. ground arith, λ m. ground (arith, Matches-length (fits_in env code) left keys m))
    | inr enough ↦ ih (ground arith)
  ]

  -- Where the matching loop of OP_CHECKMULTISIG returns, it returns true exactly when the signatures,
  -- in their order, fit some of the keys, in theirs: every signature a key of its own.
  pub match_signatures-Matches :
      (sigs keys : List Bytes) (b : Bool)
      → match_signatures env code sigs keys ≡ ok b
      → (b ≡ true) ↔ Matches (fits_in env code) sigs keys
  unfolding match_signatures Agrees
  match_signatures-Matches [] keys b h = (λ e. all_used keys, λ m. ground arith)
  match_signatures-Matches (sig ∷ sigs) [] b h = (λ e. ground arith, λ m. elim m [ ])
  match_signatures-Matches (sig ∷ sigs) (key ∷ keys) b h =
      let left : List Bytes = if fits_in env code sig key then sigs else sig ∷ sigs in
      let (u, e1, h1) = >>=-eq-ok (check_signature_encoding env.crypto env.flags sig) _ h in
      let (v, e2, h2) = >>=-eq-ok (check_pubkey_encoding env.flags env.sigversion key) _ h1 in
      let agrees = round-Agrees b left keys _ (match_signatures-Matches left keys b) h2 in
      (
        λ e. Matches-back (fits_in env code) sig key sigs keys _ refl (agrees.0 e),
        λ m. agrees.1 (Matches-step (fits_in env code) sig key sigs keys m),
      )
