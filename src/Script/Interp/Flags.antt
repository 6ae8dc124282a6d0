-- ===== src/Script/Interp/Flags.antt =====
-- Flags only restrict: what evaluates under more flags evaluates, to the same, under fewer.
pub mod Checks
pub mod Opcodes
pub mod Loop
use qubitcoin.Common.{
  ℕ, ◌≡◌, refl, Bool, true, false, if◌then◌else◌, ok, err, ◌>>=◌, Bool-cases, inl, inr, arith,
  Result, not, ◌&&◌, Result-cases, >>=-eq-ok,
}
use qubitcoin.Common.Bytes.{Bytes}
use qubitcoin.Script.Types.{ScriptError, Eval, throw, check, ScriptVerifyFlags}
use qubitcoin.Script.Num.{from_bytes, minimal}
use qubitcoin.Script.Interp.Values.{stack_to_script_num}

-- `f` sets no flag that `g` does not set.
pub record Fewer (f g : ScriptVerifyFlags) : Type 0 where
  pub p2sh : f.p2sh ≡ true → g.p2sh ≡ true
  pub strictenc : f.strictenc ≡ true → g.strictenc ≡ true
  pub dersig : f.dersig ≡ true → g.dersig ≡ true
  pub low_s : f.low_s ≡ true → g.low_s ≡ true
  pub nulldummy : f.nulldummy ≡ true → g.nulldummy ≡ true
  pub sigpushonly : f.sigpushonly ≡ true → g.sigpushonly ≡ true
  pub minimaldata : f.minimaldata ≡ true → g.minimaldata ≡ true
  pub discourage_upgradable_nops :
      f.discourage_upgradable_nops ≡ true → g.discourage_upgradable_nops ≡ true
  pub cleanstack : f.cleanstack ≡ true → g.cleanstack ≡ true
  pub checklocktimeverify : f.checklocktimeverify ≡ true → g.checklocktimeverify ≡ true
  pub checksequenceverify : f.checksequenceverify ≡ true → g.checksequenceverify ≡ true
  pub witness : f.witness ≡ true → g.witness ≡ true
  pub discourage_upgradable_witness_program :
      f.discourage_upgradable_witness_program ≡ true
      → g.discourage_upgradable_witness_program ≡ true
  pub minimalif : f.minimalif ≡ true → g.minimalif ≡ true
  pub nullfail : f.nullfail ≡ true → g.nullfail ≡ true
  pub witness_pubkeytype : f.witness_pubkeytype ≡ true → g.witness_pubkeytype ≡ true
  pub const_scriptcode : f.const_scriptcode ≡ true → g.const_scriptcode ≡ true
  pub taproot : f.taproot ≡ true → g.taproot ≡ true
  pub discourage_upgradable_taproot_version :
      f.discourage_upgradable_taproot_version ≡ true
      → g.discourage_upgradable_taproot_version ≡ true
  pub discourage_op_success : f.discourage_op_success ≡ true → g.discourage_op_success ≡ true
  pub discourage_upgradable_pubkeytype :
      f.discourage_upgradable_pubkeytype ≡ true → g.discourage_upgradable_pubkeytype ≡ true

-- A success of `x` is a success of `y`, with the same result.
pub record Sub {A : Type 0} (x y : Eval A) : Type 0 where
  pub at : (a : A) → x ≡ ok a → y ≡ ok a

pub Sub-refl : {A : Type 0} (x : Eval A) → Sub x x
Sub-refl x = record { at = λ a h. h }

pub Sub-throw : {A : Type 0} (e : ScriptError) (y : Eval A) → Sub (throw e) y
Sub-throw e y = record { at = λ a h. cc }

pub Sub-check :
    (b c : Bool) (e e' : ScriptError) → (c ≡ true → b ≡ true) → Sub (check b e) (check c e')
Sub-check true c e e' h = Sub-throw e _
Sub-check false true e e' h = record { at = λ a k. cc (h refl) }
Sub-check false false e e' h = Sub-refl (ok tt)

pub Sub-bind :
    {A B : Type 0} (x y : Eval A) (f g : A → Eval B)
    → Sub x y
    → ((a : A) → Sub (f a) (g a))
    → Sub (x >>= f) (y >>= g)
Sub-bind x y f g h k = record {
  at = λ b e. let (a, e1, e2) = >>=-eq-ok x f e in rw (h.at a e1) ((k a).at b e2);
}

-- What is the same whatever `x` returns.
pub Sub-after :
    {A B : Type 0} (x : Eval A) (f : A → Eval B) (y : Eval B)
    → ((a : A) → Sub (f a) y)
    → Sub (x >>= f) y
Sub-after x f y k = record { at = λ b e. let (a, e1, e2) = >>=-eq-ok x f e in (k a).at b e2 }

pub Sub-if :
    {A : Type 0} (b : Bool) (x y x' y' : Eval A)
    → Sub x x'
    → Sub y y'
    → Sub (if b then x else y) (if b then x' else y')
Sub-if true x y x' y' h k = h
Sub-if false x y x' y' h k = k

-- A branch on a flag: the stricter side may take it where the other does not.
pub Sub-if_flag :
    {A : Type 0} (b c : Bool) (x x' y : Eval A)
    → (c ≡ true → b ≡ true)
    → Sub x x'
    → Sub x y
    → Sub (if b then x else y) (if c then x' else y)
Sub-if_flag true true x x' y i h k = h
Sub-if_flag true false x x' y i h k = k
Sub-if_flag false true x x' y i h k = record { at = λ a e. cc (i refl) }
Sub-if_flag false false x x' y i h k = Sub-refl y

pub ruleset sub_rules = (Sub-refl, Sub-throw, Sub-bind, Sub-if)

-- A number that is minimal is a number.
pub Sub-stack_to_script_num :
    (v : Bytes) (m m' : Bool) (k : ℕ)
    → (m' ≡ true → m ≡ true)
    → Sub (stack_to_script_num v m k) (stack_to_script_num v m' k)
unfolding stack_to_script_num from_bytes
Sub-stack_to_script_num v m m' k h = record { at = λ a e. ground arith }
