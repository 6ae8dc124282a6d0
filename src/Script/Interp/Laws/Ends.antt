-- ===== src/Script/Interp/Laws/Ends.antt =====
-- No opcode runs out of fuel: only the loops have any.
use qubitcoin.Common.{ℕ, ◌≢◌, Bool, true, false, [], ◌∷◌, if◌then◌else◌, ok, err, ◌>>=◌}
use qubitcoin.Common.Bytes.{Bytes}
use qubitcoin.Script.Types.{ScriptError, out_of_fuel, Eval, throw, check}
use qubitcoin.Script.Num.{from_bytes}
use qubitcoin.Script.Interp.Machine.{Stack}
use qubitcoin.Script.Interp.Values.{stack_to_script_num, or_script_num}
use qubitcoin.Script.Opcode.{Opcode}
use qubitcoin.Script.Interp.Numeric.{unary_op, binary_op, num_equal_verify, within}
use qubitcoin.Script.Interp.StackOps.{
  verify, two_drop, two_dup, three_dup, two_over, two_rot, two_swap, if_dup, depth, drop_top, dup,
  nip, over, pick_or_roll, rot, swap, tuck, size, equal, equal_verify, hash_top,
}

pub data Ends {A : Type 0} : Eval A → Type 0 where
  returns : (a : A) → Ends (ok a)
  fails : (e : ScriptError) → Ends (throw e)

pub Ends-check : (b : Bool) (e : ScriptError) → Ends (check b e)
Ends-check true e = fails e
Ends-check false e = returns tt

pub Ends-if : {A : Type 0} (b : Bool) (x y : Eval A) → Ends x → Ends y → Ends (if b then x else y)
Ends-if true x y h k = h
Ends-if false x y h k = k

pub Ends-bind :
    {A B : Type 0} (m : Eval A) (f : A → Eval B) → Ends m → ((a : A) → Ends (f a)) → Ends (m >>= f)
Ends-bind m f (returns a) k = k a
Ends-bind m f (fails e) k = fails e

pub Ends-total : {A : Type 0} (r : Eval A) → Ends r → r ≢ err out_of_fuel
Ends-total r (returns a) h = cc
Ends-total r (fails e) h = cc

pub ruleset ends_rules = (returns, fails, Ends-check, Ends-if, Ends-bind)

pub Ends-verify : (s : Stack) → Ends (verify s)
unfolding verify
Ends-verify (a ∷ s) = search ends_rules
Ends-verify _ = search ends_rules

pub Ends-two_drop : (s : Stack) → Ends (two_drop s)
unfolding two_drop
Ends-two_drop (a ∷ b ∷ s) = search ends_rules
Ends-two_drop _ = search ends_rules

pub Ends-two_dup : (s : Stack) → Ends (two_dup s)
unfolding two_dup
Ends-two_dup (a ∷ b ∷ s) = search ends_rules
Ends-two_dup _ = search ends_rules

pub Ends-three_dup : (s : Stack) → Ends (three_dup s)
unfolding three_dup
Ends-three_dup (a ∷ b ∷ c ∷ s) = search ends_rules
Ends-three_dup _ = search ends_rules

pub Ends-two_over : (s : Stack) → Ends (two_over s)
unfolding two_over
Ends-two_over (a ∷ b ∷ c ∷ d ∷ s) = search ends_rules
Ends-two_over _ = search ends_rules

pub Ends-two_rot : (s : Stack) → Ends (two_rot s)
unfolding two_rot
Ends-two_rot (a ∷ b ∷ c ∷ d ∷ e ∷ f ∷ s) = search ends_rules
Ends-two_rot _ = search ends_rules

pub Ends-two_swap : (s : Stack) → Ends (two_swap s)
unfolding two_swap
Ends-two_swap (a ∷ b ∷ c ∷ d ∷ s) = search ends_rules
Ends-two_swap _ = search ends_rules

pub Ends-if_dup : (s : Stack) → Ends (if_dup s)
unfolding if_dup
Ends-if_dup (a ∷ s) = search ends_rules
Ends-if_dup _ = search ends_rules

pub Ends-depth : (s : Stack) → Ends (depth s)
unfolding depth
Ends-depth s = search ends_rules

pub Ends-drop_top : (s : Stack) → Ends (drop_top s)
unfolding drop_top
Ends-drop_top (a ∷ s) = search ends_rules
Ends-drop_top _ = search ends_rules

pub Ends-dup : (s : Stack) → Ends (dup s)
unfolding dup
Ends-dup (a ∷ s) = search ends_rules
Ends-dup _ = search ends_rules

pub Ends-nip : (s : Stack) → Ends (nip s)
unfolding nip
Ends-nip (a ∷ b ∷ s) = search ends_rules
Ends-nip _ = search ends_rules

pub Ends-over : (s : Stack) → Ends (over s)
unfolding over
Ends-over (a ∷ b ∷ s) = search ends_rules
Ends-over _ = search ends_rules

pub Ends-rot : (s : Stack) → Ends (rot s)
unfolding rot
Ends-rot (a ∷ b ∷ c ∷ s) = search ends_rules
Ends-rot _ = search ends_rules

pub Ends-swap : (s : Stack) → Ends (swap s)
unfolding swap
Ends-swap (a ∷ b ∷ s) = search ends_rules
Ends-swap _ = search ends_rules

pub Ends-tuck : (s : Stack) → Ends (tuck s)
unfolding tuck
Ends-tuck (a ∷ b ∷ s) = search ends_rules
Ends-tuck _ = search ends_rules

pub Ends-size : (s : Stack) → Ends (size s)
unfolding size
Ends-size (a ∷ s) = search ends_rules
Ends-size _ = search ends_rules

pub Ends-equal : (s : Stack) → Ends (equal s)
unfolding equal
Ends-equal (a ∷ b ∷ s) = search ends_rules
Ends-equal _ = search ends_rules

pub Ends-equal_verify : (s : Stack) → Ends (equal_verify s)
unfolding equal_verify
Ends-equal_verify (a ∷ b ∷ s) = search ends_rules
Ends-equal_verify _ = search ends_rules

pub Ends-hash_top : (hash : Bytes → Bytes) (s : Stack) → Ends (hash_top hash s)
unfolding hash_top
Ends-hash_top hash [] = search ends_rules
Ends-hash_top hash (a ∷ s) = search ends_rules

pub Ends-stack_to_script_num : (v : Bytes) (m : Bool) (k : ℕ) → Ends (stack_to_script_num v m k)
unfolding stack_to_script_num
Ends-stack_to_script_num v m k = elim (from_bytes v m k) as (λ r. Ends (or_script_num r)) [
  | ok n ↦ returns n
  | err e ↦ fails _
]

pub Ends-pick_or_roll : (roll m : Bool) (s : Stack) → Ends (pick_or_roll roll m s)
unfolding pick_or_roll
Ends-pick_or_roll roll m [] = search ends_rules
Ends-pick_or_roll roll m (n ∷ []) = search ends_rules
Ends-pick_or_roll roll m (n ∷ a ∷ s) = search (ends_rules, Ends-stack_to_script_num)

pub Ends-unary_op : (op : Opcode) (m : Bool) (s : Stack) → Ends (unary_op op m s)
unfolding unary_op
Ends-unary_op op m [] = search ends_rules
Ends-unary_op op m (a ∷ s) = search (ends_rules, Ends-stack_to_script_num)

pub Ends-binary_op : (op : Opcode) (m : Bool) (s : Stack) → Ends (binary_op op m s)
unfolding binary_op
Ends-binary_op op m (a ∷ b ∷ s) = search (ends_rules, Ends-stack_to_script_num)
Ends-binary_op op m _ = search ends_rules

pub Ends-num_equal_verify : (s : Stack) → Ends (num_equal_verify s)
unfolding num_equal_verify
Ends-num_equal_verify [] = search ends_rules
Ends-num_equal_verify (a ∷ s) = search ends_rules

pub Ends-within : (m : Bool) (s : Stack) → Ends (within m s)
unfolding within
Ends-within m (a ∷ b ∷ c ∷ s) = search (ends_rules, Ends-stack_to_script_num)
Ends-within m _ = search ends_rules

pub ruleset stack_ends = (
  ends_rules, Ends-pick_or_roll, Ends-unary_op, Ends-binary_op, Ends-num_equal_verify, Ends-within,
  Ends-hash_top, Ends-verify, Ends-two_drop, Ends-two_dup, Ends-three_dup, Ends-two_over,
  Ends-two_rot, Ends-two_swap, Ends-if_dup, Ends-depth, Ends-drop_top, Ends-dup, Ends-nip,
  Ends-over, Ends-rot, Ends-swap, Ends-tuck, Ends-size, Ends-equal, Ends-equal_verify,
)
