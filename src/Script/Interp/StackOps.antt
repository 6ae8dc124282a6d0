-- ===== src/Script/Interp/StackOps.antt =====
-- The opcodes that move values on the stack. A clause for a stack that is deep enough stands for
-- the test on its size, and the other clause for the error.
use qubitcoin.Common.{
  ◌+◌, Bool, ◌||◌, [], ◌∷◌, ◌++◌, leb, if◌then◌else◌, length, get_or, take, drop, ok, ◌>>=◌, ◌>>◌,
}
use qubitcoin.Common.Int.{ℤ, pos, abs, ltb_ℤ}
use qubitcoin.Common.Bytes.{Bytes, bytes_eq}
use qubitcoin.Script.Num.{default_max_num_size, encode_i64, getint}
use qubitcoin.Script.Types.{ScriptError, Eval, throw, check}
use qubitcoin.Script.Interp.Machine.{Stack}
use qubitcoin.Script.Interp.Values.{cast_to_bool, from_bool, stack_to_script_num}

abbrev pub too_short : {A : Type 0} → Eval A
too_short = throw ScriptError.invalid_stack_operation

unfoldable pub verify : Stack → Eval Stack
verify (a ∷ s) = if cast_to_bool a then ok s else throw ScriptError.verify
verify [] = too_short

unfoldable pub two_drop : Stack → Eval Stack
two_drop (a ∷ b ∷ s) = ok s
two_drop _ = too_short

unfoldable pub two_dup : Stack → Eval Stack
two_dup (b ∷ a ∷ s) = ok (b ∷ a ∷ b ∷ a ∷ s)
two_dup _ = too_short

unfoldable pub three_dup : Stack → Eval Stack
three_dup (c ∷ b ∷ a ∷ s) = ok (c ∷ b ∷ a ∷ c ∷ b ∷ a ∷ s)
three_dup _ = too_short

unfoldable pub two_over : Stack → Eval Stack
two_over (d ∷ c ∷ b ∷ a ∷ s) = ok (b ∷ a ∷ d ∷ c ∷ b ∷ a ∷ s)
two_over _ = too_short

unfoldable pub two_rot : Stack → Eval Stack
two_rot (f ∷ e ∷ d ∷ c ∷ b ∷ a ∷ s) = ok (b ∷ a ∷ f ∷ e ∷ d ∷ c ∷ s)
two_rot _ = too_short

unfoldable pub two_swap : Stack → Eval Stack
two_swap (d ∷ c ∷ b ∷ a ∷ s) = ok (b ∷ a ∷ d ∷ c ∷ s)
two_swap _ = too_short

unfoldable pub if_dup : Stack → Eval Stack
if_dup (a ∷ s) = if cast_to_bool a then ok (a ∷ a ∷ s) else ok (a ∷ s)
if_dup [] = too_short

unfoldable pub depth : Stack → Eval Stack
depth s = ok (encode_i64 (pos (length s)) ∷ s)

unfoldable pub drop_top : Stack → Eval Stack
drop_top (a ∷ s) = ok s
drop_top [] = too_short

unfoldable pub dup : Stack → Eval Stack
dup (a ∷ s) = ok (a ∷ a ∷ s)
dup [] = too_short

unfoldable pub nip : Stack → Eval Stack
nip (b ∷ a ∷ s) = ok (b ∷ s)
nip _ = too_short

unfoldable pub over : Stack → Eval Stack
over (b ∷ a ∷ s) = ok (a ∷ b ∷ a ∷ s)
over _ = too_short

-- `n < 0 || n as usize >= stack.size()`
abbrev out_of_stack : ℤ → Stack → Bool
out_of_stack n s = ltb_ℤ n (pos 0) || leb (length s) (abs n)

-- OP_PICK, and OP_ROLL, which removes the value as well.
unfoldable pub pick_or_roll : Bool → Bool → Stack → Eval Stack
pick_or_roll roll require_minimal (n_val ∷ a ∷ s) = do
  sn ← stack_to_script_num n_val require_minimal default_max_num_size
  check (out_of_stack (getint sn) (a ∷ s)) ScriptError.invalid_stack_operation
  let n = abs (getint sn)
  let vch = get_or (a ∷ s) n []
  ok (vch ∷ (if roll then take n (a ∷ s) ++ drop (n + 1) (a ∷ s) else a ∷ s))
pick_or_roll roll require_minimal _ = too_short

unfoldable pub rot : Stack → Eval Stack
rot (c ∷ b ∷ a ∷ s) = ok (a ∷ c ∷ b ∷ s)
rot _ = too_short

unfoldable pub swap : Stack → Eval Stack
swap (b ∷ a ∷ s) = ok (a ∷ b ∷ s)
swap _ = too_short

unfoldable pub tuck : Stack → Eval Stack
tuck (b ∷ a ∷ s) = ok (b ∷ a ∷ b ∷ s)
tuck _ = too_short

unfoldable pub size : Stack → Eval Stack
size (a ∷ s) = ok (encode_i64 (pos (length a)) ∷ a ∷ s)
size [] = too_short

unfoldable pub equal : Stack → Eval Stack
equal (b ∷ a ∷ s) = ok (from_bool (bytes_eq a b) ∷ s)
equal _ = too_short

unfoldable pub equal_verify : Stack → Eval Stack
equal_verify (b ∷ a ∷ s) = if bytes_eq a b then ok s else throw ScriptError.equal_verify
equal_verify _ = too_short

-- The hash opcodes, over the hash function.
unfoldable pub hash_top : (Bytes → Bytes) → Stack → Eval Stack
hash_top hash (a ∷ s) = ok (hash a ∷ s)
hash_top hash [] = too_short
