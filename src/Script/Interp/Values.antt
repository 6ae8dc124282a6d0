-- ===== src/Script/Interp/Values.antt =====
-- The values of the stack: truth, the numbers read from it, and the minimal push of a value.
use qubitcoin.Common.{
  ℕ, Bool, true, false, ◌&&◌, [], ◌∷◌, leb, ◌==◌, if◌then◌else◌, length, Result, ok, err,
}
use qubitcoin.Common.Int.{ℤ}
use qubitcoin.Common.Bytes.{Bytes}
use qubitcoin.Script.Types.{ScriptError, Eval, throw}
use qubitcoin.Script.Num.{ScriptNumError, from_bytes}

-- True unless every byte is zero, where the last may also be 0x80.
unfoldable pub cast_to_bool : Bytes → Bool
cast_to_bool [] = false
cast_to_bool (b ∷ []) = if b == 0 then false else if b == 0x80 then false else true
cast_to_bool (b ∷ c ∷ bs) = if b == 0 then cast_to_bool (c ∷ bs) else true

abbrev pub from_bool : Bool → Bytes
from_bool true = 1 ∷ []
from_bool false = []

abbrev pub or_script_num : Result ScriptNumError ℤ → Eval ℤ
or_script_num (ok n) = ok n
or_script_num (err e) = throw ScriptError.script_num

unfoldable pub stack_to_script_num : Bytes → Bool → ℕ → Eval ℤ
stack_to_script_num val require_minimal max_size =
    or_script_num (from_bytes val require_minimal max_size)

unfoldable pub check_minimal_push : Bytes → ℕ → Bool
check_minimal_push [] opcode = opcode == 0x00
check_minimal_push (b ∷ []) opcode =
    if leb 1 b && leb b 16 then false else if b == 0x81 then false else opcode == 1
check_minimal_push (b ∷ c ∷ bs) opcode =
    let len = length (b ∷ c ∷ bs) in
    if leb len 75
    then opcode == len
    else if leb len 255
    then opcode == 0x4c
    else if leb len 65535
    then opcode == 0x4d
    else true
