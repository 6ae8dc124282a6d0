-- ===== src/Script/Interp/Laws/Minimal.antt =====
-- The minimal pushes.
use qubitcoin.Common.{
  ℕ, ◌≤◌, ◌≡◌, refl, Bool, true, false, ◌&&◌, [], ◌∷◌, leb, ◌==◌, if◌then◌else◌, length, arith,
}
use qubitcoin.Common.Bytes.{Bytes}
use qubitcoin.Script.Bytecode.Push.{push_opcode}
use qubitcoin.Script.Interp.Values.{check_minimal_push}

-- The values that have an opcode of their own: 1 to 16, and -1.
abbrev pub has_own_opcode : Bytes → Bool
has_own_opcode [] = false
has_own_opcode (b ∷ []) = if leb 1 b && leb b 16 then true else b == 0x81
has_own_opcode (b ∷ c ∷ bs) = false

-- A push of data below 2^16 bytes is minimal exactly when the data has no opcode of its own and the
-- opcode is the one that `push_data` chooses for it.
pub check_minimal_push-push_data :
    (d : Bytes) (opcode : ℕ)
    → length d ≤ 65535
    → check_minimal_push d opcode ≡ (if has_own_opcode d then false else opcode == push_opcode d)
unfolding check_minimal_push push_opcode
check_minimal_push-push_data [] opcode h = refl
check_minimal_push-push_data (b ∷ []) opcode h = ground arith
check_minimal_push-push_data (b ∷ c ∷ bs) opcode h = ground arith
