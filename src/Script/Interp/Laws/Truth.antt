-- ===== src/Script/Interp/Laws/Truth.antt =====
-- The truth of a value on the stack.
use qubitcoin.Common.{ℕ, ◌≤◌, ◌≡◌, refl, Bool, not, length, [], ◌∷◌, ◌==◌, All, arith}
use qubitcoin.Common.Int.{pos, eqb_ℤ}
use qubitcoin.Common.Bytes.{Bytes, IsByte}
use qubitcoin.Script.Num.{decode_bytes}
use qubitcoin.Script.Num.Digits.{unsigned, sign_bit, signed, decode_bytes-signed}
use qubitcoin.Script.Interp.Values.{cast_to_bool}

cast_to_bool-unsigned : (v : Bytes) → All IsByte v → cast_to_bool v ≡ not (unsigned v == 0)
unfolding cast_to_bool unsigned
cast_to_bool-unsigned [] h = refl
cast_to_bool-unsigned (b ∷ []) h = ground arith
cast_to_bool-unsigned (b ∷ c ∷ bs) h = ground (arith, cast_to_bool-unsigned (c ∷ bs) h.1)

signed-zero : (s : Bool) (n : ℕ) → eqb_ℤ (signed s n) (pos 0) ≡ (n == 0)
signed-zero s n = ground arith

-- A value of at most eight bytes is true exactly when the number it stands for is not zero; so the
-- negative zero is false.
pub cast_to_bool-decode :
    (v : Bytes)
    → All IsByte v
    → length v ≤ 8
    → cast_to_bool v ≡ not (eqb_ℤ (decode_bytes v) (pos 0))
cast_to_bool-decode v h k =
    rw (decode_bytes-signed v h k, signed-zero (sign_bit v) (unsigned v))
      (cast_to_bool-unsigned v h)
