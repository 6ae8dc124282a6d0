-- ===== src/Script/Opcode/Decode.antt =====
-- `from_u8` and the opcodes' bytes are inverse to one another.
use qubitcoin.Common.{
  ℕ, ◌≡◌, refl, some, List, [], ◌∷◌, arith, All, ◌==◌, Bool-cases, inl, inr, ==_iff,
}
use qubitcoin.Script.Opcode.{Opcode, op0, to_u8, arms, lookup_arm, from_u8}

abbrev ArmFits : ℕ × Opcode → Type 0
ArmFits (b, op) = to_u8 op ≡ b

lookup_arm-ArmFits :
    (byte : ℕ) (t : List (ℕ × Opcode)) (op : Opcode)
    → All ArmFits t
    → lookup_arm byte t ≡ some op
    → to_u8 op ≡ byte
unfolding lookup_arm
lookup_arm-ArmFits byte [] op fits h = cc
lookup_arm-ArmFits byte ((b, o) ∷ rest) op fits h = elim (Bool-cases (byte == b)) [
  | inl same ↦ cc ((==_iff byte b).0 same, fits.0, rw same at h)
  | inr other ↦ lookup_arm-ArmFits byte rest op fits.1 (rw other at h)
]

arms-ArmFits : All ArmFits arms
arms-ArmFits = omega arith

-- A byte that decodes is the byte of the opcode it decodes to.
pub to_u8-from_u8 : (byte : ℕ) (op : Opcode) → from_u8 byte ≡ some op → to_u8 op ≡ byte
unfolding from_u8
to_u8-from_u8 byte op h = lookup_arm-ArmFits byte arms op arms-ArmFits h

-- Every opcode is decoded from its byte, so no two opcodes share one.
pub from_u8-to_u8 : (op : Opcode) → from_u8 (to_u8 op) ≡ some op
unfolding from_u8
from_u8-to_u8 op0 = refl
from_u8-to_u8 _ = refl
