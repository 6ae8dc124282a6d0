-- ===== src/Script/Bytecode/Walk.antt =====
-- `get_op` moves forward and stays inside the script, so every walk over a script ends.
use qubitcoin.Common.{
  ℕ, zero, suc, ◌+◌, ◌≤◌, ◌<◌, ◌≡◌, refl, ap, none, some, [], ◌∷◌, length, drop, arith,
  Option-cases, inl, inr, length-drop, length-take,
}
use qubitcoin.Common.Bytes.{Bytes, from_le}
use qubitcoin.Script.Bytecode.{
  take_push, push_data1, push_data2, push_data4, read_op, get_op, ops_from, iter_ops,
}

take_push-bounds :
    (opcode n pc : ℕ) (rest : Bytes) (o : ℕ) (d : Bytes) (j : ℕ)
    → take_push opcode n pc rest ≡ some (o, d, j)
    → (o ≡ opcode) × (j ≡ pc + length d) × (j ≤ pc + length rest)
unfolding take_push
take_push-bounds opcode n pc rest o d j e = ground (arith, length-take n rest)

module _ (pc o : ℕ) (d : Bytes) (j : ℕ) where
  push_data1-bounds :
      (rest : Bytes)
      → push_data1 pc rest ≡ some (o, d, j)
      → (pc + length d < j) × (j ≤ pc + length rest)
  unfolding push_data1
  push_data1-bounds [] e = cc
  push_data1-bounds (n ∷ rest) e = ground (arith, take_push-bounds 0x4c n (pc + 1) rest o d j)

  push_data2-bounds :
      (rest : Bytes)
      → push_data2 pc rest ≡ some (o, d, j)
      → (pc + length d < j) × (j ≤ pc + length rest)
  unfolding push_data2
  push_data2-bounds (a ∷ b ∷ rest) e =
      ground (arith, take_push-bounds 0x4d (from_le (a ∷ b ∷ [])) (pc + 2) rest o d j)
  push_data2-bounds _ e = cc

  push_data4-bounds :
      (rest : Bytes)
      → push_data4 pc rest ≡ some (o, d, j)
      → (pc + length d < j) × (j ≤ pc + length rest)
  unfolding push_data4
  push_data4-bounds (a ∷ b ∷ c ∷ e ∷ rest) h =
      ground (arith, take_push-bounds 0x4e (from_le (a ∷ b ∷ c ∷ e ∷ [])) (pc + 4) rest o d j)
  push_data4-bounds _ e = cc

read_op-bounds :
    (i : ℕ) (bs : Bytes) (o : ℕ) (d : Bytes) (j : ℕ)
    → read_op i bs ≡ some (o, d, j)
    → (i + length d < j) × (j ≤ i + length bs)
unfolding read_op
read_op-bounds i [] o d j e = cc
read_op-bounds i (b ∷ bs) o d j e = ground (
  arith,
  take_push-bounds b b (i + 1) bs o d j,
  push_data1-bounds (i + 1) o d j bs,
  push_data2-bounds (i + 1) o d j bs,
  push_data4-bounds (i + 1) o d j bs,
)

read_op-nil : (i : ℕ) → read_op i [] ≡ none
unfolding read_op
read_op-nil i = refl

-- An instruction read at `i` lies inside the script, takes a byte at least, and its data is shorter
-- than what it takes.
pub get_op-bounds :
    (script : Bytes) (i o : ℕ) (d : Bytes) (j : ℕ)
    → get_op script i ≡ some (o, d, j)
    → (i + length d < j) × (j ≤ length script)
unfolding get_op
get_op-bounds script i o d j e =
    ground (arith, read_op-bounds i (drop i script) o d j e, length-drop i script, short)
  where
    short : length (drop i script) ≡ 0 → ⊥
    short z = ground (arith, read_op-nil i, empty (drop i script) z)
      where
        empty : (bs : Bytes) → length bs ≡ 0 → bs ≡ []
        empty [] h = refl
        empty (b ∷ bs) h = absurd (omega arith)

-- Behind the end there is no instruction.
pub get_op_end : (script : Bytes) (i : ℕ) → length script ≤ i → get_op script i ≡ none
get_op_end script i h = elim (Option-cases (get_op script i)) [
  | inl e ↦ e
  | inr ((o, d, j), e) ↦ absurd (omega (arith, get_op-bounds script i o d j e))
]

-- With fuel for the bytes that are left the walk of `ops_from` is complete: the list of instructions
-- does not depend on the fuel.
pub ops_from_enough :
    (f g : ℕ) (script : Bytes) (i : ℕ)
    → length script < i + f
    → length script < i + g
    → ops_from f script i ≡ ops_from g script i
unfolding ops_from
ops_from_enough zero zero script i h k = refl
ops_from_enough zero (suc g) script i h k = rw (get_op_end script i (omega arith), ops_from)
ops_from_enough (suc f) zero script i h k = rw (get_op_end script i (omega arith), ops_from)
ops_from_enough (suc f) (suc g) script i h k = elim (Option-cases (get_op script i)) [
  | inl e ↦ rw (e, ops_from)
  | inr ((o, d, j), e) ↦
      let (lo, hi) = get_op-bounds script i o d j e in
      rw (e, ops_from)
        (ap (λ t. (o, d) ∷ t) (ops_from_enough f g script j (omega arith) (omega arith)))
]

-- `iter_ops` is the complete walk: more fuel gives the same instructions.
iter_ops-ops_from :
    (fuel : ℕ) (script : Bytes) → length script < fuel → iter_ops script ≡ ops_from fuel script 0
unfolding iter_ops
iter_ops-ops_from fuel script h =
    ops_from_enough (suc (length script)) fuel script 0 (omega arith) (omega (arith, h))
