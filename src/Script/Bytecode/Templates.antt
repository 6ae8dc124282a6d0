-- ===== src/Script/Bytecode/Templates.antt =====
-- The scripts that are recognised by their form: a witness program is a small integer and one push.
use qubitcoin.Common.{
  ℕ, ◌||◌, ◌+◌, ◌≤◌, ◌<◌, ◌≡◌, refl, true, none, some, [], ◌∷◌, ◌++◌, ◌==◌, if◌then◌else◌, length,
  drop, arith,
}
use qubitcoin.Common.Int.{pos}
use qubitcoin.Common.Bytes.{Bytes}
use qubitcoin.Script.Bytecode.{
  push_data, push_int, is_p2sh, is_p2wpkh, is_p2wsh, is_p2tr, is_witness_program,
}

push_data_small : (p : Bytes) → 1 ≤ length p → length p ≤ 75 → push_data p ≡ length p ∷ p
unfolding push_data
push_data_small p h k = ground arith

version_byte : (v : ℕ) → v ≤ 16 → push_int (pos v) ≡ (if v == 0 then 0 else 0x50 + v) ∷ []
unfolding push_int
version_byte v h = ground arith

program_fits :
    (v : ℕ) (p : Bytes)
    → v ≤ 16
    → 2 ≤ length p
    → length p ≤ 40
    → is_witness_program ((if v == 0 then 0 else 0x50 + v) ∷ length p ∷ p) ≡ some (v, p)
unfolding is_witness_program
program_fits v p h k l = ground arith

-- The push of a version from 0 to 16 followed by the push of a program of 2 to 40 bytes is the
-- witness program with that version and that program.
pub is_witness_program-push :
    (v : ℕ) (p : Bytes)
    → v ≤ 16
    → 2 ≤ length p
    → length p ≤ 40
    → is_witness_program (push_int (pos v) ++ push_data p) ≡ some (v, p)
is_witness_program-push v p h k l =
    rw (version_byte v h, push_data_small p (omega arith) (omega arith)) (program_fits v p h k l)

program_short : (s : Bytes) → length s < 4 → is_witness_program s ≡ none
unfolding is_witness_program
program_short s h = ground arith

program_form :
    (a b : ℕ) (r : Bytes) (v : ℕ) (p : Bytes)
    → is_witness_program (a ∷ b ∷ r) ≡ some (v, p)
    → (v ≤ 16)
      × (2 ≤ length p)
      × (length p ≤ 40)
      × (p ≡ r)
      × (b ≡ length p)
      × (a ≡ (if v == 0 then 0 else 0x50 + v))
unfolding is_witness_program
program_form a b r v p e = ground arith

-- Nothing else is one: a script recognised as the witness program of a version and a program is the
-- push of that version followed by the push of that program, of 2 to 40 bytes, and the version is
-- at most 16.
pub is_witness_program-form :
    (s : Bytes) (v : ℕ) (p : Bytes)
    → is_witness_program s ≡ some (v, p)
    → (s ≡ push_int (pos v) ++ push_data p) × (v ≤ 16) × (2 ≤ length p) × (length p ≤ 40)
is_witness_program-form [] v p e = cc (program_short [] (omega arith))
is_witness_program-form (a ∷ []) v p e = cc (program_short (a ∷ []) (omega arith))
is_witness_program-form (a ∷ b ∷ r) v p e =
    let (small, low, high, same, len, version) = program_form a b r v p e in
    (
      rw
          (
            version_byte v small,
            push_data_small p (omega arith) (omega arith),
            ← same,
            ← len,
            ← version,
          )
          refl,
      small,
      low,
      high,
    )

-- The tests on the outputs agree with the witness programs: of the scripts that pass one of them, a P2TR
-- output is a program of version 1, a P2WSH or P2WPKH output one of version 0, and a P2SH output none.
pub is_witness_program-outputs :
    (s : Bytes)
    → is_p2tr s || is_p2wsh s || is_p2wpkh s || is_p2sh s ≡ true
    → is_witness_program s
      ≡ (if is_p2sh s then none else some ((if is_p2tr s then 1 else 0), drop 2 s))
unfolding is_witness_program is_p2tr is_p2wsh is_p2wpkh is_p2sh
is_witness_program-outputs s h = ground arith

pub is_witness_program-p2wpkh :
    (s : Bytes) → is_p2wpkh s ≡ true → is_witness_program s ≡ some (0, drop 2 s)
unfolding is_witness_program is_p2wpkh
is_witness_program-p2wpkh s h = ground arith
