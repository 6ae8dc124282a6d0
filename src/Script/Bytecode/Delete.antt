-- ===== src/Script/Bytecode/Delete.antt =====
-- The two loops of `find_and_delete` end.
use qubitcoin.Common.{
  ℕ, zero, suc, ◌+◌, ◌≤◌, ◌<◌, ◌≡◌, refl, false, some, [], ◌∷◌, ◌++◌, ltb, if◌then◌else◌, length,
  drop, arith, Option-cases, Bool-cases, inl, inr,
}
use qubitcoin.Common.Bytes.{Bytes}
use qubitcoin.Script.Bytecode.{
  get_op, matches_at, skip_matches, delete_loop, deleted, find_and_delete, slice,
}
use qubitcoin.Script.Bytecode.Walk.{get_op-bounds, get_op_end}

-- A match lies inside the script.
matches_at-fits :
    (script pattern : Bytes) (i : ℕ)
    → 0 < length pattern
    → length script ≤ i
    → matches_at script pattern i ≡ false
unfolding matches_at
matches_at-fits script pattern i h k = ground arith

-- The inner loop ends, at the position where it began or behind it.
skip_matches-ends :
    (fuel : ℕ) (script pattern : Bytes) (i n : ℕ)
    → 0 < length pattern
    → length script ≤ i + fuel
    → (i' : ℕ) × (n' : ℕ) × (skip_matches fuel script pattern i n ≡ some (i', n')) × (i ≤ i')
unfolding skip_matches
skip_matches-ends zero script pattern i n h k =
    (i, n, rw (matches_at-fits script pattern i h (omega arith)) refl, omega arith)
skip_matches-ends (suc fuel) script pattern i n h k =
    elim (Bool-cases (matches_at script pattern i)) [
      | inr e ↦ (i, n, rw (e, skip_matches) refl, omega arith)
      | inl e ↦
          let (i', n', same, later) =
            skip_matches-ends fuel script pattern (i + length pattern) (n + 1) h (omega arith) in
          (i', n', rw (e, skip_matches) same, omega arith)
    ]

delete_loop-ends :
    (fuel : ℕ) (script pattern : Bytes) (i copy_start : ℕ) (result : Bytes) (n : ℕ)
    → 0 < length pattern
    → length script ≤ i + fuel
    → (r : Bytes × ℕ) × (delete_loop fuel script pattern i copy_start result n ≡ some r)
unfolding delete_loop
delete_loop-ends zero script pattern i c result n h k =
    ((result ++ drop c script, n), rw (get_op_end script i (omega arith), delete_loop) refl)
delete_loop-ends (suc fuel) script pattern i c result n h k =
    elim (Option-cases (get_op script i)) [
      | inl e ↦ ((result ++ drop c script, n), rw (e, delete_loop) refl)
      | inr ((o, d, j), e) ↦
          let (i', n', same, later) =
            skip_matches-ends (length script) script pattern i n h (omega arith) in
          let (lo, hi) = get_op-bounds script i o d j e in
          let next : length script ≤ (if ltb i' j then j else i') + fuel = ground arith in
          let (r, rest) =
            delete_loop-ends fuel script pattern _ i' (result ++ slice c i script) n' h next in
          (r, rw (e, delete_loop) (rw same rest))
    ]

-- `find_and_delete` ends for every script and pattern: the length of the script is fuel enough for
-- both loops.
pub find_and_delete_total :
    (script pattern : Bytes) → (r : Bytes × ℕ) × (find_and_delete script pattern ≡ some r)
unfolding find_and_delete deleted
find_and_delete_total script [] = (_, refl)
find_and_delete_total script (b ∷ bs) =
    let (r, e) =
      delete_loop-ends (length script) script (b ∷ bs) 0 0 [] 0 (omega arith) (omega arith) in
    ((if ltb 0 r.1 then r else (script, 0)), rw e refl)
