-- ===== src/Script/Bytecode/Push.antt =====
-- What `push_data` writes, `get_op` reads back.
use qubitcoin.Common.{
  ℕ, ◌+◌, ◌^◌, ◌<◌, ◌≡◌, false, some, [], ◌∷◌, ◌++◌, ltb, leb, if◌then◌else◌, length, arith,
  length-append, take-append, drop-append,
}
use qubitcoin.Common.Bytes.{Bytes, from_le-to_le}
use qubitcoin.Script.Bytecode.{
  push_data, take_push, push_data1, push_data2, push_data4, read_op, get_op,
}

-- The opcode that `push_data` chooses.
unfoldable pub push_opcode : Bytes → ℕ
push_opcode d =
    let len = length d in
    if leb len 0x4b
    then len
    else if leb len 0xff
    then 0x4c
    else if leb len 0xffff
    then 0x4d
    else 0x4e

take_push-append :
    (opcode pc : ℕ) (d rest : Bytes)
    → take_push opcode (length d) pc (d ++ rest) ≡ some (opcode, d, pc + length d)
unfolding take_push
take_push-append opcode pc d rest =
    let enough : ltb (length (d ++ rest)) (length d) ≡ false =
      ground (arith, length-append d rest) in
    rw (enough, take-append)

read_op-push_data :
    (i : ℕ) (d rest : Bytes)
    → length d < 2 ^ 32
    → read_op i (push_data d ++ rest) ≡ some (push_opcode d, d, i + length (push_data d))
unfolding read_op push_data push_opcode push_data1 push_data2 push_data4
read_op-push_data i [] rest h = ground (arith, take_push-append 0 (i + 1) [] rest)
read_op-push_data i (b ∷ bs) rest h = ground (
  arith,
  take_push-append (length (b ∷ bs)) (i + 1) (b ∷ bs) rest,
  take_push-append 0x4c (i + 1 + 1) (b ∷ bs) rest,
  take_push-append 0x4d (i + 1 + 2) (b ∷ bs) rest,
  take_push-append 0x4e (i + 1 + 4) (b ∷ bs) rest,
  from_le-to_le 2 (length (b ∷ bs)),
  from_le-to_le 4 (length (b ∷ bs)),
)

-- After any prefix, `get_op` reads the push that `push_data` wrote for data shorter than 2^32: its
-- opcode, exactly the data, and the position behind it, whatever follows.
pub get_op-push_data :
    (pre d rest : Bytes)
    → length d < 2 ^ 32
    → get_op (pre ++ (push_data d ++ rest)) (length pre)
      ≡ some (push_opcode d, d, length pre + length (push_data d))
unfolding get_op
get_op-push_data pre d rest h = rw drop-append (read_op-push_data (length pre) d rest h)
