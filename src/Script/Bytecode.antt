-- ===== src/Script/Bytecode.antt =====
-- `Script` of crates/qubitcoin-script/src/script.rs: a byte string read as opcodes and pushes. A
-- position is a number of bytes from the start, and what lies there is `drop pos script`.
pub mod Push
pub mod Walk
pub mod Delete
pub mod Templates
use qubitcoin.Common.{
  ℕ, zero, suc, ◌+◌, ◌-◌, ◌%◌, ◌^◌, Bool, true, false, not, ◌&&◌, ◌||◌, Option, none, some, List,
  [], ◌∷◌, ◌++◌, ltb, leb, ◌==◌, if◌then◌else◌, length, take, drop, get_or,
}
use qubitcoin.Common.Int.{ℤ, pos, negsuc, eqb_ℤ, leb_ℤ}
use qubitcoin.Common.Bytes.{Bytes, to_le, from_le, bytes_eq}
use qubitcoin.Script.Opcode.{
  Opcode, op_check_sig, op_check_sig_verify, op_check_multi_sig, op_check_multi_sig_verify, from_u8,
}
use qubitcoin.Script.Num.{encode_i64}

abbrev pub max_script_size : ℕ
max_script_size = 10000

abbrev pub max_pubkeys_per_multisig : ℕ
max_pubkeys_per_multisig = 20

-- `push_data(data)`: what it appends to the script.
unfoldable pub push_data : Bytes → Bytes
push_data d =
    let len = length d in
    if len == 0
    then 0x00 ∷ []
    else if leb len 0x4b
    then len ∷ d
    else if leb len 0xff
    then 0x4c ∷ len ∷ d
    else if leb len 0xffff
    then 0x4d ∷ (to_le 2 len ++ d)
    else 0x4e ∷ (to_le 4 len ++ d)

-- `push_int(n)`: `n as u8` of -1 is 0xff, and 0xff + 0x50 wraps to 0x4f.
unfoldable pub push_int : ℤ → Bytes
push_int (negsuc zero) = (0xff + 0x50) % 256 ∷ []
push_int (negsuc (suc n)) = push_data (encode_i64 (negsuc (suc n)))
push_int (pos n) =
    if leb 1 n && leb n 16
    then (n % 256 + 0x50) % 256 ∷ []
    else if n == 0
    then 0x00 ∷ []
    else push_data (encode_i64 (pos n))

-- `n` bytes of data from position `pc`, where `rest` lies; `none` where the script is too short.
unfoldable pub take_push : ℕ → ℕ → ℕ → Bytes → Option (ℕ × Bytes × ℕ)
take_push opcode n pc rest =
    if ltb (length rest) n then none else some (opcode, take n rest, pc + n)

unfoldable pub push_data1 : ℕ → Bytes → Option (ℕ × Bytes × ℕ)
push_data1 pc [] = none
push_data1 pc (n ∷ rest) = take_push 0x4c n (pc + 1) rest

unfoldable pub push_data2 : ℕ → Bytes → Option (ℕ × Bytes × ℕ)
push_data2 pc (a ∷ b ∷ rest) = take_push 0x4d (from_le (a ∷ b ∷ [])) (pc + 2) rest
push_data2 pc _ = none

unfoldable pub push_data4 : ℕ → Bytes → Option (ℕ × Bytes × ℕ)
push_data4 pc (a ∷ b ∷ c ∷ d ∷ rest) = take_push 0x4e (from_le (a ∷ b ∷ c ∷ d ∷ [])) (pc + 4) rest
push_data4 pc _ = none

-- The instruction at position `i`, where the bytes given lie.
unfoldable pub read_op : ℕ → Bytes → Option (ℕ × Bytes × ℕ)
read_op i [] = none
read_op i (opcode ∷ rest) =
    let pc = i + 1 in
    if leb opcode 0x4b
    then take_push opcode opcode pc rest
    else if opcode == 0x4c
    then push_data1 pc rest
    else if opcode == 0x4d
    then push_data2 pc rest
    else if opcode == 0x4e
    then push_data4 pc rest
    else some (opcode, [], pc)

-- `get_op(i)`: the opcode, its data and the next position.
unfoldable pub get_op : Bytes → ℕ → Option (ℕ × Bytes × ℕ)
unfolding read_op
get_op script i = read_op i (drop i script)

-- `data[i]`, where the tests before it on the length make `i` an index.
abbrev pub at : Bytes → ℕ → ℕ
at script i = get_or script i 0

unfoldable pub is_p2sh : Bytes → Bool
is_p2sh s = length s == 23 && at s 0 == 0xa9 && at s 1 == 0x14 && at s 22 == 0x87

unfoldable pub is_p2pkh : Bytes → Bool
is_p2pkh s =
    length s == 25
    && at s 0 == 0x76
    && at s 1 == 0xa9
    && at s 2 == 0x14
    && at s 23 == 0x88
    && at s 24 == 0xac

unfoldable pub is_p2wpkh : Bytes → Bool
is_p2wpkh s = length s == 22 && at s 0 == 0x00 && at s 1 == 0x14

unfoldable pub is_p2wsh : Bytes → Bool
is_p2wsh s = length s == 34 && at s 0 == 0x00 && at s 1 == 0x20

unfoldable pub is_p2tr : Bytes → Bool
is_p2tr s = length s == 34 && at s 0 == 0x51 && at s 1 == 0x20

-- The version and the program of a witness program.
unfoldable pub is_witness_program : Bytes → Option (ℕ × Bytes)
is_witness_program s =
    if ltb (length s) 4 || ltb 42 (length s)
    then none
    else if not (at s 0 == 0x00) && not (leb 0x51 (at s 0) && leb (at s 0) 0x60)
    then none
    else if not ((at s 1 + 2) == length s) || not (leb 2 (at s 1) && leb (at s 1) 40)
    then none
    else some ((if at s 0 == 0 then 0 else at s 0 - 0x50), drop 2 s)

unfoldable pub is_unspendable : Bytes → Bool
is_unspendable s = (ltb 0 (length s) && at s 0 == 0x6a) || ltb max_script_size (length s)

-- `while let Some((opcode, data, new_pos)) = self.get_op(pos)`: the instructions from `pos` on, up to
-- the end or to one that is cut short. The first argument is fuel, one for each instruction.
unfoldable pub ops_from : ℕ → Bytes → ℕ → List (ℕ × Bytes)
ops_from zero script i = []
ops_from (suc fuel) script i = elim (get_op script i) [
  | none ↦ []
  | some (opcode, d, new_pos) ↦ (opcode, d) ∷ ops_from fuel script new_pos
]

-- `iter_ops`. An instruction takes a byte at least.
unfoldable pub iter_ops : Bytes → List (ℕ × Bytes)
unfolding ops_from
iter_ops script = ops_from (suc (length script)) script 0

-- The loop of `is_push_only`, which stops at the first opcode above OP_16.
unfoldable pub all_pushes : List (ℕ × Bytes) → Bool
all_pushes [] = true
all_pushes ((opcode, d) ∷ ops) = if ltb 0x60 opcode then false else all_pushes ops

unfoldable pub is_push_only : Bytes → Bool
unfolding all_pushes
is_push_only script = all_pushes (iter_ops script)

-- The body of the loop of `get_sig_op_count`.
unfoldable pub sig_ops : Bool → ℕ → Option Opcode → ℕ
sig_ops accurate last_opcode (some op_check_sig) = 1
sig_ops accurate last_opcode (some op_check_sig_verify) = 1
sig_ops accurate last_opcode (some op_check_multi_sig) =
    if accurate && leb 0x51 last_opcode && leb last_opcode 0x60
    then last_opcode - 0x50
    else max_pubkeys_per_multisig
sig_ops accurate last_opcode (some op_check_multi_sig_verify) =
    if accurate && leb 0x51 last_opcode && leb last_opcode 0x60
    then last_opcode - 0x50
    else max_pubkeys_per_multisig
sig_ops accurate last_opcode _ = 0

unfoldable pub count_sig_ops : Bool → ℕ → ℕ → List (ℕ × Bytes) → ℕ
unfolding sig_ops
count_sig_ops accurate last_opcode count [] = count
count_sig_ops accurate last_opcode count ((opcode, d) ∷ ops) =
    count_sig_ops accurate opcode (count + sig_ops accurate last_opcode (from_u8 opcode)) ops

unfoldable pub get_sig_op_count : Bytes → Bool → ℕ
unfolding count_sig_ops
get_sig_op_count script accurate = count_sig_ops accurate 0 0 (iter_ops script)

-- `data[a..b]`.
abbrev pub slice : ℕ → ℕ → Bytes → Bytes
slice a b s = take (b - a) (drop a s)

unfoldable pub matches_at : Bytes → Bytes → ℕ → Bool
matches_at script pattern i =
    leb (length pattern) (length script - i)
    && bytes_eq (slice i (i + length pattern) script) pattern

-- The inner loop of `find_and_delete`: past the matches at `i`; the position and the count after it.
-- It is `none` where the fuel is spent before the loop ends, also in the outer loop.
unfoldable pub skip_matches : ℕ → Bytes → Bytes → ℕ → ℕ → Option (ℕ × ℕ)
skip_matches zero script pattern i n_found =
    if matches_at script pattern i then none else some (i, n_found)
skip_matches (suc fuel) script pattern i n_found = elim (matches_at script pattern i) [
  | true ↦ skip_matches fuel script pattern (i + length pattern) (n_found + 1)
  | false ↦ some (i, n_found)
]

-- The outer loop, over the position, the start of what is not copied yet, what was copied, and
-- the count; its end copies what remains.
unfoldable pub delete_loop : ℕ → Bytes → Bytes → ℕ → ℕ → Bytes → ℕ → Option (Bytes × ℕ)
delete_loop zero script pattern i copy_start result n_found = elim (get_op script i) [
  | none ↦ some (result ++ drop copy_start script, n_found)
  | some op ↦ none
]
delete_loop (suc fuel) script pattern i copy_start result n_found = elim (get_op script i) [
  | none ↦ some (result ++ drop copy_start script, n_found)
  | some (opcode, d, new_pos) ↦ elim (skip_matches (length script) script pattern i n_found) [
    | none ↦ none
    | some (i', n') ↦
        delete_loop fuel script pattern (if ltb i' new_pos then new_pos else i') i'
          (result ++ slice copy_start i script) n'
  ]
]

-- With no removal the script is left as it was.
unfoldable pub deleted : Bytes → Option (Bytes × ℕ) → Option (Bytes × ℕ)
deleted script none = none
deleted script (some (result, n_found)) =
    some (if ltb 0 n_found then (result, n_found) else (script, 0))

-- The script after the removals, and their number.
unfoldable pub find_and_delete : Bytes → Bytes → Option (Bytes × ℕ)
find_and_delete script [] = some (script, 0)
find_and_delete script (b ∷ bs) =
    deleted script (delete_loop (length script) script (b ∷ bs) 0 0 [] 0)

-- The standard script builders.
unfoldable pub build_p2pkh : Bytes → Bytes
build_p2pkh pubkey_hash = 0x76 ∷ 0xa9 ∷ (push_data pubkey_hash ++ 0x88 ∷ 0xac ∷ [])

unfoldable pub build_p2sh : Bytes → Bytes
build_p2sh script_hash = 0xa9 ∷ (push_data script_hash ++ 0x87 ∷ [])

-- `build_p2wpkh` and `build_p2wsh`.
unfoldable pub build_p2w : Bytes → Bytes
build_p2w program = 0x00 ∷ push_data program

unfoldable pub build_p2tr : Bytes → Bytes
build_p2tr output_key = 0x51 ∷ push_data output_key

unfoldable pub build_op_return : Bytes → Bytes
build_op_return [] = 0x6a ∷ []
build_op_return (b ∷ bs) = 0x6a ∷ push_data (b ∷ bs)
