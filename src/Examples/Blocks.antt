-- ===== src/Examples/Blocks.antt =====
-- Blocks: a tree of three hashes, and a transaction with two P2SH inputs.
use qubitcoin.Common.{
  ◌≡◌, ◌⊎◌, refl, true, false, Option, some, List, [], ◌∷◌, ◌++◌, take, replicate, length,
  length-take, length-append, arith,
}
use qubitcoin.Common.Bytes.{Bytes}
use qubitcoin.Script.Bytecode.{
  is_p2sh, is_push_only, all_pushes, iter_ops, ops_from, get_op, read_op, take_push,
  get_sig_op_count, count_sig_ops, sig_ops,
}
use qubitcoin.Script.Opcode.{from_u8}
use qubitcoin.Consensus.Transaction.{
  OutPoint, TxIn, Transaction, zero_hash, is_coinbase, is_coinbase_vin,
}
use qubitcoin.Consensus.Merkle.{compute_merkle_root, merkle_loop, next_level, equal_pair}
use qubitcoin.Consensus.Merkle.Unique.{Collision, compute_merkle_root-injective}
use qubitcoin.Consensus.SigOps.{
  get_p2sh_sigop_count, p2sh_loop, p2sh_sig_ops, count_redeem, last_push,
}
use qubitcoin.Consensus.SigOps.Dropped.{get_p2sh_sigop_count-dropped}

-- A toy hash: the first 32 bytes.
abbrev first_half : Bytes → Bytes
first_half x = take 32 (x ++ replicate 32 0)

first_half-length : (x : Bytes) → length (first_half x) ≡ 32
first_half-length x =
    length-take 32 (x ++ replicate 32 0) (omega (arith, length-append x (replicate 32 0)))

abbrev three : List Bytes
three = replicate 32 1 ∷ replicate 32 2 ∷ replicate 32 3 ∷ []

abbrev four : List Bytes
four = replicate 32 1 ∷ replicate 32 2 ∷ replicate 32 3 ∷ replicate 32 3 ∷ []

three_root : compute_merkle_root first_half three ≡ (replicate 32 1, false)
unfolding compute_merkle_root merkle_loop next_level equal_pair
three_root = refl

-- The same root with the last hash repeated, and flagged.
four_root : compute_merkle_root first_half four ≡ (replicate 32 1, true)
unfolding compute_merkle_root merkle_loop next_level equal_pair
four_root = refl

three_unmutated : (compute_merkle_root first_half three).1 ≡ false
unfolding compute_merkle_root merkle_loop next_level equal_pair
three_unmutated = refl

compute_merkle_root-injective_example : (three ≡ three) ⊎ Collision first_half
compute_merkle_root-injective_example =
    compute_merkle_root-injective first_half first_half-length 2 three three
      (omega arith, omega arith) (omega arith, omega arith) (refl, (refl, (refl, tt)))
      (refl, (refl, (refl, tt))) three_unmutated three_unmutated refl

-- An output to a script hash, an input that pushes the script OP_CHECKSIG, and one with an OP_DUP.
abbrev script_hash_output : Bytes
script_hash_output = 0xa9 ∷ 20 ∷ (replicate 20 5 ++ (0x87 ∷ []))

abbrev pushes : TxIn
pushes = record {
  prevout = record { hash = replicate 32 1; n = 0 };
  script_sig = 1 ∷ 0xac ∷ [];
  sequence = 0;
  witness = [];
}

abbrev copies : TxIn
copies = record pushes { script_sig = 1 ∷ 0xac ∷ 0x76 ∷ [] }

abbrev spending : List TxIn → Transaction
spending vin = record {
  version = 2;
  vin = vin;
  vout = [];
  lock_time = 0;
  hash = zero_hash;
  witness_hash = zero_hash;
}

abbrev all_hashed : OutPoint → Option Bytes
all_hashed p = some script_hash_output

counted : get_p2sh_sigop_count (spending (pushes ∷ pushes ∷ [])) all_hashed ≡ 2
unfolding get_p2sh_sigop_count p2sh_loop p2sh_sig_ops count_redeem last_push is_coinbase
    is_coinbase_vin is_p2sh iter_ops ops_from get_op read_op take_push get_sig_op_count
    count_sig_ops sig_ops from_u8
counted = refl

hashed : is_p2sh script_hash_output ≡ true
unfolding is_p2sh
hashed = refl

no_push_only : is_push_only copies.script_sig ≡ false
unfolding is_push_only all_pushes iter_ops ops_from get_op read_op take_push
no_push_only = refl

get_p2sh_sigop_count-dropped_example :
    get_p2sh_sigop_count (spending (pushes ∷ copies ∷ [])) all_hashed ≡ 0
get_p2sh_sigop_count-dropped_example =
    get_p2sh_sigop_count-dropped (spending (pushes ∷ copies ∷ [])) all_hashed (pushes ∷ []) copies
      [] script_hash_output refl refl hashed no_push_only
