-- ===== src/Consensus/Merkle.antt =====
-- crates/qubitcoin-consensus/src/merkle.rs: the root of a tree of hashes, and whether a level has two
-- equal hashes side by side. The loop runs on the number of hashes as fuel, and each level is shorter.
pub mod Unique
use qubitcoin.Common.{ℕ, zero, suc, Bool, true, false, ◌||◌, List, [], ◌∷◌, ◌++◌, map, length}
use qubitcoin.Common.Bytes.{Bytes, bytes_eq}
use qubitcoin.Consensus.Transaction.{Transaction, zero_hash}

-- Two equal hashes in one of the pairs; the last hash of an odd number is in none.
unfoldable pub equal_pair : List Bytes → Bool
equal_pair [] = false
equal_pair (a ∷ []) = false
equal_pair (a ∷ b ∷ hashes) = bytes_eq a b || equal_pair hashes

-- The hashes of the pairs, the last of an odd number with itself.
unfoldable pub next_level : (Bytes → Bytes) → List Bytes → List Bytes
next_level hash256 [] = []
next_level hash256 (a ∷ []) = hash256 (a ++ a) ∷ []
next_level hash256 (a ∷ b ∷ hashes) = hash256 (a ++ b) ∷ next_level hash256 hashes

unfoldable pub merkle_loop : (Bytes → Bytes) → ℕ → List Bytes → Bool → Bytes × Bool
merkle_loop hash256 fuel [] mutated = (zero_hash, mutated)
merkle_loop hash256 fuel (a ∷ []) mutated = (a, mutated)
merkle_loop hash256 zero (a ∷ b ∷ hashes) mutated = (zero_hash, mutated)
merkle_loop hash256 (suc fuel) (a ∷ b ∷ hashes) mutated =
    merkle_loop hash256 fuel (next_level hash256 (a ∷ b ∷ hashes))
      (mutated || equal_pair (a ∷ b ∷ hashes))

-- The root, and what is left in `mutated`.
unfoldable pub compute_merkle_root : (Bytes → Bytes) → List Bytes → Bytes × Bool
compute_merkle_root hash256 hashes = merkle_loop hash256 (length hashes) hashes false

unfoldable pub block_merkle_root : (Bytes → Bytes) → List Transaction → Bytes × Bool
block_merkle_root hash256 txs =
    compute_merkle_root hash256 (map (λ (tx : Transaction). tx.hash) txs)

unfoldable pub witness_hashes : List Transaction → List Bytes
witness_hashes [] = []
witness_hashes (coinbase ∷ txs) = zero_hash ∷ map (λ (tx : Transaction). tx.witness_hash) txs

unfoldable pub block_witness_merkle_root : (Bytes → Bytes) → List Transaction → Bytes × Bool
block_witness_merkle_root hash256 txs = compute_merkle_root hash256 (witness_hashes txs)
