-- ===== src/Script/Verify/Taproot.antt =====
-- The commitment of a taproot output to a script (BIP 341), and what tapscript checks before it runs
-- a script (BIP 342).
use qubitcoin.Common.{
  ℕ, zero, suc, ◌+◌, ◌-◌, ◌*◌, ◌/◌, ◌%◌, Bool, true, false, ◌&&◌, ◌||◌, none, some, List, [], ◌∷◌,
  ◌++◌, ltb, leb, ◌==◌, if◌then◌else◌, length,
}
use qubitcoin.Common.Bytes.{Bytes}
use qubitcoin.Serialize.CompactSize.{compact_size_len, write_compact_size}
use qubitcoin.Script.Bytecode.{at, slice, get_op}
use qubitcoin.Script.Types.{Crypto}

abbrev pub annex_tag : ℕ
annex_tag = 0x50

abbrev pub taproot_leaf_tapscript : ℕ
taproot_leaf_tapscript = 0xc0

abbrev pub taproot_control_base_size : ℕ
taproot_control_base_size = 33

abbrev pub taproot_control_node_size : ℕ
taproot_control_node_size = 32

abbrev pub taproot_control_max_size : ℕ
taproot_control_max_size = 33 + 32 * 128

unfoldable pub is_op_success : ℕ → Bool
is_op_success opcode =
    opcode == 80
    || opcode == 98
    || (leb 126 opcode && leb opcode 129)
    || (leb 131 opcode && leb opcode 134)
    || (leb 137 opcode && leb opcode 138)
    || (leb 141 opcode && leb opcode 142)
    || (leb 149 opcode && leb opcode 153)
    || (leb 187 opcode && leb opcode 254)

-- The scan for an OP_SUCCESS before anything runs.
pub data Scan : Type 0 where
  success no_success bad_op spent : Scan

unfoldable pub scan_op_success : ℕ → Bytes → ℕ → Scan
scan_op_success zero script pc = if ltb pc (length script) then spent else no_success
scan_op_success (suc fuel) script pc = elim (ltb pc (length script)) [
  | false ↦ no_success
  | true ↦ elim (get_op script pc) [
    | none ↦ bad_op
    | some (opcode, d, next_pc) ↦
        let rest = scan_op_success fuel script next_pc in
        if is_op_success opcode then success else rest
  ]
]

-- The bytes of the ASCII tags.
abbrev tap_leaf : Bytes
tap_leaf = 0x54 ∷ 0x61 ∷ 0x70 ∷ 0x4c ∷ 0x65 ∷ 0x61 ∷ 0x66 ∷ []

abbrev tap_branch : Bytes
tap_branch = 0x54 ∷ 0x61 ∷ 0x70 ∷ 0x42 ∷ 0x72 ∷ 0x61 ∷ 0x6e ∷ 0x63 ∷ 0x68 ∷ []

abbrev tap_tweak : Bytes
tap_tweak = 0x54 ∷ 0x61 ∷ 0x70 ∷ 0x54 ∷ 0x77 ∷ 0x65 ∷ 0x61 ∷ 0x6b ∷ []

-- `tagged_hash` of crates/qubitcoin-crypto/src/hash.rs.
unfoldable pub tagged_hash : Crypto → Bytes → Bytes → Bytes
tagged_hash crypto tag msg =
    let tag_hash = crypto.sha256_hash tag in crypto.sha256_hash (tag_hash ++ (tag_hash ++ msg))

unfoldable pub compute_tapleaf_hash : Crypto → ℕ → Bytes → Bytes
compute_tapleaf_hash crypto leaf_version script =
    tagged_hash crypto tap_leaf (leaf_version ∷ (write_compact_size (length script) ++ script))

-- `a < b` of two byte slices.
unfoldable pub bytes_lt : Bytes → Bytes → Bool
bytes_lt a [] = false
bytes_lt [] (y ∷ ys) = true
bytes_lt (x ∷ xs) (y ∷ ys) = ltb x y || (x == y && bytes_lt xs ys)

unfoldable pub compute_tapbranch_hash : Crypto → Bytes → Bytes → Bytes
compute_tapbranch_hash crypto a b =
    tagged_hash crypto tap_branch (if bytes_lt a b then a ++ b else b ++ a)

-- `n` nodes of the control block from the `i`-th on.
unfoldable pub merkle_path : Crypto → Bytes → ℕ → ℕ → Bytes → Bytes
merkle_path crypto control zero i k = k
merkle_path crypto control (suc n) i k =
    let offset = taproot_control_base_size + taproot_control_node_size * i in
    let node = slice offset (offset + taproot_control_node_size) control in
    merkle_path crypto control n (i + 1) (compute_tapbranch_hash crypto k node)

unfoldable pub compute_taproot_merkle_root : Crypto → Bytes → Bytes → Bytes
compute_taproot_merkle_root crypto control tapleaf_hash =
    let path_len = (length control - taproot_control_base_size) / taproot_control_node_size in
    merkle_path crypto control path_len 0 tapleaf_hash

unfoldable pub verify_taproot_commitment : Crypto → Bytes → Bytes → Bytes → Bool
verify_taproot_commitment crypto control program tapleaf_hash =
    let internal_key = slice 1 taproot_control_base_size control in
    let merkle_root = compute_taproot_merkle_root crypto control tapleaf_hash in
    let tweak_hash = tagged_hash crypto tap_tweak (internal_key ++ merkle_root) in
    crypto.tweak_add_check internal_key tweak_hash program (at control 0 % 2)

unfoldable pub items_size : List Bytes → ℕ
items_size [] = 0
items_size (item ∷ items) = compact_size_len (length item) + length item + items_size items

unfoldable pub compute_witness_size : List Bytes → ℕ
compute_witness_size stack = compact_size_len (length stack) + items_size stack
