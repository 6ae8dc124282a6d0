-- ===== src/Script/Opcode.antt =====
-- The opcodes of crates/qubitcoin-script/src/opcode.rs and their bytes.
pub mod Decode
use qubitcoin.Common.{
  ℕ, Bool, true, false, Option, none, some, List, [], ◌∷◌, ◌==◌, leb, if◌then◌else◌,
}

pub data Opcode : Type 0 where
  op0 op_push_data1 op_push_data2 op_push_data4 op1_negate op_reserved op1 op2 op3 op4 op5 op6 op7
        op8 op9 op10 op11 op12 op13 op14 op15 op16 op_nop op_ver op_if op_not_if op_ver_if
        op_ver_not_if op_else op_end_if op_verify op_return op_to_alt_stack op_from_alt_stack
        op2_drop op2_dup op3_dup op2_over op2_rot op2_swap op_if_dup op_depth op_drop op_dup op_nip
        op_over op_pick op_roll op_rot op_swap op_tuck op_cat op_sub_str op_left op_right op_size
        op_invert op_and op_or op_xor op_equal op_equal_verify op_reserved1 op_reserved2 op1_add
        op1_sub op2_mul op2_div op_negate op_abs op_not op0_not_equal op_add op_sub op_mul op_div
        op_mod op_l_shift op_r_shift op_bool_and op_bool_or op_num_equal op_num_equal_verify
        op_num_not_equal op_less_than op_greater_than op_less_than_or_equal op_greater_than_or_equal
        op_min op_max op_within op_ripemd160 op_sha1 op_sha256 op_hash160 op_hash256
        op_code_separator op_check_sig op_check_sig_verify op_check_multi_sig
        op_check_multi_sig_verify op_nop1 op_check_lock_time_verify op_check_sequence_verify op_nop4
        op_nop5 op_nop6 op_nop7 op_nop8 op_nop9 op_nop10 op_check_sig_add op_invalid_opcode :
      Opcode

-- `opcode as u8`.
abbrev pub to_u8 : Opcode → ℕ
to_u8 op0 = 0x00
to_u8 op_push_data1 = 0x4c
to_u8 op_push_data2 = 0x4d
to_u8 op_push_data4 = 0x4e
to_u8 op1_negate = 0x4f
to_u8 op_reserved = 0x50
to_u8 op1 = 0x51
to_u8 op2 = 0x52
to_u8 op3 = 0x53
to_u8 op4 = 0x54
to_u8 op5 = 0x55
to_u8 op6 = 0x56
to_u8 op7 = 0x57
to_u8 op8 = 0x58
to_u8 op9 = 0x59
to_u8 op10 = 0x5a
to_u8 op11 = 0x5b
to_u8 op12 = 0x5c
to_u8 op13 = 0x5d
to_u8 op14 = 0x5e
to_u8 op15 = 0x5f
to_u8 op16 = 0x60
to_u8 op_nop = 0x61
to_u8 op_ver = 0x62
to_u8 op_if = 0x63
to_u8 op_not_if = 0x64
to_u8 op_ver_if = 0x65
to_u8 op_ver_not_if = 0x66
to_u8 op_else = 0x67
to_u8 op_end_if = 0x68
to_u8 op_verify = 0x69
to_u8 op_return = 0x6a
to_u8 op_to_alt_stack = 0x6b
to_u8 op_from_alt_stack = 0x6c
to_u8 op2_drop = 0x6d
to_u8 op2_dup = 0x6e
to_u8 op3_dup = 0x6f
to_u8 op2_over = 0x70
to_u8 op2_rot = 0x71
to_u8 op2_swap = 0x72
to_u8 op_if_dup = 0x73
to_u8 op_depth = 0x74
to_u8 op_drop = 0x75
to_u8 op_dup = 0x76
to_u8 op_nip = 0x77
to_u8 op_over = 0x78
to_u8 op_pick = 0x79
to_u8 op_roll = 0x7a
to_u8 op_rot = 0x7b
to_u8 op_swap = 0x7c
to_u8 op_tuck = 0x7d
to_u8 op_cat = 0x7e
to_u8 op_sub_str = 0x7f
to_u8 op_left = 0x80
to_u8 op_right = 0x81
to_u8 op_size = 0x82
to_u8 op_invert = 0x83
to_u8 op_and = 0x84
to_u8 op_or = 0x85
to_u8 op_xor = 0x86
to_u8 op_equal = 0x87
to_u8 op_equal_verify = 0x88
to_u8 op_reserved1 = 0x89
to_u8 op_reserved2 = 0x8a
to_u8 op1_add = 0x8b
to_u8 op1_sub = 0x8c
to_u8 op2_mul = 0x8d
to_u8 op2_div = 0x8e
to_u8 op_negate = 0x8f
to_u8 op_abs = 0x90
to_u8 op_not = 0x91
to_u8 op0_not_equal = 0x92
to_u8 op_add = 0x93
to_u8 op_sub = 0x94
to_u8 op_mul = 0x95
to_u8 op_div = 0x96
to_u8 op_mod = 0x97
to_u8 op_l_shift = 0x98
to_u8 op_r_shift = 0x99
to_u8 op_bool_and = 0x9a
to_u8 op_bool_or = 0x9b
to_u8 op_num_equal = 0x9c
to_u8 op_num_equal_verify = 0x9d
to_u8 op_num_not_equal = 0x9e
to_u8 op_less_than = 0x9f
to_u8 op_greater_than = 0xa0
to_u8 op_less_than_or_equal = 0xa1
to_u8 op_greater_than_or_equal = 0xa2
to_u8 op_min = 0xa3
to_u8 op_max = 0xa4
to_u8 op_within = 0xa5
to_u8 op_ripemd160 = 0xa6
to_u8 op_sha1 = 0xa7
to_u8 op_sha256 = 0xa8
to_u8 op_hash160 = 0xa9
to_u8 op_hash256 = 0xaa
to_u8 op_code_separator = 0xab
to_u8 op_check_sig = 0xac
to_u8 op_check_sig_verify = 0xad
to_u8 op_check_multi_sig = 0xae
to_u8 op_check_multi_sig_verify = 0xaf
to_u8 op_nop1 = 0xb0
to_u8 op_check_lock_time_verify = 0xb1
to_u8 op_check_sequence_verify = 0xb2
to_u8 op_nop4 = 0xb3
to_u8 op_nop5 = 0xb4
to_u8 op_nop6 = 0xb5
to_u8 op_nop7 = 0xb6
to_u8 op_nop8 = 0xb7
to_u8 op_nop9 = 0xb8
to_u8 op_nop10 = 0xb9
to_u8 op_check_sig_add = 0xba
to_u8 op_invalid_opcode = 0xff

-- The arms of the match in `from_u8`, in its order.
abbrev pub arms : List (ℕ × Opcode)
arms =
    (0x00, op0)
    ∷ (0x4c, op_push_data1)
    ∷ (0x4d, op_push_data2)
    ∷ (0x4e, op_push_data4)
    ∷ (0x4f, op1_negate)
    ∷ (0x50, op_reserved)
    ∷ (0x51, op1)
    ∷ (0x52, op2)
    ∷ (0x53, op3)
    ∷ (0x54, op4)
    ∷ (0x55, op5)
    ∷ (0x56, op6)
    ∷ (0x57, op7)
    ∷ (0x58, op8)
    ∷ (0x59, op9)
    ∷ (0x5a, op10)
    ∷ (0x5b, op11)
    ∷ (0x5c, op12)
    ∷ (0x5d, op13)
    ∷ (0x5e, op14)
    ∷ (0x5f, op15)
    ∷ (0x60, op16)
    ∷ (0x61, op_nop)
    ∷ (0x62, op_ver)
    ∷ (0x63, op_if)
    ∷ (0x64, op_not_if)
    ∷ (0x65, op_ver_if)
    ∷ (0x66, op_ver_not_if)
    ∷ (0x67, op_else)
    ∷ (0x68, op_end_if)
    ∷ (0x69, op_verify)
    ∷ (0x6a, op_return)
    ∷ (0x6b, op_to_alt_stack)
    ∷ (0x6c, op_from_alt_stack)
    ∷ (0x6d, op2_drop)
    ∷ (0x6e, op2_dup)
    ∷ (0x6f, op3_dup)
    ∷ (0x70, op2_over)
    ∷ (0x71, op2_rot)
    ∷ (0x72, op2_swap)
    ∷ (0x73, op_if_dup)
    ∷ (0x74, op_depth)
    ∷ (0x75, op_drop)
    ∷ (0x76, op_dup)
    ∷ (0x77, op_nip)
    ∷ (0x78, op_over)
    ∷ (0x79, op_pick)
    ∷ (0x7a, op_roll)
    ∷ (0x7b, op_rot)
    ∷ (0x7c, op_swap)
    ∷ (0x7d, op_tuck)
    ∷ (0x7e, op_cat)
    ∷ (0x7f, op_sub_str)
    ∷ (0x80, op_left)
    ∷ (0x81, op_right)
    ∷ (0x82, op_size)
    ∷ (0x83, op_invert)
    ∷ (0x84, op_and)
    ∷ (0x85, op_or)
    ∷ (0x86, op_xor)
    ∷ (0x87, op_equal)
    ∷ (0x88, op_equal_verify)
    ∷ (0x89, op_reserved1)
    ∷ (0x8a, op_reserved2)
    ∷ (0x8b, op1_add)
    ∷ (0x8c, op1_sub)
    ∷ (0x8d, op2_mul)
    ∷ (0x8e, op2_div)
    ∷ (0x8f, op_negate)
    ∷ (0x90, op_abs)
    ∷ (0x91, op_not)
    ∷ (0x92, op0_not_equal)
    ∷ (0x93, op_add)
    ∷ (0x94, op_sub)
    ∷ (0x95, op_mul)
    ∷ (0x96, op_div)
    ∷ (0x97, op_mod)
    ∷ (0x98, op_l_shift)
    ∷ (0x99, op_r_shift)
    ∷ (0x9a, op_bool_and)
    ∷ (0x9b, op_bool_or)
    ∷ (0x9c, op_num_equal)
    ∷ (0x9d, op_num_equal_verify)
    ∷ (0x9e, op_num_not_equal)
    ∷ (0x9f, op_less_than)
    ∷ (0xa0, op_greater_than)
    ∷ (0xa1, op_less_than_or_equal)
    ∷ (0xa2, op_greater_than_or_equal)
    ∷ (0xa3, op_min)
    ∷ (0xa4, op_max)
    ∷ (0xa5, op_within)
    ∷ (0xa6, op_ripemd160)
    ∷ (0xa7, op_sha1)
    ∷ (0xa8, op_sha256)
    ∷ (0xa9, op_hash160)
    ∷ (0xaa, op_hash256)
    ∷ (0xab, op_code_separator)
    ∷ (0xac, op_check_sig)
    ∷ (0xad, op_check_sig_verify)
    ∷ (0xae, op_check_multi_sig)
    ∷ (0xaf, op_check_multi_sig_verify)
    ∷ (0xb0, op_nop1)
    ∷ (0xb1, op_check_lock_time_verify)
    ∷ (0xb2, op_check_sequence_verify)
    ∷ (0xb3, op_nop4)
    ∷ (0xb4, op_nop5)
    ∷ (0xb5, op_nop6)
    ∷ (0xb6, op_nop7)
    ∷ (0xb7, op_nop8)
    ∷ (0xb8, op_nop9)
    ∷ (0xb9, op_nop10)
    ∷ (0xba, op_check_sig_add)
    ∷ (0xff, op_invalid_opcode)
    ∷ []

pub lookup_arm : ℕ → List (ℕ × Opcode) → Option Opcode
lookup_arm byte [] = none
lookup_arm byte ((b, op) ∷ rest) = if byte == b then some op else lookup_arm byte rest

-- `None` for the direct pushes 0x01..0x4b and for the bytes that no opcode has.
unfoldable pub from_u8 : ℕ → Option Opcode
unfolding lookup_arm
from_u8 byte = lookup_arm byte arms

-- `is_disabled`, and the same test in the interpreter's `is_disabled_opcode`.
unfoldable pub is_disabled : Opcode → Bool
is_disabled op_cat = true
is_disabled op_sub_str = true
is_disabled op_left = true
is_disabled op_right = true
is_disabled op_invert = true
is_disabled op_and = true
is_disabled op_or = true
is_disabled op_xor = true
is_disabled op2_mul = true
is_disabled op2_div = true
is_disabled op_mul = true
is_disabled op_div = true
is_disabled op_mod = true
is_disabled op_l_shift = true
is_disabled op_r_shift = true
is_disabled _ = false

unfoldable pub is_disabled_opcode : ℕ → Bool
unfolding from_u8 is_disabled
is_disabled_opcode byte = elim (from_u8 byte) [ none ↦ false | some op ↦ is_disabled op ]

-- `is_push`: up to OP_16.
unfoldable pub is_push : Opcode → Bool
is_push op = leb (to_u8 op) 0x60
