-- ===== src/Consensus/SigOps.antt =====
-- check.rs, the counts of signature operations. A count is a u32, which wraps around.
pub mod Dropped
use qubitcoin.Common.{
  ℕ, ◌+◌, ◌*◌, ◌/◌, ◌%◌, ◌^◌, Bool, true, false, not, ◌&&◌, Option, none, some, List, [], ◌∷◌, ◌==◌,
  ltb, if◌then◌else◌, length,
}
use qubitcoin.Common.Bytes.{Bytes}
use qubitcoin.Script.Bytecode.{get_sig_op_count, iter_ops, is_p2sh, is_witness_program}
use qubitcoin.Consensus.Transaction.{OutPoint, TxIn, TxOut, Transaction, Witness, is_coinbase}
use qubitcoin.Consensus.Check.{witness_scale_factor}

abbrev pub add_u32 : ℕ → ℕ → ℕ
add_u32 a b = (a + b) % 2 ^ 32

unfoldable pub input_sig_ops : ℕ → List TxIn → ℕ
input_sig_ops count [] = count
input_sig_ops count (i ∷ vin) =
    input_sig_ops (add_u32 count (get_sig_op_count i.script_sig false % 2 ^ 32)) vin

unfoldable pub output_sig_ops : ℕ → List TxOut → ℕ
output_sig_ops count [] = count
output_sig_ops count (o ∷ vout) =
    output_sig_ops (add_u32 count (get_sig_op_count o.script_pubkey false % 2 ^ 32)) vout

unfoldable pub get_legacy_sigop_count : Transaction → ℕ
get_legacy_sigop_count tx = output_sig_ops (input_sig_ops 0 tx.vin) tx.vout

-- `if !data.is_empty() { last_data = data }`.
abbrev pub last_of : Bytes → Bytes → Bytes
last_of last_data [] = last_data
last_of last_data (b ∷ bytes) = b ∷ bytes

-- The last data pushed that is not empty; none at an opcode that is no push.
unfoldable pub last_push : Bytes → List (ℕ × Bytes) → Option Bytes
last_push last_data [] = some last_data
last_push last_data ((opcode, d) ∷ ops) =
    let rest = last_push (last_of last_data d) ops in if ltb 0x60 opcode then none else rest

unfoldable pub count_redeem : Option Bytes → Option ℕ
count_redeem none = none
count_redeem (some redeem) = some (get_sig_op_count redeem true % 2 ^ 32)

-- The count for an input with the script of the output that it spends; none where the whole
-- function returns 0.
unfoldable pub p2sh_sig_ops : Bytes → Option Bytes → Option ℕ
p2sh_sig_ops script_sig none = some 0
p2sh_sig_ops script_sig (some prev_script) =
    if is_p2sh prev_script then count_redeem (last_push [] (iter_ops script_sig)) else some 0

unfoldable pub p2sh_loop : (OutPoint → Option Bytes) → ℕ → List TxIn → ℕ
p2sh_loop get_script_pubkey count [] = count
p2sh_loop get_script_pubkey count (i ∷ vin) =
    elim (p2sh_sig_ops i.script_sig (get_script_pubkey i.prevout)) [
      | none ↦ 0
      | some n ↦ p2sh_loop get_script_pubkey (add_u32 count n) vin
    ]

unfoldable pub get_p2sh_sigop_count : Transaction → (OutPoint → Option Bytes) → ℕ
get_p2sh_sigop_count tx get_script_pubkey =
    if is_coinbase tx then 0 else p2sh_loop get_script_pubkey 0 tx.vin

-- The last item of a witness.
abbrev pub last_item : Bytes → Witness → Bytes
last_item item [] = item
last_item item (next ∷ items) = last_item next items

unfoldable pub script_item_sig_ops : Witness → ℕ
script_item_sig_ops [] = 0
script_item_sig_ops (item ∷ items) = get_sig_op_count (last_item item items) true % 2 ^ 32

unfoldable pub witness_sigops : ℕ → Bytes → Witness → ℕ
witness_sigops version program witness =
    if version == 0 && length program == 20
    then 1
    else if version == 0 && length program == 32
    then script_item_sig_ops witness
    else 0

unfoldable pub program_sigops : Option (ℕ × Bytes) → Witness → ℕ
program_sigops none witness = 0
program_sigops (some (version, program)) witness = witness_sigops version program witness

-- The last data pushed that is not empty, whatever the opcodes.
unfoldable pub last_data_of : Bytes → List (ℕ × Bytes) → Bytes
last_data_of last_data [] = last_data
last_data_of last_data ((opcode, d) ∷ ops) = last_data_of (last_of last_data d) ops

-- The bits 0x800 and 0x1 of the flags.
abbrev pub verify_witness : ℕ → Bool
verify_witness flags = flags / 0x800 % 2 == 1

abbrev pub verify_p2sh_flag : ℕ → Bool
verify_p2sh_flag flags = flags % 2 == 1

unfoldable pub wrapped_sigops : Bytes → Bytes → Witness → ℕ → ℕ
wrapped_sigops script_sig script_pubkey witness flags =
    if verify_p2sh_flag flags && is_p2sh script_pubkey
    then program_sigops (is_witness_program (last_data_of [] (iter_ops script_sig))) witness
    else 0

unfoldable pub count_witness_sigops : Bytes → Bytes → Witness → ℕ → ℕ
count_witness_sigops script_sig script_pubkey witness flags =
    if not (verify_witness flags) then 0 else elim (is_witness_program script_pubkey) [
      | some (version, program) ↦ witness_sigops version program witness
      | none ↦ wrapped_sigops script_sig script_pubkey witness flags
    ]

unfoldable pub witness_loop : (OutPoint → Option Bytes) → ℕ → ℕ → List TxIn → ℕ
witness_loop get_prevout_script flags cost [] = cost
witness_loop get_prevout_script flags cost (i ∷ vin) =
    witness_loop get_prevout_script flags
      (elim (get_prevout_script i.prevout) [
        | none ↦ cost
        | some spk ↦ cost + count_witness_sigops i.script_sig spk i.witness flags
      ])
      vin

-- An i64, far from its bounds.
unfoldable pub get_transaction_sigop_cost : Transaction → ℕ → (OutPoint → Option Bytes) → ℕ
get_transaction_sigop_cost tx flags get_prevout_script =
    let legacy = get_legacy_sigop_count tx * witness_scale_factor in
    let p2sh =
      if verify_p2sh_flag flags
      then get_p2sh_sigop_count tx get_prevout_script * witness_scale_factor
      else 0 in
    if is_coinbase tx then legacy else witness_loop get_prevout_script flags (legacy + p2sh) tx.vin
