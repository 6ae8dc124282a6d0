-- ===== src/Lib.antt =====
-- Script validation, transaction checks and the coins cache of a Bitcoin node: the crates
-- crates/qubitcoin-script and crates/qubitcoin-serialize, and parts of crates/qubitcoin-consensus,
-- crates/qubitcoin-primitives and crates/qubitcoin-common.
--
-- A transaction is read from bytes and checked on its own by `check_transaction`. Its inputs name
-- outputs that the `CoinsViewCache` holds over a database of coins; connecting a block spends them
-- there and adds the new outputs, and a flush writes the changes to the database, where a coin has
-- a compressed form.
--
-- To check an input of a transaction the node calls `verify_script` with the scriptSig, the
-- scriptPubKey of the output that is spent, the witness, a set of flags and a signature checker.
-- It evaluates the scripts with `eval_script` on a stack of byte strings, and hands witness
-- programs to `verify_witness_program`. Scripts are byte strings, read one instruction at a time
-- by `Script::get_op`; numbers on the stack are read and written by `ScriptNum`.
--
-- Parts:
-- - Common: the shared helpers. Results of fallible code (Common/Outcome), Boolean tests, lists
--   over native numbers, integers, and byte strings with little-endian integers.
-- - Serialize/CompactSize: crates/qubitcoin-serialize/src/compact_size.rs. A writer is the list of
--   bytes that it gets; a reader is a byte string, and returns what is left of it.
-- - Serialize/VarInt: varint.rs of the same crate. The loops run on fuel 10, the size of the buffer
--   that the source writes into, and 64 bits take at most 10 digits.
-- - Serialize/Encode: the integers, byte vectors and vectors of encode.rs.
-- - Primitives/ArithUint256: crates/qubitcoin-primitives/src/arith_uint256.rs, its sums, differences,
--   steps by one and products, with the numbers they stand for in Value and Difference.
-- - Consensus/Amount: crates/qubitcoin-primitives/src/amount.rs. Sums of amounts wrap around as an i64
--   does without overflow checks.
-- - Consensus/Transaction: crates/qubitcoin-consensus/src/transaction.rs; Encode has the two formats,
--   the hashes and the sizes.
-- - Consensus/Check: `check_transaction` and `get_block_subsidy` of check.rs. The validation state is
--   the reason of a rejection. Consensus/SigOps has the counts of signature operations of check.rs.
-- - Consensus/Merkle: merkle.rs, on as much fuel as there are hashes; each level is shorter.
-- - Coins: crates/qubitcoin-common/src/coins.rs. Amounts and Compress are the compressed forms, Codec
--   the form of a coin in the database, Cache the `CoinsViewCache`, with what it stands for in View.
--   A `HashMap` is an association list (Map), whose order stands for the arbitrary one.
-- - Script/Opcode: `Opcode`, `from_u8`, `is_push` and `is_disabled` of
--   crates/qubitcoin-script/src/opcode.rs.
-- - Script/Num: `ScriptNum` of script_num.rs. An i64 is an integer; decoding works on its 64 bits,
--   where shifts and the negation wrap around as without overflow checks.
-- - Script/Bytecode: `Script` of script.rs. A position is a number of bytes from the start. The
--   walk over a script has its length and one more as fuel, and an instruction takes a byte. The two
--   loops of `find_and_delete` have its length, as a match takes a byte too, and give nothing where
--   that is spent.
-- - Script/Types: script_error.rs, verify_flags.rs, and the data types of interpreter.rs. The flags
--   are a record of Booleans. `{ *error = e; return false; }` is `throw e`.
-- - Script/Cond: `ConditionStack` of interpreter.rs, with its two u32 counters.
-- - Script/Interp: `eval_script` of interpreter.rs. Machine is the state: the stack, top first, the
--   alt stack, the conditions, the op count, the position, the start of the signed code, the
--   position of the opcode, the execution data. StackOps, Numeric, Flow, CheckSig and MultiSig are
--   the opcodes, Encoding the checks on keys and signatures, Step the dispatch and the loop, whose
--   fuel is the length of the script. Laws and Flags hold the proofs about evaluation.
-- - Script/Verify: `verify_script`, `verify_witness_program` and `execute_witness_script` of
--   interpreter.rs, and the taproot functions at its end, with the proofs about whole inputs.
-- - Examples: concrete runs.
--
-- What the program takes from other packages is a parameter: the hash functions, the parsing of DER
-- signatures and the tweak of a public key are the record `Crypto`, and the trait
-- `SignatureChecker` is a record of its methods. No property of them is assumed. The hash of a
-- transaction and the decompression of a public key are functions that the definitions take. The
-- view under a cache is a record of its methods; where theorems need it, they assume that `get_coins`
-- answers as `get_coin`, and that `batch_write` writes and erases what it is given.
--
-- Not modelled: the contents of the stack and of the execution data after an evaluation that
-- failed, which no caller reads; the wrap-around of an i64 in the interpreter, whose operands are too
-- small for it; debug assertions; `SigVersion::Taproot` as an argument of `eval_script`, which no
-- caller gives, beyond what the code does with it; the printing of scripts and errors; threads of
-- the coins cache, each of whose operations is one step; negative heights. Of the consensus crate
-- proof of work, blocks and signature hashes are left out, of the
-- primitives crate the shifts, the division and the compact form of 256-bit integers, of the common
-- crate all but coins.rs. Nothing of the other crates is modelled: chain state, mempool, network, wallet,
-- indexers.
pub mod Common
pub mod Serialize
pub mod Primitives
pub mod Script
pub mod Consensus
pub mod Coins
pub mod Examples
