-- ===== src/Script/Interp/Encoding.antt =====
-- The checks on the encoding of signatures and public keys.
use qubitcoin.Common.{
  ◌+◌, ◌-◌, ◌%◌, Bool, true, false, not, ◌&&◌, ◌||◌, Option, none, some, [], ◌∷◌, ltb, leb, ◌==◌,
  if◌then◌else◌, length, take, ok, ◌>>◌,
}
use qubitcoin.Common.Bytes.{Bytes}
use qubitcoin.Script.Bytecode.{at}
use qubitcoin.Script.Types.{
  ScriptError, Eval, throw, check, SigVersion, is_witness_v0, ScriptVerifyFlags, Crypto,
}

abbrev pub is_nil : Bytes → Bool
is_nil [] = true
is_nil (b ∷ bs) = false

unfoldable pub is_compressed_or_uncompressed_pubkey : Bytes → Bool
is_compressed_or_uncompressed_pubkey pubkey =
    if ltb (length pubkey) 33
    then false
    else if at pubkey 0 == 0x04
    then length pubkey == 65
    else if at pubkey 0 == 0x02 || at pubkey 0 == 0x03
    then length pubkey == 33
    else false

unfoldable pub is_compressed_pubkey : Bytes → Bool
is_compressed_pubkey pubkey = length pubkey == 33 && (at pubkey 0 == 0x02 || at pubkey 0 == 0x03)

-- `len_r` and `len_s` are read before the bytes that they locate; `& 0x80` on a byte is `128 ≤`.
unfoldable pub is_valid_signature_encoding : Bytes → Bool
is_valid_signature_encoding sig =
    let len = length sig in
    let len_r = at sig 3 in
    let len_s = at sig (5 + len_r) in
    if ltb len 9 || ltb 73 len
    then false
    else if not (at sig 0 == 0x30)
    then false
    else if not (at sig 1 == (len - 3))
    then false
    else if leb len (5 + len_r)
    then false
    else if not ((len_r + len_s + 7) == len)
    then false
    else if not (at sig 2 == 0x02)
    then false
    else if len_r == 0
    then false
    else if leb 0x80 (at sig 4)
    then false
    else if ltb 1 len_r && at sig 4 == 0x00 && ltb (at sig 5) 0x80
    then false
    else if not (at sig (len_r + 4) == 0x02)
    then false
    else if len_s == 0
    then false
    else if leb 0x80 (at sig (len_r + 6))
    then false
    else if ltb 1 len_s && at sig (len_r + 6) == 0x00 && ltb (at sig (len_r + 7)) 0x80
    then false
    else true

-- `& !0x80` masks ANYONECANPAY off.
unfoldable pub is_defined_hashtype_signature : Bytes → Bool
is_defined_hashtype_signature sig =
    if is_nil sig
    then false
    else (let hash_type = at sig (length sig - 1) % 128 in leb 1 hash_type && leb hash_type 3)

abbrev pub low_s : Option Bool → Eval (Unit {0})
low_s none = throw ScriptError.sig_der
low_s (some changed) = check changed ScriptError.sig_high_s

unfoldable pub is_low_der_signature : Crypto → Bytes → Eval (Unit {0})
is_low_der_signature crypto sig = do
  check (not (is_valid_signature_encoding sig)) ScriptError.sig_der
  low_s (crypto.normalizes_s (take (length sig - 1) sig))

unfoldable pub check_signature_encoding : Crypto → ScriptVerifyFlags → Bytes → Eval (Unit {0})
check_signature_encoding crypto flags sig = if is_nil sig then ok tt else (do
  check ((flags.dersig || flags.low_s || flags.strictenc) && not (is_valid_signature_encoding sig))
      ScriptError.sig_der
  if flags.low_s then is_low_der_signature crypto sig else ok tt
  check (flags.strictenc && not (is_defined_hashtype_signature sig)) ScriptError.sig_hashtype)

unfoldable pub check_pubkey_encoding : ScriptVerifyFlags → SigVersion → Bytes → Eval (Unit {0})
check_pubkey_encoding flags sigversion pubkey = do
  check (flags.strictenc && not (is_compressed_or_uncompressed_pubkey pubkey))
      ScriptError.pub_key_type
  check (flags.witness_pubkeytype && is_witness_v0 sigversion && not (is_compressed_pubkey pubkey))
      ScriptError.witness_pub_key_type
