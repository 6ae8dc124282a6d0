-- ===== src/Examples/Data.antt =====
-- The data of the examples: flags, a signature checker, hash functions, and a P2WPKH output.
use qubitcoin.Common.{true, false, none, some, [], ◌∷◌, length, ◌%◌, replicate}
use qubitcoin.Common.Bytes.{Bytes, bytes_eq}
use qubitcoin.Script.Types.{ScriptVerifyFlags, SignatureChecker, Crypto, SigVersion}
use qubitcoin.Script.Interp.Machine.{Env}
use qubitcoin.Script.Verify.Witness.{Context}

abbrev pub no_flags : ScriptVerifyFlags
no_flags = record {
  p2sh = false;
  strictenc = false;
  dersig = false;
  low_s = false;
  nulldummy = false;
  sigpushonly = false;
  minimaldata = false;
  discourage_upgradable_nops = false;
  cleanstack = false;
  checklocktimeverify = false;
  checksequenceverify = false;
  witness = false;
  discourage_upgradable_witness_program = false;
  minimalif = false;
  nullfail = false;
  witness_pubkeytype = false;
  const_scriptcode = false;
  taproot = false;
  discourage_upgradable_taproot_version = false;
  discourage_op_success = false;
  discourage_upgradable_pubkeytype = false;
}

abbrev pub p2sh_flags : ScriptVerifyFlags
p2sh_flags = record no_flags { p2sh = true }

abbrev pub segwit_flags : ScriptVerifyFlags
segwit_flags = record no_flags {
  p2sh = true;
  witness = true;
  cleanstack = true;
  nullfail = true;
  minimaldata = true;
}

-- A toy hash: twenty times the length of the input.
abbrev pub toy_hash : Bytes → Bytes
toy_hash bs = replicate 20 (length bs % 256)

abbrev pub toy_crypto : Crypto
toy_crypto = record {
  ripemd160_hash = toy_hash;
  sha1_hash = toy_hash;
  sha256_hash = toy_hash;
  hash160 = toy_hash;
  hash256 = toy_hash;
  normalizes_s = λ sig. some false;
  tweak_add_check = λ key tweak output parity. false;
}

-- A signature fits a key with the same bytes.
abbrev pub toy_checker : SignatureChecker
toy_checker = record {
  check_ecdsa_signature = λ sig key code sigversion. bytes_eq sig key;
  check_schnorr_signature = λ sig key sigversion exec_data. none;
  check_lock_time = λ n. true;
  check_sequence = λ n. true;
}

abbrev pub segwit : Context
segwit = record { flags = segwit_flags; checker = toy_checker; crypto = toy_crypto }

abbrev pub toy_env : Bytes → Env
toy_env script = record {
  flags = no_flags;
  sigversion = SigVersion.base;
  checker = toy_checker;
  crypto = toy_crypto;
  script = script;
}

-- The public key, which is its own signature, and its P2WPKH output.
abbrev pub key : Bytes
key = 7 ∷ 8 ∷ 9 ∷ []

abbrev pub key_output : Bytes
key_output = 0x00 ∷ 20 ∷ replicate 20 3
