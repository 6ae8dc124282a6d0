-- ===== src/Consensus/Transaction/RoundTrip.antt =====
-- Transaction: what is serialized is read back.
use qubitcoin.Common.{
  ℕ, suc, ◌^◌, ◌<◌, ◌≡◌, refl, sym, ap, Bool, true, false, ◌&&◌, List, [], ◌∷◌, ◌++◌, map, ◌==◌,
  if◌then◌else◌, length, ok, arith, All, Bool-cases, inl, inr, subst,
}
use mathlib.Core.List.{append_assoc}
use qubitcoin.Common.Int.{IsI64}
use qubitcoin.Common.Bytes.{Bytes, to_le}
use qubitcoin.Serialize.CompactSize.{write_compact_size}
use qubitcoin.Serialize.CompactSize.RoundTrip.{read_exact-exact}
use qubitcoin.Serialize.Encode.{encode_bytes, decode_byte_vec, encode_items, encode_vec, decode_vec}
use qubitcoin.Serialize.Encode.RoundTrip.{
  ReadsBack, Sized, decode_uint-to_le, decode_i64_le-encode_i64_le, decode_byte_vec-encode_bytes,
  decode_vec-encode_vec, decode_vec-encode_vec_as,
}
use qubitcoin.Consensus.Transaction.{
  OutPoint, TxIn, TxOut, Transaction, any_witness, has_witness, is_null_witness, Witness,
}
use qubitcoin.Consensus.Transaction.Encode.{
  encode_outpoint, decode_outpoint, encode_tx_in, decode_tx_in, encode_tx_out, decode_tx_out,
  encode_witnesses, serialize_transaction, decode_vouts, decode_extended, decode_witnesses,
  decode_flag, new, deserialize_transaction,
}

-- The sizes that the types of the source and the limit of a vector give.
abbrev pub FitsOutPoint : OutPoint → Type 0
FitsOutPoint p = (length p.hash ≡ 32) × (p.n < 256 ^ 4)

abbrev pub FitsTxIn : TxIn → Type 0
FitsTxIn i =
    FitsOutPoint i.prevout
    × Sized i.script_sig
    × (i.sequence < 256 ^ 4)
    × (Sized i.witness × All Sized i.witness)

abbrev pub FitsTxOut : TxOut → Type 0
FitsTxOut o = IsI64 o.value × Sized o.script_pubkey

-- An input as it travels without its witness.
abbrev pub strip : TxIn → TxIn
strip i = record i { witness = [] }

decode_outpoint-encode_outpoint : ReadsBack encode_outpoint decode_outpoint FitsOutPoint
unfolding encode_outpoint decode_outpoint
decode_outpoint-encode_outpoint p rest h =
    rw
      (
        append_assoc,
        read_exact-exact 32 p.hash (to_le 4 p.n ++ rest) h.0,
        decode_uint-to_le 4 p.n rest h.1,
      )
      refl

decode_tx_in-encode_tx_in :
    (i : TxIn) (rest : Bytes)
    → FitsTxIn i
    → decode_tx_in (encode_tx_in i ++ rest) ≡ ok (strip i, rest)
unfolding encode_tx_in decode_tx_in
decode_tx_in-encode_tx_in i rest h =
    let tail = to_le 4 i.sequence ++ rest in
    rw
      (
        append_assoc,
        append_assoc,
        decode_outpoint-encode_outpoint i.prevout (encode_bytes i.script_sig ++ tail) h.0,
        decode_byte_vec-encode_bytes i.script_sig tail h.1,
        decode_uint-to_le 4 i.sequence rest h.2,
      )
      refl

decode_tx_out-encode_tx_out : ReadsBack encode_tx_out decode_tx_out FitsTxOut
unfolding encode_tx_out decode_tx_out
decode_tx_out-encode_tx_out o rest h =
    rw
      (
        append_assoc,
        decode_i64_le-encode_i64_le o.value (encode_bytes o.script_pubkey ++ rest) h.0,
        decode_byte_vec-encode_bytes o.script_pubkey rest h.1,
      )
      refl

-- The inputs are read without the witnesses, which are not among the bytes of an input.
vin-stripped :
    (vin : List TxIn) (rest : Bytes)
    → Sized vin × All FitsTxIn vin
    → decode_vec decode_tx_in (encode_vec encode_tx_in vin ++ rest) ≡ ok (map strip vin, rest)
vin-stripped =
    decode_vec-encode_vec_as encode_tx_in decode_tx_in FitsTxIn strip decode_tx_in-encode_tx_in

decode_witnesses-encode_witnesses :
    (vin : List TxIn) (rest : Bytes)
    → All FitsTxIn vin
    → decode_witnesses (map strip vin) (encode_witnesses vin ++ rest) ≡ ok (vin, rest)
unfolding decode_witnesses encode_witnesses
decode_witnesses-encode_witnesses [] rest h = refl
decode_witnesses-encode_witnesses (i ∷ vin) rest h =
    rw
      (
        append_assoc,
        decode_vec-encode_vec encode_bytes decode_byte_vec Sized decode_byte_vec-encode_bytes
            i.witness (encode_witnesses vin ++ rest) h.0.3,
        decode_witnesses-encode_witnesses vin rest h.1,
      )
      refl

is_null_witness-nil : (w : Witness) → is_null_witness w ≡ true → w ≡ []
is_null_witness-nil [] h = refl
is_null_witness-nil (item ∷ items) h = cc

-- Without a witness nothing is lost.
strip-none : (vin : List TxIn) → any_witness vin ≡ false → map strip vin ≡ vin
unfolding any_witness
strip-none [] h = refl
strip-none (i ∷ vin) h =
    let empty : i.witness ≡ [] = is_null_witness-nil i.witness (ground arith) in
    let same : strip i ≡ i = ap (λ (w : Witness). record i { witness = w }) (sym empty) in
    rw (same, strip-none vin (ground arith)) refl

-- Every part of a transaction fits, and it has an input.
abbrev pub FitsTransaction : Transaction → Type 0
FitsTransaction tx =
    (tx.version < 256 ^ 4)
    × (0 < length tx.vin)
    × (Sized tx.vin × All FitsTxIn tx.vin)
    × (Sized tx.vout × All FitsTxOut tx.vout)
    × (tx.lock_time < 256 ^ 4)

vout_back :
    (vin : List TxIn) (flags : ℕ) (vout : List TxOut) (rest : Bytes)
    → Sized vout × All FitsTxOut vout
    → decode_vouts vin flags (encode_vec encode_tx_out vout ++ rest) ≡ ok ((vin, vout, flags), rest)
unfolding decode_vouts
vout_back vin flags vout rest h =
    let read =
      decode_vec-encode_vec encode_tx_out decode_tx_out FitsTxOut decode_tx_out-encode_tx_out vout
        rest h in
    rw read refl

some_input : (vin : List TxIn) → 0 < length vin → (length (map strip vin) == 0) ≡ false
some_input [] h = absurd (omega arith)
some_input (i ∷ vin) h = ground arith

marker : write_compact_size 0 ≡ 0 ∷ []
unfolding write_compact_size
marker = refl

no_input : (r : Bytes) → decode_vec decode_tx_in (0 ∷ r) ≡ ok ([], r)
unfolding encode_vec encode_items write_compact_size
no_input r = vin-stripped [] r (omega arith, tt)

witness_there :
    (tx : Transaction) (allow : Bool) → allow && has_witness tx ≡ true → any_witness tx.vin ≡ true
unfolding has_witness
witness_there tx allow e = ground arith

length-strip : (vin : List TxIn) → length (map strip vin) ≡ length vin
length-strip [] = refl
length-strip (i ∷ vin) = ap suc (length-strip vin)

items-strip :
    (vin : List TxIn) → encode_items encode_tx_in (map strip vin) ≡ encode_items encode_tx_in vin
unfolding encode_items encode_tx_in
items-strip [] = refl
items-strip (i ∷ vin) = ap (λ bytes. encode_tx_in i ++ bytes) (items-strip vin)

-- The bytes of the inputs do not show the witnesses.
encode-strip :
    (vin : List TxIn) → encode_vec encode_tx_in (map strip vin) ≡ encode_vec encode_tx_in vin
unfolding encode_vec
encode-strip vin = rw (length-strip vin, items-strip vin) refl

module _ (hash256 : Bytes → Bytes) where
  legacy_back :
      (tx : Transaction) (allow : Bool) (rest : Bytes)
      → FitsTransaction tx
      → allow && has_witness tx ≡ false
      → deserialize_transaction hash256 true (serialize_transaction tx allow ++ rest)
        ≡ ok (new hash256 tx.version (map strip tx.vin) tx.vout tx.lock_time, rest)
  unfolding deserialize_transaction serialize_transaction decode_flag
  legacy_back tx allow rest (v, some, vin, vout, lock) e =
      let end = to_le 4 tx.lock_time ++ rest in
      let outs = encode_vec encode_tx_out tx.vout ++ end in
      rw
        (
          e,
          append_assoc,
          append_assoc,
          append_assoc,
          decode_uint-to_le 4 tx.version (encode_vec encode_tx_in tx.vin ++ outs) v,
          vin-stripped tx.vin outs vin,
          some_input tx.vin some,
          vout_back (map strip tx.vin) 0 tx.vout end vout,
          decode_uint-to_le 4 tx.lock_time rest lock,
        )
        refl

  extended_back :
      (tx : Transaction) (allow : Bool) (rest : Bytes)
      → FitsTransaction tx
      → allow && has_witness tx ≡ true
      → deserialize_transaction hash256 true (serialize_transaction tx allow ++ rest)
        ≡ ok (new hash256 tx.version tx.vin tx.vout tx.lock_time, rest)
  unfolding deserialize_transaction serialize_transaction decode_flag decode_extended
  extended_back tx allow rest (v, some, vin, vout, lock) e =
      let witness : any_witness tx.vin ≡ true = witness_there tx allow e in
      let end = to_le 4 tx.lock_time ++ rest in
      let witnesses = encode_witnesses tx.vin ++ end in
      let outs = encode_vec encode_tx_out tx.vout ++ witnesses in
      let ins = encode_vec encode_tx_in tx.vin ++ outs in
      rw
        (
          e,
          marker,
          append_assoc,
          append_assoc,
          append_assoc,
          decode_uint-to_le 4 tx.version (0 ∷ 1 ∷ ins) v,
          no_input (1 ∷ ins),
          decode_uint-to_le 1 1 ins (omega arith),
          vin-stripped tx.vin outs vin,
          vout_back (map strip tx.vin) 1 tx.vout witnesses vout,
          decode_witnesses-encode_witnesses tx.vin end vin.1,
          witness,
          decode_uint-to_le 4 tx.lock_time rest lock,
        )
        refl

  txid-strip :
      (version : ℕ) (vin : List TxIn) (vout : List TxOut) (lock_time : ℕ)
      → (new hash256 version (map strip vin) vout lock_time).hash
        ≡ (new hash256 version vin vout lock_time).hash
  unfolding new serialize_transaction
  txid-strip version vin vout lock_time = rw (encode-strip vin) refl

  -- A transaction with an input, of the sizes that the types and the limit of vectors allow, is read
  -- back from its serialization, with what follows left over: as it was with witnesses, and
  -- otherwise without them. Its txid does not depend on its witnesses.
  pub deserialize_transaction-serialize_transaction :
      (version : ℕ) (vin : List TxIn) (vout : List TxOut) (lock_time : ℕ) (allow : Bool)
      (rest : Bytes)
      → FitsTransaction (new hash256 version vin vout lock_time)
      → let tx = new hash256 version vin vout lock_time in
        let read = new hash256 version (if allow then vin else map strip vin) vout lock_time in
        (deserialize_transaction hash256 true (serialize_transaction tx allow ++ rest)
          ≡ ok (read, rest))
        × (read.hash ≡ tx.hash)
  unfolding new has_witness
  deserialize_transaction-serialize_transaction version vin vout lock_time false rest h =
      let tx = new hash256 version vin vout lock_time in
      (legacy_back tx false rest h refl, txid-strip version vin vout lock_time)
  deserialize_transaction-serialize_transaction version vin vout lock_time true rest h =
      let tx = new hash256 version vin vout lock_time in
      elim (Bool-cases (any_witness vin)) [
        | inl e ↦ (extended_back tx true rest h e, refl)
        | inr e ↦
            let back = legacy_back tx true rest h e in
            (
              subst
                  (λ inputs.
                    deserialize_transaction hash256 true (serialize_transaction tx true ++ rest)
                    ≡ ok (new hash256 version inputs vout lock_time, rest))
                  (strip-none vin e) back,
              refl,
            )
      ]
