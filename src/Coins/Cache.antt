-- ===== src/Coins/Cache.antt =====
-- `CoinsViewCache` of coins.rs, with the traits `CoinsView` and `FlushableCoinsView`. The base view is
-- a parameter; an operation takes the state of the cache and returns the next, as of one thread.
pub mod View
pub mod Refine
pub mod Flush
pub mod Handover
pub mod Overwrite
use qubitcoin.Common.{
  ℕ, ◌+◌, ◌-◌, ◌*◌, ◌%◌, ◌^◌, Bool, true, false, not, ◌&&◌, Option, none, some, List, [], ◌∷◌, map,
  ◌==◌, ltb, if◌then◌else◌, length, Result, ok, err, ◌>>=◌, ◌>>◌, fail_if,
}
use qubitcoin.Common.Int.{ℤ, pos, ltb_ℤ, ◌+ℤ◌}
use qubitcoin.Common.Bytes.{Bytes}
use qubitcoin.Script.Bytecode.{is_unspendable}
use qubitcoin.Consensus.Amount.{Amount, add_amount}
use qubitcoin.Consensus.Transaction.{OutPoint, TxIn, TxOut, Transaction, is_coinbase, is_null_hash}
use qubitcoin.Coins.Map.{get, insert, remove}
use qubitcoin.Coins.Coin.{Coin, empty, is_spent, memory_usage}

-- The bits of `CoinsCacheFlags`.
pub record CoinsCacheFlags : Type 0 where
  pub dirty : Bool
  pub fresh : Bool

abbrev pub no_flags : CoinsCacheFlags
no_flags = record { dirty = false; fresh = false }

pub record CoinsCacheEntry : Type 0 where
  pub coin : Coin
  pub flags : CoinsCacheFlags

abbrev pub clean : Coin → CoinsCacheEntry
clean c = record { coin = c; flags = no_flags }

abbrev pub Entries : Type 0
Entries = List (OutPoint × CoinsCacheEntry)

pub record CoinsView : Type 0 where
  pub get_coin : OutPoint → Option Coin
  pub get_coins : List OutPoint → List (Option Coin)
  pub get_best_block : Bytes

pub record CoinsViewCache : Type 0 where
  pub cache : Entries
  pub best_block : Bytes
  pub usage : ℕ

-- `assert!` and `panic!`.
pub data Panic : Type 0 where
  adds_spent_coin overwrites_unspent_coin : Panic

-- `fetch_add` and `fetch_sub` of an AtomicU64, which wrap around.
abbrev pub usage_add : ℕ → ℕ → ℕ
usage_add usage n = (usage + n) % 2 ^ 64

abbrev pub usage_sub : ℕ → ℕ → ℕ
usage_sub usage n = (usage + (2 ^ 64 - n % 2 ^ 64)) % 2 ^ 64

-- A coin that is there and not spent.
unfoldable pub unspent : Option Coin → Option Coin
unspent none = none
unspent (some coin) = if is_spent coin then none else some coin

unfoldable pub set_best_block : Bytes → CoinsViewCache → CoinsViewCache
set_best_block hash c = record c { best_block = hash }

-- The snapshot of the coins with a value that is not negative.
unfoldable pub iter_coins : Entries → List (OutPoint × Coin)
iter_coins [] = []
iter_coins ((outpoint, entry) ∷ cache) =
    let rest = iter_coins cache in
    if ltb_ℤ entry.coin.tx_out.value (pos 0) then rest else (outpoint, entry.coin) ∷ rest

unfoldable pub have_coin_in_cache : CoinsViewCache → OutPoint → Bool
have_coin_in_cache c outpoint = elim (get c.cache outpoint) [
  | none ↦ false
  | some entry ↦ not (is_spent entry.coin)
]

unfoldable pub get_entry_flags : CoinsViewCache → OutPoint → Option CoinsCacheFlags
get_entry_flags c outpoint = elim (get c.cache outpoint) [
  | none ↦ none
  | some entry ↦ some entry.flags
]

-- `add_coin`, where the outpoint is in the cache.
unfoldable pub overwrite :
    OutPoint → Coin → Bool → CoinsCacheEntry → CoinsViewCache → Result Panic CoinsViewCache
overwrite outpoint coin possible_overwrite existing c = do
  fail_if (not possible_overwrite && not (is_spent existing.coin)) Panic.overwrites_unspent_coin
  ok (record c {
    cache =
        insert outpoint
          (record {
            coin = coin;
            flags = record {
              dirty = true;
              fresh = not possible_overwrite && not existing.flags.dirty;
            };
          })
          c.cache;
    usage = usage_add (usage_sub c.usage (memory_usage existing.coin)) (memory_usage coin);
  })

-- `add_coin` with what the cache has at the outpoint.
unfoldable pub add_entry :
    OutPoint → Coin → Bool → Option CoinsCacheEntry → CoinsViewCache → Result Panic CoinsViewCache
add_entry outpoint coin possible_overwrite (some existing) c =
    overwrite outpoint coin possible_overwrite existing c
add_entry outpoint coin possible_overwrite none c = ok (record c {
  cache =
      insert outpoint (record { coin = coin; flags = record { dirty = true; fresh = true } })
        c.cache;
  usage = usage_add c.usage (memory_usage coin);
})

unfoldable pub add_coin : OutPoint → Coin → Bool → CoinsViewCache → Result Panic CoinsViewCache
add_coin outpoint coin possible_overwrite c = do
  fail_if (is_spent coin) Panic.adds_spent_coin
  if is_unspendable coin.tx_out.script_pubkey
      then ok c
      else add_entry outpoint coin possible_overwrite (get c.cache outpoint) c

-- `spend_coin`, where the outpoint is in the cache.
unfoldable pub spend_entry :
    OutPoint → CoinsCacheEntry → CoinsViewCache → Option Coin × CoinsViewCache
spend_entry outpoint entry c = if is_spent entry.coin then (none, c) else (
  some entry.coin,
  record c {
    cache =
        if entry.flags.fresh
        then remove outpoint c.cache
        else insert outpoint
            (record { coin = empty; flags = record { dirty = true; fresh = false } }) c.cache;
    usage = usage_sub c.usage (memory_usage entry.coin);
  },
)

-- `uncache` with what the cache has at the outpoint.
unfoldable pub uncache_entry : OutPoint → Option CoinsCacheEntry → CoinsViewCache → CoinsViewCache
uncache_entry outpoint none c = c
uncache_entry outpoint (some entry) c = if entry.flags.dirty then c else record c {
  cache = remove outpoint c.cache;
  usage = usage_sub c.usage (memory_usage entry.coin);
}

unfoldable pub uncache : OutPoint → CoinsViewCache → CoinsViewCache
uncache outpoint c = uncache_entry outpoint (get c.cache outpoint) c

-- What `fetch_coin` does with the unspent coin of the base, if there is one.
unfoldable pub store_found : OutPoint → Option Coin → CoinsViewCache → Option Coin × CoinsViewCache
store_found outpoint none c = (none, c)
store_found outpoint (some coin) c = (
  some coin,
  record c {
    cache = insert outpoint (clean coin) c.cache;
    usage = usage_add c.usage (memory_usage coin);
  },
)

-- `flush`.
unfoldable pub flush : CoinsViewCache → Bool × CoinsViewCache
flush c = (true, record c { cache = []; usage = 0 })

-- The outpoints that are not in the cache.
unfoldable pub misses : Entries → List OutPoint → List OutPoint
misses cache [] = []
misses cache (outpoint ∷ outpoints) =
    let rest = misses cache outpoints in
    elim (get cache outpoint) [ none ↦ outpoint ∷ rest | some entry ↦ rest ]

-- One coin of `prefetch_coins`, with what the cache has at its outpoint.
unfoldable pub store_one :
    OutPoint → Option CoinsCacheEntry → Option Coin → Entries × ℕ → Entries × ℕ
store_one outpoint (some entry) found stored = stored
store_one outpoint none none stored = stored
store_one outpoint none (some coin) (cache, added_usage) =
    (insert outpoint (clean coin) cache, added_usage + memory_usage coin)

-- The loop of `prefetch_coins` over the misses and what the base has for them.
unfoldable pub store_fetched : List OutPoint → List (Option Coin) → Entries × ℕ → Entries × ℕ
store_fetched [] results stored = stored
store_fetched (outpoint ∷ outpoints) [] stored = stored
store_fetched (outpoint ∷ outpoints) (maybe_coin ∷ results) stored =
    store_fetched outpoints results
      (store_one outpoint (get stored.0 outpoint) (unspent maybe_coin) stored)

module _ (base : CoinsView) where
  unfoldable pub new : CoinsViewCache
  new = record { cache = []; best_block = base.get_best_block; usage = 0 }

  unfoldable pub fetch_coin : OutPoint → CoinsViewCache → Option Coin × CoinsViewCache
  fetch_coin outpoint c = elim (get c.cache outpoint) [
    | some entry ↦ (unspent (some entry.coin), c)
    | none ↦ store_found outpoint (unspent (base.get_coin outpoint)) c
  ]

  unfoldable pub spend_coin : OutPoint → CoinsViewCache → Option Coin × CoinsViewCache
  spend_coin outpoint c =
      let fetched = (fetch_coin outpoint c).1 in
      elim (get fetched.cache outpoint) [
        | none ↦ (none, fetched)
        | some entry ↦ spend_entry outpoint entry fetched
      ]

  unfoldable pub prefetch_coins : List OutPoint → CoinsViewCache → CoinsViewCache
  prefetch_coins outpoints c =
      let miss_outpoints = misses c.cache outpoints in
      let stored = store_fetched miss_outpoints (base.get_coins miss_outpoints) (c.cache, 0) in
      record c { cache = stored.0; usage = usage_add c.usage stored.1 }

  unfoldable pub have_all : List TxIn → CoinsViewCache → Bool × CoinsViewCache
  have_all [] c = (true, c)
  have_all (input ∷ vin) c =
      let fetched = fetch_coin input.prevout c in
      let rest = have_all vin fetched.1 in
      elim fetched.0 [ none ↦ (false, fetched.1) | some coin ↦ rest ]

  unfoldable pub have_inputs : Transaction → CoinsViewCache → Bool × CoinsViewCache
  have_inputs tx c = if is_coinbase tx then (true, c) else have_all tx.vin c

  unfoldable pub sum_values : Amount → List TxIn → CoinsViewCache → Amount × CoinsViewCache
  sum_values total [] c = (total, c)
  sum_values total (input ∷ vin) c =
      let fetched = fetch_coin input.prevout c in
      sum_values (elim fetched.0 [ none ↦ total | some coin ↦ add_amount total coin.tx_out.value ])
        vin fetched.1

  unfoldable pub get_value_in : Transaction → CoinsViewCache → Amount × CoinsViewCache
  get_value_in tx c = if is_coinbase tx then (pos 0, c) else sum_values (pos 0) tx.vin c

  unfoldable pub get_best_block : CoinsViewCache → Bytes
  get_best_block c = if is_null_hash c.best_block then base.get_best_block else c.best_block

  -- The outputs from number `i` on.
  unfoldable pub add_outputs :
      Bytes → Bool → ℕ → Bool → ℕ → List TxOut → CoinsViewCache → Result Panic CoinsViewCache
  add_outputs txid coinbase height check_for_overwrite i [] c = ok c
  add_outputs txid coinbase height check_for_overwrite i (output ∷ vout) c = do
    let outpoint : OutPoint = record { hash = txid; n = i % 2 ^ 32 }
    let fetched = fetch_coin outpoint c
    let seen : Bool = elim fetched.0 [ none ↦ false | some coin ↦ true ]
    let coin : Coin = record { tx_out = output; height = height; coinbase = coinbase }
    added ←
        add_coin outpoint coin (if check_for_overwrite then seen else coinbase)
          (if check_for_overwrite then fetched.1 else c)
    add_outputs txid coinbase height check_for_overwrite (i + 1) vout added

  unfoldable pub add_coins : Transaction → ℕ → Bool → CoinsViewCache → Result Panic CoinsViewCache
  add_coins tx height check_for_overwrite c =
      add_outputs tx.hash (is_coinbase tx) height check_for_overwrite 0 tx.vout c

-- What `flush_to` writes for an entry: nothing, an erasure or the coin.
unfoldable pub write_of : CoinsCacheEntry → Option (Option Coin)
write_of entry =
    if not entry.flags.dirty
    then none
    else if entry.flags.fresh && is_spent entry.coin
    then none
    else if is_spent entry.coin
    then some none
    else some (some entry.coin)

unfoldable pub push_write :
    OutPoint → Option (Option Coin) → List (OutPoint × Option Coin) → List (OutPoint × Option Coin)
push_write outpoint none rest = rest
push_write outpoint (some write) rest = (outpoint, write) ∷ rest

unfoldable pub writes : Entries → List (OutPoint × Option Coin)
writes [] = []
writes ((outpoint, entry) ∷ cache) = push_write outpoint (write_of entry) (writes cache)

abbrev pub max_retained_bytes : ℕ
max_retained_bytes = 1024 * 1024 * 1024

-- Whether `flush_to` keeps an entry: its coin is unspent and the cache does not grow too large.
unfoldable pub keeps : ℕ → CoinsCacheEntry → Bool
keeps retained_usage entry =
    not (is_spent entry.coin)
    && not (ltb max_retained_bytes (retained_usage + memory_usage entry.coin))

unfoldable pub keep_entry : Bool → OutPoint → CoinsCacheEntry → Entries × ℕ → Entries × ℕ
keep_entry true outpoint entry (cache, usage) = ((outpoint, clean entry.coin) ∷ cache, usage)
keep_entry false outpoint entry rest = rest

-- The entries that `flush_to` keeps, from `retained_usage` on, and their usage.
unfoldable pub retain : ℕ → Entries → Entries × ℕ
retain retained_usage [] = ([], retained_usage)
retain retained_usage ((outpoint, entry) ∷ cache) =
    let keep = keeps retained_usage entry in
    let usage = if keep then retained_usage + memory_usage entry.coin else retained_usage in
    keep_entry keep outpoint entry (retain usage cache)

-- `FlushableCoinsView::batch_write`: the view after it, or none where it fails.
abbrev pub BatchWrite : Type 0
BatchWrite = List (OutPoint × Option Coin) → Bytes → Option CoinsView

-- The end of `flush_to`, after the batch was written or not.
unfoldable pub end_flush :
    Option CoinsView → CoinsView → CoinsViewCache → Bool × CoinsView × CoinsViewCache
end_flush none target c = (false, target, c)
end_flush (some written) target c =
    let kept = retain 0 c.cache in (true, written, record c { cache = kept.0; usage = kept.1 })

-- `flush_to`: its result, the view written to, and the cache.
unfoldable pub flush_to :
    BatchWrite → CoinsView → CoinsViewCache → Bool × CoinsView × CoinsViewCache
flush_to batch_write target c = end_flush (batch_write (writes c.cache) c.best_block) target c
