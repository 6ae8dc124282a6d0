-- ===== src/Coins/Cache/Overwrite.antt =====
-- Cache: a coin put over one that only the base holds.
use qubitcoin.Common.{◌≡◌, refl, ◌∙◌, ap, Bool, true, false, none, some, ok}
use qubitcoin.Script.Bytecode.{is_unspendable}
use qubitcoin.Consensus.Transaction.{OutPoint}
use qubitcoin.Consensus.Check.Spec.{outpoint_eq_refl}
use qubitcoin.Coins.Map.{get, insert, remove, get-insert}
use qubitcoin.Coins.Coin.{Coin, is_spent, memory_usage}
use qubitcoin.Coins.Cache.{
  CoinsCacheEntry, CoinsView, CoinsViewCache, unspent, usage_add, add_entry, add_coin, spend_entry,
  fetch_coin, spend_coin,
}
use qubitcoin.Coins.Cache.View.{coin_at, coin_at-remove, spend_coin-hit}

-- The cache after `add_coin` for an outpoint that it does not hold.
abbrev added : OutPoint → Coin → CoinsViewCache → CoinsViewCache
added k coin c = record c {
  cache = insert k (record { coin = coin; flags = record { dirty = true; fresh = true } }) c.cache;
  usage = usage_add c.usage (memory_usage coin);
}

abbrev fresh_entry : Coin → CoinsCacheEntry
fresh_entry coin = record { coin = coin; flags = record { dirty = true; fresh = true } }

add_coin-absent :
    (k : OutPoint) (coin : Coin) (over : Bool) (c : CoinsViewCache)
    → get c.cache k ≡ none
    → is_spent coin ≡ false
    → is_unspendable coin.tx_out.script_pubkey ≡ false
    → add_coin k coin over c ≡ ok (added k coin c)
unfolding add_coin add_entry
add_coin-absent k coin over c absent live spendable = rw (live, spendable, absent) refl

added-there :
    (k : OutPoint) (coin : Coin) (c : CoinsViewCache)
    → get (added k coin c).cache k ≡ some (fresh_entry coin)
added-there k coin c = rw (get-insert k k (fresh_entry coin) c.cache, outpoint_eq_refl k) refl

module _ (base : CoinsView) where
  fetch_coin-there :
      (k : OutPoint) (c : CoinsViewCache) (entry : CoinsCacheEntry)
      → get c.cache k ≡ some entry
      → (fetch_coin base k c).1 ≡ c
  unfolding fetch_coin
  fetch_coin-there k c entry e = rw (e, fetch_coin) refl

  spend_coin-fresh :
      (k : OutPoint) (coin : Coin) (c : CoinsViewCache)
      → get c.cache k ≡ some (fresh_entry coin)
      → is_spent coin ≡ false
      → ((spend_coin base k c).0 ≡ some coin) × ((spend_coin base k c).1.cache ≡ remove k c.cache)
  unfolding spend_entry
  spend_coin-fresh k coin c e live =
      let there = fetch_coin-there k c (fresh_entry coin) e in
      let entry = ap (λ (s : CoinsViewCache). get s.cache k) there ∙ e in
      let hit =
        spend_coin-hit base k c (fresh_entry coin) entry
        ∙ ap (spend_entry k (fresh_entry coin)) there in
      rw (hit, live) (refl, refl)

  -- Where the cache does not hold an outpoint and the base has an unspent coin there, `add_coin` puts
  -- a coin over it whether overwriting is allowed or not; spending that coin succeeds, and then the
  -- coin of the base shows again.
  pub add_coin-spend_coin :
      (k : OutPoint) (old coin : Coin) (over : Bool) (c : CoinsViewCache)
      → get c.cache k ≡ none
      → unspent (base.get_coin k) ≡ some old
      → is_spent coin ≡ false
      → is_unspendable coin.tx_out.script_pubkey ≡ false
      → (after : CoinsViewCache) × (add_coin k coin over c ≡ ok after)
        × ((spend_coin base k after).0 ≡ some coin)
        × (coin_at base (spend_coin base k after).1.cache k ≡ some old)
  add_coin-spend_coin k old coin over c absent under live spendable =
      let (spent, left) = spend_coin-fresh k coin (added k coin c) (added-there k coin c) live in
      let back : coin_at base (remove k (added k coin c).cache) k ≡ some old =
        rw (coin_at-remove base k k (added k coin c).cache, outpoint_eq_refl k) under in
      (added k coin c, add_coin-absent k coin over c absent live spendable, spent, rw left back)
