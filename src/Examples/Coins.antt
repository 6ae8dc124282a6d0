-- ===== src/Examples/Coins.antt =====
-- Coins: a base with one coin, and a cache over it.
use qubitcoin.Common.{
  ◌≡◌, ◌↔◌, refl, sym, ap, Bool, true, false, Option, none, some, [], ◌∷◌, map, replicate,
  if◌then◌else◌, ok, err,
}
use qubitcoin.Common.Int.{pos}
use qubitcoin.Script.Bytecode.{is_unspendable}
use qubitcoin.Consensus.Transaction.{OutPoint, outpoint_eq, is_null_tx_out}
use qubitcoin.Coins.Map.{get, insert, remove}
use qubitcoin.Coins.Coin.{Coin, is_spent}
use qubitcoin.Coins.Cache.{
  CoinsView, CoinsViewCache, Panic, unspent, fetch_coin, store_found, spend_coin, spend_entry,
  add_coin, add_entry, overwrite, new, BatchWrite, flush_to, end_flush, writes, write_of,
  push_write, retain, have_coin_in_cache,
}
use qubitcoin.Coins.Cache.View.{coin_at, WellFormed, fetch_coin-Keeps, spend_coin-Puts}
use qubitcoin.Coins.Cache.Refine.{Refines, cache-Refines, new-WellFormed, add_coin-overwrites}
use qubitcoin.Coins.Cache.Flush.{after_write}
use qubitcoin.Coins.Cache.Handover.{Applies, HandedOver, flush_to-HandedOver}
use qubitcoin.Coins.Cache.Overwrite.{add_coin-spend_coin}

abbrev here : OutPoint
here = record { hash = replicate 32 1; n = 0 }

abbrev there : OutPoint
there = record { hash = replicate 32 1; n = 1 }

abbrev old_coin : Coin
old_coin = record {
  tx_out = record { value = pos 5000; script_pubkey = 0x51 ∷ [] };
  height = 7;
  coinbase = false;
}

abbrev new_coin : Coin
new_coin = record {
  tx_out = record { value = pos 70; script_pubkey = 0x52 ∷ [] };
  height = 9;
  coinbase = true;
}

abbrev base_coin : OutPoint → Option Coin
base_coin p = if outpoint_eq p here then some old_coin else none

abbrev base : CoinsView
base = record { get_coin = base_coin; get_coins = map base_coin; get_best_block = replicate 32 9 }

-- The coin of the base, fetched.
abbrev fetched : CoinsViewCache
fetched = (fetch_coin base here (new base)).1

fetched-WellFormed : WellFormed base fetched.cache
fetched-WellFormed = (fetch_coin-Keeps base here (new base) (new-WellFormed base)).1.1

fetch_once : (fetch_coin base here (new base)).0 ≡ some old_coin
unfolding fetch_coin new get unspent is_spent is_null_tx_out outpoint_eq store_found
fetch_once = refl

cache-Refines_example : Refines base fetched
cache-Refines_example = cache-Refines base (λ outpoints. refl) fetched fetched-WellFormed

-- A base that writes what it is given.
abbrev write_all : BatchWrite
write_all batch best_block =
    let coin = λ (k : OutPoint). after_write (base_coin k) (get batch k) in
    some (record { get_coin = coin; get_coins = map coin; get_best_block = best_block })

abbrev view_or : Option CoinsView → CoinsView
view_or none = base
view_or (some view) = view

write_all-Applies : Applies base write_all
write_all-Applies batch best_block written u h =
    ((λ k. ap (λ o. (view_or o).get_coin k) (sym h)), ap (λ o. (view_or o).get_best_block) (sym h))

-- The coin of the base, spent in the cache.
abbrev spent : CoinsViewCache
spent = (spend_coin base here (new base)).1

abbrev flushed : CoinsViewCache
flushed = record spent { cache = (retain 0 spent.cache).0; usage = (retain 0 spent.cache).1 }

abbrev written : CoinsView
written = view_or (write_all (writes spent.cache) spent.best_block)

spent-WellFormed : WellFormed base spent.cache
spent-WellFormed = (spend_coin-Puts base here (new base) (new-WellFormed base)).1.1

flush_once : flush_to write_all base spent ≡ (true, written, flushed)
unfolding flush_to end_flush
flush_once = refl

flush_to-HandedOver_example : HandedOver base spent written flushed
flush_to-HandedOver_example =
    flush_to-HandedOver base write_all spent flushed written write_all-Applies spent-WellFormed
      flush_once

-- After the flush the base no longer has the coin that was spent.
erased : written.get_coin here ≡ none
unfolding spend_coin spend_entry fetch_coin store_found new writes write_of push_write get insert
    remove unspent is_spent is_null_tx_out outpoint_eq
erased = refl

over_base : unspent (base.get_coin here) ≡ some old_coin
unfolding unspent is_spent is_null_tx_out outpoint_eq
over_base = refl

new_coin_live : is_spent new_coin ≡ false
unfolding is_spent is_null_tx_out
new_coin_live = refl

new_coin_spendable : is_unspendable new_coin.tx_out.script_pubkey ≡ false
unfolding is_unspendable
new_coin_spendable = refl

new_absent : get (new base).cache here ≡ none
unfolding new get
new_absent = refl

add_coin-spend_coin_example :
    (after : CoinsViewCache) × (add_coin here new_coin true (new base) ≡ ok after)
    × ((spend_coin base here after).0 ≡ some new_coin)
    × (coin_at base (spend_coin base here after).1.cache here ≡ some old_coin)
add_coin-spend_coin_example =
    add_coin-spend_coin base here old_coin new_coin true (new base) new_absent over_base
      new_coin_live new_coin_spendable

add_coin-overwrites_example :
    (add_coin here new_coin false fetched ≡ err Panic.overwrites_unspent_coin) ↔ (
      (is_spent new_coin ≡ false)
      × (is_unspendable new_coin.tx_out.script_pubkey ≡ false)
      × (◌≡◌ {A = Bool} false false)
      × (have_coin_in_cache fetched here ≡ true))
add_coin-overwrites_example = add_coin-overwrites here new_coin false fetched

overwrite_panics : add_coin here new_coin false fetched ≡ err Panic.overwrites_unspent_coin
unfolding add_coin add_entry overwrite fetch_coin store_found new get insert unspent is_spent
    is_null_tx_out outpoint_eq is_unspendable
overwrite_panics = refl
