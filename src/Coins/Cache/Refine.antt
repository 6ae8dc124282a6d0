-- ===== src/Coins/Cache/Refine.antt =====
-- Cache: the operations on the set of coins that a cache stands for.
use qubitcoin.Common.{
  ◌≡◌, ◌↔◌, refl, sym, ◌∙◌, subst, Bool, true, false, not, ◌&&◌, Option, none, some, List, [], ◌∷◌,
  if◌then◌else◌, ok, err, fail_if-eq-ok, arith, Bool-cases, inl, inr, ok-injective, map, ℕ,
}
use qubitcoin.Script.Bytecode.{is_unspendable}
use qubitcoin.Consensus.Transaction.{OutPoint, outpoint_eq}
use qubitcoin.Coins.Map.{get, insert, Unique}
use qubitcoin.Coins.Coin.{Coin, is_spent}
use qubitcoin.Coins.Cache.{
  CoinsCacheEntry, CoinsView, CoinsViewCache, Entries, Panic, unspent, overwrite, add_coin, uncache,
  uncache_entry, add_entry, store_one, fetch_coin, spend_coin, have_coin_in_cache, misses,
  store_fetched, prefetch_coins, new,
}
use qubitcoin.Coins.Cache.View.{
  coin_at, GoodAt, WellFormed, Keeps, Puts, insert-WellFormed, remove-WellFormed, coin_at-insert,
  coin_at-remove, coin_at-hit, store-Keeps, coin_at_same, unspent-live, unspent-spent,
  fetch_coin-Keeps, spend_coin-Puts,
}

-- The entry of a coin that is added.
abbrev added : Coin → Bool → CoinsCacheEntry
added coin is_fresh = record { coin = coin; flags = record { dirty = true; fresh = is_fresh } }

module _ (base : CoinsView) where
  added-Puts :
      (k : OutPoint) (coin : Coin) (is_fresh : Bool) (cache : Entries)
      → is_spent coin ≡ false
      → (is_fresh ≡ true → unspent (base.get_coin k) ≡ none)
      → WellFormed base cache
      → Puts base k (some coin) cache (insert k (added coin is_fresh) cache)
  added-Puts k coin is_fresh cache live under w = (
    (λ l. rw (coin_at-insert base k l (added coin is_fresh) cache, unspent-live coin live) refl),
    insert-WellFormed base k (added coin is_fresh) cache (under, (λ h. cc)) w,
  )

  -- Over a spent entry that is not dirty the coin is fresh, and nothing is under it.
  fresh_over :
      (k : OutPoint) (c : CoinsViewCache) (existing : CoinsCacheEntry) (over : Bool)
      → get c.cache k ≡ some existing
      → WellFormed base c.cache
      → not over && not (is_spent existing.coin) ≡ false
      → not over && not existing.flags.dirty ≡ true
      → unspent (base.get_coin k) ≡ none
  fresh_over k c existing over e w passed f =
      let good = subst (λ o. GoodAt (base.get_coin k) o) e (w.good k) in
      let spent : is_spent existing.coin ≡ true = ground arith in
      let unchanged : existing.flags.dirty ≡ false = ground arith in
      sym (good.1 unchanged) ∙ unspent-spent existing.coin spent

  overwrite-Puts :
      (k : OutPoint) (coin : Coin) (over : Bool) (existing : CoinsCacheEntry)
      (c after : CoinsViewCache)
      → get c.cache k ≡ some existing
      → is_spent coin ≡ false
      → WellFormed base c.cache
      → overwrite k coin over existing c ≡ ok after
      → Puts base k (some coin) c.cache after.cache
  unfolding overwrite
  overwrite-Puts k coin over existing c after e live w h =
      let (passed, done) =
        fail_if-eq-ok (not over && not (is_spent existing.coin)) Panic.overwrites_unspent_coin _
          h in
      let same = ok-injective (ok _) refl done in
      subst (λ (a : CoinsViewCache). Puts base k (some coin) c.cache a.cache) same
        (added-Puts k coin (not over && not existing.flags.dirty) c.cache live
          (fresh_over k c existing over e w passed) w)

  add_entry-Puts :
      (k : OutPoint) (coin : Coin) (over : Bool) (o : Option CoinsCacheEntry)
      (c after : CoinsViewCache)
      → get c.cache k ≡ o
      → is_spent coin ≡ false
      → WellFormed base c.cache
      → (get c.cache k ≡ none → unspent (base.get_coin k) ≡ none)
      → add_entry k coin over o c ≡ ok after
      → Puts base k (some coin) c.cache after.cache
  unfolding add_entry
  add_entry-Puts k coin over (some existing) c after e live w absent h =
      overwrite-Puts k coin over existing c after e live w h
  add_entry-Puts k coin over none c after e live w absent h =
      subst (λ (a : CoinsViewCache). Puts base k (some coin) c.cache a.cache)
        (ok-injective (ok _) refl h) (added-Puts k coin true c.cache live (λ t. absent e) w)

  add_coin-Puts :
      (k : OutPoint) (coin : Coin) (over : Bool) (c after : CoinsViewCache)
      → WellFormed base c.cache
      → is_unspendable coin.tx_out.script_pubkey ≡ false
      → (get c.cache k ≡ none → unspent (base.get_coin k) ≡ none)
      → add_coin k coin over c ≡ ok after
      → Puts base k (some coin) c.cache after.cache
  unfolding add_coin
  add_coin-Puts k coin over c after w spendable absent h =
      let (live, h1) = fail_if-eq-ok (is_spent coin) Panic.adds_spent_coin _ h in
      let h2 =
        subst (λ b. (if b then ok c else add_entry k coin over (get c.cache k) c) ≡ ok after)
          spendable h1 in
      add_entry-Puts k coin over (get c.cache k) c after refl live w absent h2

  uncache_entry-Keeps :
      (k : OutPoint) (o : Option CoinsCacheEntry) (c : CoinsViewCache)
      → get c.cache k ≡ o
      → WellFormed base c.cache
      → Keeps base c.cache (uncache_entry k o c).cache
  unfolding uncache_entry
  uncache_entry-Keeps k none c e w = ((λ l. refl), w)
  uncache_entry-Keeps k (some entry) c e w = elim (Bool-cases entry.flags.dirty) [
    | inl d ↦ rw d ((λ l. refl), w)
    | inr d ↦
        let good = subst (λ o. GoodAt (base.get_coin k) o) e (w.good k) in
        let same = coin_at-hit base c.cache k entry e ∙ good.1 d in
        rw d (
          (λ l. rw (coin_at-remove base k l c.cache) (elim (Bool-cases (outpoint_eq k l)) [
            | inl o ↦ rw o (sym same ∙ coin_at_same base c.cache k l o)
            | inr o ↦ rw o refl
          ])),
          remove-WellFormed base k c.cache w,
        )
  ]

  store_one-Keeps :
      (k : OutPoint) (o : Option CoinsCacheEntry) (found : Option Coin) (stored : Entries × ℕ)
      → get stored.0 k ≡ o
      → unspent (base.get_coin k) ≡ found
      → WellFormed base stored.0
      → Keeps base stored.0 (store_one k o found stored).0
  unfolding store_one
  store_one-Keeps k (some entry) found stored e u w = ((λ l. refl), w)
  store_one-Keeps k none none stored e u w = ((λ l. refl), w)
  store_one-Keeps k none (some coin) (cache, added_usage) e u w =
      store-Keeps base k coin cache e u w

  -- What `get_coins` is asked for is what `get_coin` gives.
  store_fetched-Keeps :
      (outpoints : List OutPoint) (stored : Entries × ℕ)
      → WellFormed base stored.0
      → Keeps base stored.0 (store_fetched outpoints (map base.get_coin outpoints) stored).0
  unfolding store_fetched
  store_fetched-Keeps [] stored w = ((λ l. refl), w)
  store_fetched-Keeps (k ∷ outpoints) stored w =
      let (same, good) =
        store_one-Keeps k (get stored.0 k) (unspent (base.get_coin k)) stored refl refl w in
      let (then_same, then_good) =
        store_fetched-Keeps outpoints
          (store_one k (get stored.0 k) (unspent (base.get_coin k)) stored) good in
      ((λ l. then_same l ∙ same l), then_good)

-- The operations of a cache on the coins that it stands for.
pub record Refines (base : CoinsView) (c : CoinsViewCache) : Type 0 where
  pub fetches :
      (k : OutPoint)
      → ((fetch_coin base k c).0 ≡ coin_at base c.cache k)
        × Keeps base c.cache (fetch_coin base k c).1.cache
  pub spends :
      (k : OutPoint)
      → ((spend_coin base k c).0 ≡ coin_at base c.cache k)
        × Puts base k none c.cache (spend_coin base k c).1.cache
  pub adds :
      (k : OutPoint) (coin : Coin) (over : Bool) (after : CoinsViewCache)
      → is_unspendable coin.tx_out.script_pubkey ≡ false
      → (get c.cache k ≡ none → unspent (base.get_coin k) ≡ none)
      → add_coin k coin over c ≡ ok after
      → Puts base k (some coin) c.cache after.cache
  pub uncaches : (k : OutPoint) → Keeps base c.cache (uncache k c).cache
  pub prefetches :
      (outpoints : List OutPoint) → Keeps base c.cache (prefetch_coins base outpoints c).cache

-- A cache whose entries are good implements a map from outpoints to unspent coins: `fetch_coin`
-- returns the coin there; `spend_coin` returns it and takes that coin alone away; `add_coin`, where
-- it succeeds for a coin with a spendable script at an outpoint that is in the cache or has no coin
-- in the base, puts the coin there and changes no other; `fetch_coin`, `uncache` and
-- `prefetch_coins` change nothing. Each leaves the entries good. The base is assumed to answer
-- `get_coins` as `get_coin` for each.
pub cache-Refines :
    (base : CoinsView)
    → ((outpoints : List OutPoint) → base.get_coins outpoints ≡ map base.get_coin outpoints)
    → (c : CoinsViewCache) → WellFormed base c.cache
    → Refines base c
unfolding uncache prefetch_coins
cache-Refines base batch c w = record {
  fetches = λ k. fetch_coin-Keeps base k c w;
  spends = λ k. spend_coin-Puts base k c w;
  adds = λ k coin over after s a h. add_coin-Puts base k coin over c after w s a h;
  uncaches = λ k. uncache_entry-Keeps base k (get c.cache k) c refl w;
  prefetches = λ outpoints.
      rw (batch (misses c.cache outpoints))
        (store_fetched-Keeps base (misses c.cache outpoints) (c.cache, 0) w);
}

pub new-WellFormed : (base : CoinsView) → WellFormed base (new base).cache
unfolding new get Unique
new-WellFormed base = record { good = λ l. tt; unique = tt }

have_coin_in_cache-some :
    (c : CoinsViewCache) (k : OutPoint) (o : Option CoinsCacheEntry)
    → get c.cache k ≡ o
    → have_coin_in_cache c k ≡ (elim o [ none ↦ false | some entry ↦ not (is_spent entry.coin) ])
unfolding have_coin_in_cache
have_coin_in_cache-some c k o e = rw (e, have_coin_in_cache) refl

abbrev Refused : OutPoint → Coin → Bool → CoinsViewCache → Type 0
Refused k coin over c =
    (is_spent coin ≡ false)
    × (is_unspendable coin.tx_out.script_pubkey ≡ false)
    × (over ≡ false)
    × (have_coin_in_cache c k ≡ true)

refused_iff :
    (k : OutPoint) (coin : Coin) (over : Bool) (c : CoinsViewCache) (o : Option CoinsCacheEntry)
    → get c.cache k ≡ o
    → (add_entry k coin over o c ≡ err Panic.overwrites_unspent_coin)
      ↔ ((over ≡ false) × (have_coin_in_cache c k ≡ true))
unfolding add_entry overwrite
refused_iff k coin over c none e = ground (arith, have_coin_in_cache-some c k none e)
refused_iff k coin over c (some entry) e =
    ground (arith, have_coin_in_cache-some c k (some entry) e)

-- `add_coin` panics over an unspent coin exactly when the new coin is unspent, its script is
-- spendable, overwriting is not allowed, and the cache holds an unspent coin at the outpoint. What
-- the base holds makes no difference.
pub add_coin-overwrites :
    (k : OutPoint) (coin : Coin) (over : Bool) (c : CoinsViewCache)
    → (add_coin k coin over c ≡ err Panic.overwrites_unspent_coin) ↔ Refused k coin over c
unfolding add_coin
add_coin-overwrites k coin over c = ground (arith, refused_iff k coin over c (get c.cache k) refl)
