-- ===== src/Coins/Cache/Handover.antt =====
-- Cache: `flush_to` hands the coins on to the base, and `flush` does not.
use qubitcoin.Common.{
  ◌≤◌, ◌≡◌, refl, sym, ◌∙◌, ap, subst, Bool, true, Option, none, some, List, arith, Option-cases,
  inl, inr,
}
use qubitcoin.Common.Bytes.{Bytes}
use qubitcoin.Consensus.Transaction.{OutPoint}
use qubitcoin.Coins.Map.{get, Unique}
use qubitcoin.Coins.Coin.{Coin}
use qubitcoin.Coins.Cache.{
  CoinsCacheEntry, CoinsView, CoinsViewCache, Entries, clean, unspent, writes, max_retained_bytes,
  retain, BatchWrite, end_flush, flush_to,
}
use qubitcoin.Coins.Cache.View.{coin_at, GoodAt, WellFormed, coin_at-hit, coin_at-miss}
use qubitcoin.Coins.Cache.Flush.{
  write_at, after_write, get-writes, writes-Unique, write_of-shown, get-retain, retain-Unique,
  retain_bound,
}

-- What `batch_write` is documented to do with a batch that names no outpoint twice: write, erase,
-- and keep the best block.
abbrev pub Applies : CoinsView → BatchWrite → Type 0
Applies base batch_write =
    (batch : List (OutPoint × Option Coin)) (best_block : Bytes) (written : CoinsView)
    → Unique batch
    → batch_write batch best_block ≡ some written
    → ((k : OutPoint) → written.get_coin k ≡ after_write (base.get_coin k) (get batch k))
      × (written.get_best_block ≡ best_block)

module _ (base : CoinsView) (batch_write : BatchWrite) (applies : Applies base batch_write) where
  written-shows :
      (cache : Entries) (best_block : Bytes) (written : CoinsView) (k : OutPoint)
      → WellFormed base cache
      → batch_write (writes cache) best_block ≡ some written
      → unspent (written.get_coin k) ≡ coin_at base cache k
  written-shows cache best_block written k w h =
      let (coins, best) =
        applies (writes cache) best_block written (writes-Unique cache w.unique) h in
      let there = coins k ∙ ap (after_write (base.get_coin k)) (get-writes k cache w.unique) in
      elim (Option-cases (get cache k)) [
        | inl e ↦
            let nothing = ap (λ o. after_write (base.get_coin k) (write_at o)) e in
            ap unspent (there ∙ nothing) ∙ sym (coin_at-miss base cache k e)
        | inr (entry, e) ↦
            let good = subst (λ o. GoodAt (base.get_coin k) o) e (w.good k) in
            let its = ap (λ o. after_write (base.get_coin k) (write_at o)) e in
            ap unspent (there ∙ its)
            ∙ write_of-shown (base.get_coin k) entry good
            ∙ sym (coin_at-hit base cache k entry e)
      ]

-- What is kept of a cache is good for a view that shows the same coins.
module _ (base written : CoinsView) (cache : Entries) (w : WellFormed base cache)
    (shows : (k : OutPoint) → unspent (written.get_coin k) ≡ coin_at base cache k) where
  kept_entry :
      (k : OutPoint) (entry : CoinsCacheEntry)
      → get cache k ≡ some entry
      → unspent (some entry.coin) ≡ unspent (written.get_coin k)
  kept_entry k entry e = sym (coin_at-hit base cache k entry e) ∙ sym (shows k)

  kept-good : (k : OutPoint) → GoodAt (written.get_coin k) (get (retain 0 cache).0 k)
  kept-good k = elim (get-retain 0 k cache w.unique) [
    | inl e ↦ rw e tt
    | inr (entry, e, kept) ↦ rw kept ((λ h. cc), (λ h. kept_entry k entry e))
  ]

  kept-shows : (k : OutPoint) → coin_at written (retain 0 cache).0 k ≡ coin_at base cache k
  kept-shows k = elim (get-retain 0 k cache w.unique) [
    | inl e ↦ coin_at-miss written (retain 0 cache).0 k e ∙ shows k
    | inr (entry, e, kept) ↦
        coin_at-hit written (retain 0 cache).0 k (clean entry.coin) kept
        ∙ sym (coin_at-hit base cache k entry e)
  ]

-- After a flush the base alone shows every coin that the cache showed, and the cache over the new
-- base does too; its entries are good, and it uses at most `max_retained_bytes`.
pub record HandedOver (base : CoinsView) (c : CoinsViewCache) (written : CoinsView)
    (after : CoinsViewCache) : Type 0 where
  pub base_shows : (k : OutPoint) → unspent (written.get_coin k) ≡ coin_at base c.cache k
  pub cache_shows : (k : OutPoint) → coin_at written after.cache k ≡ coin_at base c.cache k
  pub well_formed : WellFormed written after.cache
  pub usage_bound : after.usage ≤ max_retained_bytes
  pub best : written.get_best_block ≡ c.best_block

end_flush-Over :
    (base : CoinsView) (batch_write : BatchWrite) (c after : CoinsViewCache) (written : CoinsView)
    (o : Option CoinsView)
    → Applies base batch_write
    → WellFormed base c.cache
    → batch_write (writes c.cache) c.best_block ≡ o
    → end_flush o base c ≡ (true, written, after)
    → HandedOver base c written after
unfolding end_flush
end_flush-Over base batch_write c after written none applies w h e =
    let success = ap (λ (r : Bool × CoinsView × CoinsViewCache). r.0) e in cc
end_flush-Over base batch_write c after written (some new) applies w h e =
    let to : new ≡ written = ap (λ (r : Bool × CoinsView × CoinsViewCache). r.1) e in
    let next = ap (λ (r : Bool × CoinsView × CoinsViewCache). r.2) e in
    let shows =
      λ (k : OutPoint). written-shows base batch_write applies c.cache c.best_block new k w h in
    let kept = retain 0 c.cache in
    let done : HandedOver base c new (record c { cache = kept.0; usage = kept.1 }) = record {
      base_shows = shows;
      cache_shows = kept-shows base new c.cache w shows;
      well_formed = record {
        good = kept-good base new c.cache w shows;
        unique = retain-Unique 0 c.cache w.unique;
      };
      usage_bound = retain_bound 0 c.cache (omega arith);
      best = (applies (writes c.cache) c.best_block new (writes-Unique c.cache w.unique) h).1;
    } in
    subst (λ (a : CoinsViewCache). HandedOver base c written a) next
      (subst (λ v. HandedOver base c v (record c { cache = kept.0; usage = kept.1 })) to done)

-- A flush that succeeds hands every coin over: afterwards the base alone shows each coin that the
-- cache showed before, spent ones gone, and carries its best block; the cache over the new base
-- shows the same coins, its entries are good for that base, and it uses at most 1 GiB. `batch_write`
-- is assumed to write, erase and keep the best block as documented.
pub flush_to-HandedOver :
    (base : CoinsView) (batch_write : BatchWrite) (c after : CoinsViewCache) (written : CoinsView)
    → Applies base batch_write
    → WellFormed base c.cache
    → flush_to batch_write base c ≡ (true, written, after)
    → HandedOver base c written after
unfolding flush_to
flush_to-HandedOver base batch_write c after written applies w h =
    end_flush-Over base batch_write c after written (batch_write (writes c.cache) c.best_block)
      applies w refl h
