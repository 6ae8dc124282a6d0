-- ===== src/Coins/Cache/View.antt =====
-- Cache: what the cache shows is a map from outpoints to unspent coins, and the operations act on it.
use qubitcoin.Common.{
  ◌≡◌, refl, sym, ◌∙◌, ap, subst, true, false, Option, none, some, if◌then◌else◌, arith, Bool-cases,
  Option-cases, inl, inr, ◌⊎◌,
}
use qubitcoin.Consensus.Transaction.{OutPoint, outpoint_eq, is_null_tx_out}
use qubitcoin.Consensus.Check.Spec.{outpoint_eq-eq, outpoint_eq_refl}
use qubitcoin.Coins.Map.{
  get, insert, remove, Unique, get-insert, get-remove, insert-Unique, remove-Unique,
}
use qubitcoin.Coins.Coin.{Coin, empty, is_spent, memory_usage}
use qubitcoin.Coins.Cache.{
  CoinsCacheEntry, CoinsView, CoinsViewCache, Entries, clean, unspent, spend_entry, fetch_coin,
  store_found, spend_coin, usage_add,
}

-- The coin that an entry, or the view under the cache, shows.
abbrev pub shown : Option Coin → Option CoinsCacheEntry → Option Coin
shown under none = unspent under
shown under (some entry) = unspent (some entry.coin)

-- The set of coins that a cache over a view stands for.
unfoldable pub coin_at : CoinsView → Entries → OutPoint → Option Coin
coin_at base cache outpoint = shown (base.get_coin outpoint) (get cache outpoint)

-- A fresh entry has nothing under it, and one that is not dirty is what lies under it.
abbrev pub GoodEntry : Option Coin → CoinsCacheEntry → Type 0
GoodEntry under entry =
    (entry.flags.fresh ≡ true → unspent under ≡ none)
    × (entry.flags.dirty ≡ false → unspent (some entry.coin) ≡ unspent under)

abbrev pub GoodAt : Option Coin → Option CoinsCacheEntry → Type 0
GoodAt under none = Unit {0}
GoodAt under (some entry) = GoodEntry under entry

-- Every entry is good for the view under the cache, and no outpoint has two.
pub record WellFormed (base : CoinsView) (cache : Entries) : Type 0 where
  pub good : (outpoint : OutPoint) → GoodAt (base.get_coin outpoint) (get cache outpoint)
  pub unique : Unique cache

module _ (base : CoinsView) where
  pub insert-WellFormed :
      (k : OutPoint) (entry : CoinsCacheEntry) (cache : Entries)
      → GoodEntry (base.get_coin k) entry
      → WellFormed base cache
      → WellFormed base (insert k entry cache)
  insert-WellFormed k entry cache e w = record {
    good = λ l. rw (get-insert k l entry cache) (elim (Bool-cases (outpoint_eq k l)) [
      | inl same ↦
          rw same (subst (λ p. GoodEntry (base.get_coin p) entry) (outpoint_eq-eq k l same) e)
      | inr other ↦ rw other (w.good l)
    ]);
    unique = insert-Unique k entry cache w.unique;
  }

  pub remove-WellFormed :
      (k : OutPoint) (cache : Entries) → WellFormed base cache → WellFormed base (remove k cache)
  remove-WellFormed k cache w = record {
    good = λ l. rw (get-remove k l cache) (elim (Bool-cases (outpoint_eq k l)) [
      | inl same ↦ rw same tt
      | inr other ↦ rw other (w.good l)
    ]);
    unique = remove-Unique k cache w.unique;
  }

  pub coin_at-insert :
      (k l : OutPoint) (entry : CoinsCacheEntry) (cache : Entries)
      → coin_at base (insert k entry cache) l
        ≡ (if outpoint_eq k l then unspent (some entry.coin) else coin_at base cache l)
  unfolding coin_at
  coin_at-insert k l entry cache =
      rw (get-insert k l entry cache)
        (elim (Bool-cases (outpoint_eq k l)) [ inl e ↦ rw e refl | inr e ↦ rw e refl ])

  pub coin_at-remove :
      (k l : OutPoint) (cache : Entries)
      → coin_at base (remove k cache) l
        ≡ (if outpoint_eq k l then unspent (base.get_coin k) else coin_at base cache l)
  unfolding coin_at
  coin_at-remove k l cache = rw (get-remove k l cache) (elim (Bool-cases (outpoint_eq k l)) [
    | inl e ↦ rw e (ap (λ p. unspent (base.get_coin p)) (sym (outpoint_eq-eq k l e)))
    | inr e ↦ rw e refl
  ])

-- What is found unspent is shown as it is.
unspent_twice :
    (o : Option Coin) (coin : Coin) → unspent o ≡ some coin → unspent (some coin) ≡ some coin
unfolding unspent
unspent_twice none coin h = cc
unspent_twice (some c) coin h = ground arith

pub unspent-none : unspent none ≡ none
unfolding unspent
unspent-none = refl

pub unspent-live : (coin : Coin) → is_spent coin ≡ false → unspent (some coin) ≡ some coin
unfolding unspent
unspent-live coin h = rw h refl

pub unspent-spent : (coin : Coin) → is_spent coin ≡ true → unspent (some coin) ≡ none
unfolding unspent
unspent-spent coin h = rw h refl

empty-spent : is_spent empty ≡ true
unfolding is_spent is_null_tx_out
empty-spent = refl

-- The same coins are shown, and the entries are good.
abbrev pub Keeps : CoinsView → Entries → Entries → Type 0
Keeps base before after =
    ((l : OutPoint) → coin_at base after l ≡ coin_at base before l) × WellFormed base after

-- At one outpoint the coin given is shown, elsewhere the same as before, and the entries are good.
abbrev pub Puts : CoinsView → OutPoint → Option Coin → Entries → Entries → Type 0
Puts base k coin before after =
    ((l : OutPoint)
      → coin_at base after l ≡ (if outpoint_eq k l then coin else coin_at base before l))
    × WellFormed base after

module _ (base : CoinsView) where
  pub coin_at_same :
      (cache : Entries) (k l : OutPoint)
      → outpoint_eq k l ≡ true
      → coin_at base cache k ≡ coin_at base cache l
  coin_at_same cache k l h = ap (coin_at base cache) (outpoint_eq-eq k l h)

  -- A coin of the base, stored clean.
  pub store-Keeps :
      (k : OutPoint) (coin : Coin) (cache : Entries)
      → get cache k ≡ none
      → unspent (base.get_coin k) ≡ some coin
      → WellFormed base cache
      → Keeps base cache (insert k (clean coin) cache)
  store-Keeps k coin cache absent found w =
      let live = unspent_twice (base.get_coin k) coin found in
      let here : coin_at base cache k ≡ some coin = unfold coin_at in rw (absent) found in
      (
        (λ l.
            rw (coin_at-insert base k l (clean coin) cache, live)
              (elim (Bool-cases (outpoint_eq k l)) [
                | inl e ↦ rw e (sym here ∙ coin_at_same cache k l e)
                | inr e ↦ rw e refl
              ])),
        insert-WellFormed base k (clean coin) cache ((λ h. cc), (λ h. live ∙ sym found)) w,
      )

  pub coin_at-hit :
      (cache : Entries) (k : OutPoint) (entry : CoinsCacheEntry)
      → get cache k ≡ some entry
      → coin_at base cache k ≡ unspent (some entry.coin)
  unfolding coin_at
  coin_at-hit cache k entry e = rw e refl

  pub coin_at-miss :
      (cache : Entries) (k : OutPoint)
      → get cache k ≡ none
      → coin_at base cache k ≡ unspent (base.get_coin k)
  unfolding coin_at
  coin_at-miss cache k e = rw e refl

  -- The cache after a miss that the base could serve.
  abbrev stored : OutPoint → Coin → CoinsViewCache → CoinsViewCache
  stored k coin c = record c {
    cache = insert k (clean coin) c.cache;
    usage = usage_add c.usage (memory_usage coin);
  }

  fetch_coin_missing :
      (k : OutPoint) (c : CoinsViewCache) (o : Option Coin)
      → get c.cache k ≡ none
      → unspent (base.get_coin k) ≡ o
      → fetch_coin base k c ≡ store_found k o c
  unfolding fetch_coin
  fetch_coin_missing k c o e u = rw (e, u, fetch_coin) refl

  fetch_coin-cases :
      (k : OutPoint) (c : CoinsViewCache)
      → ((entry : CoinsCacheEntry) × (get c.cache k ≡ some entry)
          × (fetch_coin base k c ≡ (unspent (some entry.coin), c)))
        ⊎ ((get c.cache k ≡ none)
            × (unspent (base.get_coin k) ≡ none)
            × (fetch_coin base k c ≡ (none, c)))
        ⊎ ((coin : Coin) × (get c.cache k ≡ none)
            × (unspent (base.get_coin k) ≡ some coin)
            × (fetch_coin base k c ≡ (some coin, stored k coin c)))
  unfolding fetch_coin store_found
  fetch_coin-cases k c = elim (Option-cases (get c.cache k)) [
    | inr (entry, e) ↦ inl (entry, e, rw (e, fetch_coin) refl)
    | inl e ↦ elim (Option-cases (unspent (base.get_coin k))) [
      | inl u ↦ inr (inl (e, u, fetch_coin_missing k c none e u))
      | inr (coin, u) ↦ inr (inr (coin, e, u, fetch_coin_missing k c (some coin) e u))
    ]
  ]

  pub fetch_coin-Keeps :
      (k : OutPoint) (c : CoinsViewCache)
      → WellFormed base c.cache
      → ((fetch_coin base k c).0 ≡ coin_at base c.cache k)
        × Keeps base c.cache (fetch_coin base k c).1.cache
  fetch_coin-Keeps k c w = elim (fetch_coin-cases k c) [
    | inl (entry, e, f) ↦ rw f (sym (coin_at-hit c.cache k entry e), ((λ l. refl), w))
    | inr (inl (e, u, f)) ↦ rw f (sym (coin_at-miss c.cache k e ∙ u), ((λ l. refl), w))
    | inr (inr (coin, e, u, f)) ↦
        rw f (sym (coin_at-miss c.cache k e ∙ u), store-Keeps k coin c.cache e u w)
  ]

  -- What is not in the cache after a look for it is nowhere.
  fetched-absent :
      (k : OutPoint) (c : CoinsViewCache)
      → get (fetch_coin base k c).1.cache k ≡ none
      → unspent (base.get_coin k) ≡ none
  fetched-absent k c h = elim (fetch_coin-cases k c) [
    | inl (entry, e, f) ↦ let there = subst (λ r. get r.1.cache k ≡ none) f h in cc
    | inr (inl (e, u, f)) ↦ u
    | inr (inr (coin, e, u, f)) ↦
        let there = subst (λ r. get r.1.cache k ≡ none) f h in
        let put = get-insert k k (clean coin) c.cache in
        ground (arith, there, put, outpoint_eq_refl k)
  ]

  -- The entry of a coin that was spent.
  abbrev gone : CoinsCacheEntry
  gone = record { coin = empty; flags = record { dirty = true; fresh = false } }

  spend_entry-Puts :
      (k : OutPoint) (entry : CoinsCacheEntry) (c : CoinsViewCache)
      → get c.cache k ≡ some entry
      → WellFormed base c.cache
      → ((spend_entry k entry c).0 ≡ coin_at base c.cache k)
        × Puts base k none c.cache (spend_entry k entry c).1.cache
  unfolding spend_entry
  spend_entry-Puts k entry c e w = elim (Bool-cases (is_spent entry.coin)) [
    | inl s ↦
        let none_here = coin_at-hit c.cache k entry e ∙ unspent-spent entry.coin s in
        rw s (
          sym none_here,
          (
            (λ l. elim (Bool-cases (outpoint_eq k l)) [
              | inl o ↦ rw o (sym (coin_at_same c.cache k l o) ∙ none_here)
              | inr o ↦ rw o refl
            ]),
            w,
          ),
        )
    | inr s ↦
        let here = coin_at-hit c.cache k entry e ∙ unspent-live entry.coin s in
        let good = subst (λ o. GoodAt (base.get_coin k) o) e (w.good k) in
        elim (Bool-cases entry.flags.fresh) [
          | inl f ↦
              rw (s, f)
                (
                  sym here,
                  (
                    (λ l. rw (coin_at-remove base k l c.cache, good.0 f) refl),
                    remove-WellFormed base k c.cache w,
                  ),
                )
          | inr f ↦
              rw (s, f)
                (
                  sym here,
                  (
                    (λ l.
                        rw (coin_at-insert base k l gone c.cache, unspent-spent empty empty-spent)
                          refl),
                    insert-WellFormed base k gone c.cache ((λ h. cc), (λ h. cc)) w,
                  ),
                )
        ]
  ]

  pub spend_coin-hit :
      (k : OutPoint) (c : CoinsViewCache) (entry : CoinsCacheEntry)
      → get (fetch_coin base k c).1.cache k ≡ some entry
      → spend_coin base k c ≡ spend_entry k entry (fetch_coin base k c).1
  unfolding spend_coin
  spend_coin-hit k c entry e = rw (e, spend_coin) refl

  spend_coin-miss :
      (k : OutPoint) (c : CoinsViewCache)
      → get (fetch_coin base k c).1.cache k ≡ none
      → spend_coin base k c ≡ (none, (fetch_coin base k c).1)
  unfolding spend_coin
  spend_coin-miss k c e = rw (e, spend_coin) refl

  absent-Puts :
      (k : OutPoint) (before after : Entries)
      → coin_at base before k ≡ none
      → Keeps base before after
      → Puts base k none before after
  absent-Puts k before after h (same, w) = (
    (λ l. elim (Bool-cases (outpoint_eq k l)) [
      | inl o ↦ rw (same l, o) (sym (coin_at_same before k l o) ∙ h)
      | inr o ↦ rw (same l, o) refl
    ]),
    w,
  )

  then-Puts :
      (k : OutPoint) (o : Option Coin) (before between after : Entries)
      → Keeps base before between
      → Puts base k o between after
      → Puts base k o before after
  then-Puts k o before between after (same, _) (put, w) =
      ((λ l. put l ∙ ap (λ coin. if outpoint_eq k l then o else coin) (same l)), w)

  pub spend_coin-Puts :
      (k : OutPoint) (c : CoinsViewCache)
      → WellFormed base c.cache
      → ((spend_coin base k c).0 ≡ coin_at base c.cache k)
        × Puts base k none c.cache (spend_coin base k c).1.cache
  spend_coin-Puts k c w =
      let fetched = (fetch_coin base k c).1 in
      let (found, keeps) = fetch_coin-Keeps k c w in
      elim (Option-cases (get fetched.cache k)) [
        | inl e ↦
            let absent : coin_at base c.cache k ≡ none =
              sym (keeps.0 k) ∙ coin_at-miss fetched.cache k e ∙ fetched-absent k c e in
            rw (spend_coin-miss k c e)
              (sym absent, absent-Puts k c.cache fetched.cache absent keeps)
        | inr (entry, e) ↦
            let (spent, puts) = spend_entry-Puts k entry fetched e keeps.1 in
            rw (spend_coin-hit k c entry e)
              (spent ∙ keeps.0 k, then-Puts k none c.cache fetched.cache _ keeps puts)
      ]
