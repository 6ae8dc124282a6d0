-- ===== src/Coins/Cache/Flush.antt =====
-- Cache: what `flush_to` writes and what it keeps.
use qubitcoin.Common.{
  ℕ, ◌+◌, ◌≤◌, ◌≡◌, refl, sym, ◌∙◌, ap, subst, Bool, true, false, Option, none, some, List, [], ◌∷◌,
  if◌then◌else◌, arith, Bool-cases, inl, inr, ◌⊎◌,
}
use qubitcoin.Consensus.Transaction.{OutPoint, outpoint_eq}
use qubitcoin.Consensus.Check.Spec.{outpoint_eq-eq}
use qubitcoin.Coins.Map.{get, Unique}
use qubitcoin.Coins.Coin.{Coin, is_spent, memory_usage}
use qubitcoin.Coins.Cache.{
  CoinsCacheEntry, Entries, clean, unspent, write_of, push_write, writes, max_retained_bytes, keeps,
  keep_entry, retain,
}
use qubitcoin.Coins.Cache.View.{GoodEntry, unspent-none, unspent-spent}

abbrev pub write_at : Option CoinsCacheEntry → Option (Option Coin)
write_at none = none
write_at (some entry) = write_of entry

missing :
    {V : Type 0} (j k : OutPoint) (m : List (OutPoint × V))
    → outpoint_eq j k ≡ true
    → get m j ≡ none
    → get m k ≡ none
missing j k m h e = subst (λ p. get m p ≡ none) (outpoint_eq-eq j k h) e

push_write-here :
    (j k : OutPoint) (w : Option (Option Coin)) (rest : List (OutPoint × Option Coin))
    → outpoint_eq j k ≡ true
    → get rest k ≡ none
    → get (push_write j w rest) k ≡ w
unfolding get push_write
push_write-here j k none rest e gone = gone
push_write-here j k (some write) rest e gone = rw e refl

push_write-there :
    (j k : OutPoint) (w : Option (Option Coin)) (rest : List (OutPoint × Option Coin))
    → outpoint_eq j k ≡ false
    → get (push_write j w rest) k ≡ get rest k
unfolding get push_write
push_write-there j k none rest e = refl
push_write-there j k (some write) rest e = rw e refl

-- What is written at an outpoint is what its entry calls for.
pub get-writes :
    (k : OutPoint) (cache : Entries) → Unique cache → get (writes cache) k ≡ write_at (get cache k)
unfolding get writes Unique
get-writes k [] h = refl
get-writes k ((j, entry) ∷ cache) (new, h) =
    let rest = get-writes k cache h in
    elim (Bool-cases (outpoint_eq j k)) [
      | inl e ↦
          let gone = missing j k cache e new in
          let none_later = rest ∙ ap write_at gone in
          rw (e, push_write-here j k (write_of entry) (writes cache) e none_later) refl
      | inr e ↦ rw (e, push_write-there j k (write_of entry) (writes cache) e) rest
    ]

push_write-Unique :
    (j : OutPoint) (w : Option (Option Coin)) (rest : List (OutPoint × Option Coin))
    → get rest j ≡ none
    → Unique rest
    → Unique (push_write j w rest)
unfolding push_write Unique
push_write-Unique j none rest new h = h
push_write-Unique j (some write) rest new h = (new, h)

pub writes-Unique : (cache : Entries) → Unique cache → Unique (writes cache)
unfolding writes Unique
writes-Unique [] h = tt
writes-Unique ((j, entry) ∷ cache) (new, h) =
    let absent = get-writes j cache h ∙ ap write_at new in
    push_write-Unique j (write_of entry) (writes cache) absent (writes-Unique cache h)

-- A view after a batch: what was written, else what was there.
abbrev pub after_write : Option Coin → Option (Option Coin) → Option Coin
after_write before none = before
after_write before (some coin) = coin

-- What is written at a good entry leaves the base with the coin that the entry shows.
pub write_of-shown :
    (before : Option Coin) (entry : CoinsCacheEntry)
    → GoodEntry before entry
    → unspent (after_write before (write_of entry)) ≡ unspent (some entry.coin)
unfolding write_of
write_of-shown before entry (fresh, same) = elim (Bool-cases entry.flags.dirty) [
  | inr d ↦ rw d (sym (same d))
  | inl d ↦ elim (Bool-cases entry.flags.fresh) [
    | inl f ↦ elim (Bool-cases (is_spent entry.coin)) [
      | inl s ↦ rw (d, f, s) (fresh f ∙ sym (unspent-spent entry.coin s))
      | inr s ↦ rw (d, f, s) refl
    ]
    | inr f ↦ elim (Bool-cases (is_spent entry.coin)) [
      | inl s ↦ rw (d, f, s) (unspent-none ∙ sym (unspent-spent entry.coin s))
      | inr s ↦ rw (d, f, s) refl
    ]
  ]
]

-- What is kept of an entry: nothing, or its coin, clean.
abbrev pub Kept : Option CoinsCacheEntry → Option CoinsCacheEntry → Type 0
Kept before after =
    (after ≡ none)
    ⊎ ((entry : CoinsCacheEntry) × (before ≡ some entry) × (after ≡ some (clean entry.coin)))

Kept-none :
    (before after : Option CoinsCacheEntry) → before ≡ none → Kept before after → after ≡ none
Kept-none before after b (inl e) = e
Kept-none before after b (inr (entry, e, _)) = cc

keep_entry-Kept :
    (keep : Bool) (j k : OutPoint) (entry : CoinsCacheEntry) (cache : Entries) (rest : Entries × ℕ)
    → get cache j ≡ none
    → Kept (get cache k) (get rest.0 k)
    → Kept
        (if outpoint_eq j k then some entry else get cache k)
        (get (keep_entry keep j entry rest).0 k)
unfolding keep_entry get
keep_entry-Kept false j k entry cache rest new kept = elim (Bool-cases (outpoint_eq j k)) [
  | inl e ↦ rw e (inl (Kept-none (get cache k) (get rest.0 k) (missing j k cache e new) kept))
  | inr e ↦ rw e kept
]
keep_entry-Kept true j k entry cache (kept_cache, usage) new kept =
    elim (Bool-cases (outpoint_eq j k)) [
      | inl e ↦ rw e (inr (entry, refl, refl))
      | inr e ↦ rw e kept
    ]

pub get-retain :
    (acc : ℕ) (k : OutPoint) (cache : Entries)
    → Unique cache
    → Kept (get cache k) (get (retain acc cache).0 k)
unfolding get retain Unique
get-retain acc k [] h = inl refl
get-retain acc k ((j, entry) ∷ cache) (new, h) =
    let keep = keeps acc entry in
    let usage = if keep then acc + memory_usage entry.coin else acc in
    keep_entry-Kept keep j k entry cache (retain usage cache) new (get-retain usage k cache h)

keep_entry-Unique :
    (keep : Bool) (j : OutPoint) (entry : CoinsCacheEntry) (rest : Entries × ℕ)
    → get rest.0 j ≡ none
    → Unique rest.0
    → Unique (keep_entry keep j entry rest).0
unfolding keep_entry Unique
keep_entry-Unique false j entry rest new h = h
keep_entry-Unique true j entry (cache, usage) new h = (new, h)

pub retain-Unique : (acc : ℕ) (cache : Entries) → Unique cache → Unique (retain acc cache).0
unfolding retain Unique
retain-Unique acc [] h = tt
retain-Unique acc ((j, entry) ∷ cache) (new, h) =
    let keep = keeps acc entry in
    let usage = if keep then acc + memory_usage entry.coin else acc in
    let kept = get-retain usage j cache h in
    keep_entry-Unique keep j entry (retain usage cache)
      (Kept-none (get cache j) (get (retain usage cache).0 j) new kept)
      (retain-Unique usage cache h)

keep_entry-usage :
    (keep : Bool) (j : OutPoint) (entry : CoinsCacheEntry) (rest : Entries × ℕ)
    → (keep_entry keep j entry rest).1 ≡ rest.1
unfolding keep_entry
keep_entry-usage false j entry rest = refl
keep_entry-usage true j entry rest = refl

usage_step :
    (acc : ℕ) (entry : CoinsCacheEntry)
    → acc ≤ max_retained_bytes
    → (if keeps acc entry then acc + memory_usage entry.coin else acc) ≤ max_retained_bytes
unfolding keeps
usage_step acc entry h = ground arith

pub retain_bound :
    (acc : ℕ) (cache : Entries)
    → acc ≤ max_retained_bytes
    → (retain acc cache).1 ≤ max_retained_bytes
unfolding retain
retain_bound acc [] h = h
retain_bound acc ((j, entry) ∷ cache) h =
    let keep = keeps acc entry in
    let usage = if keep then acc + memory_usage entry.coin else acc in
    let below = retain_bound usage cache (usage_step acc entry h) in
    rw (keep_entry-usage keep j entry (retain usage cache)) below
