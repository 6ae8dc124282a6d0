-- ===== src/Consensus/Check/Subsidy.antt =====
-- Check: all the subsidies together.
use qubitcoin.Common.{
  ℕ, zero, suc, ◌+◌, ◌*◌, ◌/◌, ◌%◌, ◌^◌, ◌≤◌, ◌≡◌, refl, leb, if◌then◌else◌, arith, Bool-cases, inl,
  inr, subst,
}
use qubitcoin.Consensus.Check.{get_block_subsidy}

-- The subsidies of the first `n` blocks together.
unfoldable pub total_subsidy : ℕ → ℕ → ℕ
total_subsidy interval zero = 0
total_subsidy interval (suc n) = total_subsidy interval n + get_block_subsidy interval n

-- The subsidy of a block after `halvings`, and the sum of those before.
reward : ℕ → ℕ
reward halvings = if leb 64 halvings then 0 else 5000000000 / 2 ^ halvings

rewards : ℕ → ℕ
rewards zero = 0
rewards (suc e) = rewards e + reward e

rewards_end : rewards 64 ≡ 9999999989
unfolding rewards reward
rewards_end = refl

rewards-suc : (n : ℕ) → rewards (suc n) ≡ rewards n + reward n
unfolding rewards
rewards-suc n = refl

rewards_mono : (n e : ℕ) → e ≤ n → rewards e ≤ rewards n
unfolding rewards
rewards_mono zero e h = ground arith
rewards_mono (suc n) e h = ground (arith, rewards_mono n e)

no_reward : (n : ℕ) → 64 ≤ n → reward n ≡ 0
unfolding reward
no_reward n h = ground arith

rewards_stop : (n : ℕ) → 64 ≤ n → rewards n ≤ 9999999989
rewards_stop zero h = absurd (omega arith)
rewards_stop (suc n) h = elim (Bool-cases (leb 64 n)) [
  | inl e ↦
      let before = rewards_stop n (ground arith) in
      let none = no_reward n (ground arith) in omega (arith, before, none, rewards-suc n)
  | inr e ↦
      let end : 64 ≡ suc n = ground arith in
      subst (λ m. rewards m ≤ 9999999989) end (omega (arith, rewards_end))
]

rewards_bounded : (e : ℕ) → rewards e ≤ 9999999989
rewards_bounded e = ground (arith, rewards_mono 64 e, rewards_stop e, rewards_end)

epoch_reward : (n : ℕ) → get_block_subsidy 210000 n ≡ reward (n / 210000)
unfolding get_block_subsidy reward
epoch_reward n = refl

-- Whole epochs, and the part of the last.
by_epochs :
    (n : ℕ)
    → total_subsidy 210000 n ≡ 210000 * rewards (n / 210000) + n % 210000 * reward (n / 210000)
unfolding total_subsidy rewards
by_epochs zero = omega arith
by_epochs (suc n) =
    let step = epoch_reward n in
    elim (Bool-cases (leb 210000 (n % 210000 + 1))) [
      | inl e ↦
          let quotient : suc n / 210000 ≡ suc (n / 210000) = ground arith in
          let remainder : suc n % 210000 ≡ 0 = ground arith in
          let last : n % 210000 ≡ 209999 = ground arith in
          rw (step, quotient, remainder, by_epochs n, last) (omega arith)
      | inr e ↦
          let quotient : suc n / 210000 ≡ n / 210000 = ground arith in
          let remainder : suc n % 210000 ≡ suc (n % 210000) = ground arith in
          rw (step, quotient, remainder, by_epochs n) (omega arith)
    ]

part_of_epoch : (n : ℕ) → n % 210000 * reward (n / 210000) ≤ 210000 * reward (n / 210000)
part_of_epoch n = grind arith

-- With the halving interval of the main network, 210,000 blocks, all the subsidies up to any height
-- are at most 2,099,999,997,690,000 satoshis together, which is less than MAX_MONEY.
pub total_subsidy_bound : (n : ℕ) → total_subsidy 210000 n ≤ 2099999997690000
total_subsidy_bound n =
    let whole = rewards_bounded (suc (n / 210000)) in
    let part = part_of_epoch n in
    rw (by_epochs n) (omega (arith, whole, part, rewards-suc (n / 210000)))
