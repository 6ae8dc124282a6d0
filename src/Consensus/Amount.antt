-- ===== src/Consensus/Amount.antt =====
-- crates/qubitcoin-primitives/src/amount.rs: satoshis, an i64.
use qubitcoin.Common.{ℕ, ◌*◌, Bool, ◌&&◌}
use qubitcoin.Common.Int.{ℤ, pos, ◌+ℤ◌, leb_ℤ, wrap_i64}

abbrev pub Amount : Type 0
Amount = ℤ

abbrev pub coin : ℕ
coin = 100000000

abbrev pub max_money : ℤ
max_money = pos (21000000 * coin)

unfoldable pub money_range : ℤ → Bool
money_range value = leb_ℤ (pos 0) value && leb_ℤ value max_money

-- `+` and `+=`, where an overflow wraps around as it does without overflow checks.
unfoldable pub add_amount : Amount → Amount → Amount
add_amount a b = wrap_i64 (a +ℤ b)
