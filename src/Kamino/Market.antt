-- ===== src/Kamino/Market.antt =====
-- packages/solana/src/kamino/layout.ts: the oracle's prices, the lending market, and amounts of
-- its scale.
use accrue.Base.{ℕ, ◌+◌, ◌*◌, ◌/◌, ◌^◌, ◌==◌, Bool, not, List, length, if◌then◌else◌}
use accrue.Base.Outcome.{Outcome, ok, throw}
use accrue.Core.Money.{scaled_fraction_bits}
use accrue.Kamino.Bytes.{byte_at, unsigned_at}
use accrue.Kamino.Reserve.{
  LayoutFailure, not_the_length_of_a_price_account, not_the_length_of_a_lending_market,
}

abbrev pub scope_prices_account_length : ℕ
scope_prices_account_length = 28_712

abbrev pub lending_market_account_length : ℕ
lending_market_account_length = 4_664

abbrev pub lending_market_autodeleverage_enabled : ℕ
lending_market_autodeleverage_enabled = 123

abbrev pub scope_first_price : ℕ
scope_first_price = 40

abbrev pub scope_dated_price_length : ℕ
scope_dated_price_length = 56

abbrev pub scope_price_value : ℕ
scope_price_value = 0

abbrev pub scope_price_exponent : ℕ
scope_price_exponent = 8

abbrev pub scope_price_last_updated_slot : ℕ
scope_price_last_updated_slot = 16

pub record ScopePrice : Type 0 where
  pub value : ℕ
  pub exponent : ℕ
  pub last_updated_slot : ℕ

pub record LendingMarketSnapshot : Type 0 where
  pub autodeleverage_enabled : Bool

unfoldable pub scope_price_at : List ℕ → ℕ → ScopePrice
unfolding unsigned_at
scope_price_at bytes base = record {
  value = unsigned_at bytes (base + scope_price_value) 8;
  exponent = unsigned_at bytes (base + scope_price_exponent) 8;
  last_updated_slot = unsigned_at bytes (base + scope_price_last_updated_slot) 8;
}

unfoldable pub decode_scope_price : List ℕ → ℕ → Outcome LayoutFailure ScopePrice
unfolding scope_price_at
decode_scope_price bytes feed_index =
    if length bytes == scope_prices_account_length
    then ok (scope_price_at bytes (scope_first_price + feed_index * scope_dated_price_length))
    else throw not_the_length_of_a_price_account

-- `scaled >> SCALED_FRACTION_BITS`
unfoldable pub scaled_fraction_to_whole_units : ℕ → ℕ
scaled_fraction_to_whole_units scaled = scaled / 2 ^ scaled_fraction_bits

unfoldable pub decode_lending_market : List ℕ → Outcome LayoutFailure LendingMarketSnapshot
unfolding byte_at
decode_lending_market bytes =
    if length bytes == lending_market_account_length
    then ok (record {
      autodeleverage_enabled = not (byte_at bytes lending_market_autodeleverage_enabled == 0);
    })
    else throw not_the_length_of_a_lending_market
