-- ===== src/Core/Money.antt =====
-- packages/core/src/money.ts: raw token amounts, dollar values scaled by 2 ^ 60, and the two
-- roundings between them. Amounts, prices and basis points are the unsigned values that the chain
-- carries, so the tests `value < 0n` of the source never pass.
pub mod Rounding
pub mod Worth
pub mod Floor
mod Examples
use accrue.Base.{ℕ, ◌+◌, ◌-◌, ◌*◌, ◌/◌, ◌%◌, ◌^◌, ltb, leb, ◌==◌, if◌then◌else◌}
use accrue.Base.Division.{ceil_div}
use accrue.Base.Outcome.{Outcome, ok, throw, ◌>>=◌}
use accrue.Core.Failure.{
  Asked, the_amount_the_oracle_price_asks_for, the_amount_the_guard_would_sell, Failure,
  does_not_fit_the_chain, divided_by_a_zero_price, the_oracle_reported_zero,
  the_slippage_leaves_nothing,
}

abbrev pub basis_points_denominator : ℕ
basis_points_denominator = 10_000

abbrev pub percent_denominator : ℕ
percent_denominator = 100

abbrev pub scaled_fraction_bits : ℕ
scaled_fraction_bits = 60

abbrev pub scaled_fraction_one : ℕ
scaled_fraction_one = 2 ^ scaled_fraction_bits

abbrev pub largest_unsigned_64 : ℕ
largest_unsigned_64 = 2 ^ 64 - 1

unfoldable pub require_in_range : ℕ → Asked → Outcome Failure ℕ
require_in_range value what =
    if ltb largest_unsigned_64 value then throw (does_not_fit_the_chain what) else ok value

unfoldable pub ten_to_the : ℕ → ℕ
ten_to_the power = 10 ^ power

unfoldable pub divide_rounding_up : ℕ → ℕ → Outcome Failure ℕ
divide_rounding_up numerator denominator =
    if leb denominator 0 then throw divided_by_a_zero_price else ok (ceil_div numerator denominator)

pub record OraclePrice : Type 0 where
  pub value : ℕ
  pub exponent : ℕ

unfoldable pub usd_per_whole_token_scaled : OraclePrice → Outcome Failure ℕ
usd_per_whole_token_scaled price =
    if leb price.value 0
    then throw the_oracle_reported_zero
    else ok (price.value * scaled_fraction_one / 10 ^ price.exponent)

unfoldable pub usd_value_of_scaled : ℕ → ℕ → ℕ → ℕ
usd_value_of_scaled raw_amount decimals price_scaled =
    raw_amount * price_scaled / ten_to_the decimals

unfoldable pub raw_amount_worth_rounding_up : ℕ → ℕ → ℕ → Outcome Failure ℕ
raw_amount_worth_rounding_up usd_value_scaled decimals price_scaled = do
  quotient ← divide_rounding_up (usd_value_scaled * ten_to_the decimals) price_scaled
  require_in_range quotient the_amount_the_oracle_price_asks_for

unfoldable pub raw_amount_worth_rounding_down : ℕ → ℕ → ℕ → Outcome Failure ℕ
raw_amount_worth_rounding_down usd_value_scaled decimals price_scaled =
    if leb price_scaled 0
    then throw divided_by_a_zero_price
    else require_in_range (usd_value_scaled * ten_to_the decimals / price_scaled)
        the_amount_the_oracle_price_asks_for

-- `remainingBps` is at or under zero exactly when the allowance reaches the denominator.
unfoldable pub add_the_slippage_buffer : ℕ → ℕ → Outcome Failure ℕ
add_the_slippage_buffer raw_amount max_slippage_bps =
    if leb basis_points_denominator max_slippage_bps then throw the_slippage_leaves_nothing else do
      quotient ←
          divide_rounding_up (raw_amount * basis_points_denominator)
            (basis_points_denominator - max_slippage_bps)
      require_in_range quotient the_amount_the_guard_would_sell

pub record SwapSide : Type 0 where
  pub raw_amount : ℕ
  pub decimals : ℕ
  pub price_scaled : ℕ

-- The floor under a permissionless swap. `remainingBps` is under zero exactly when the allowance
-- is more than the denominator.
unfoldable pub minimum_output_the_oracle_allows : SwapSide → ℕ → ℕ → ℕ → Outcome Failure ℕ
minimum_output_the_oracle_allows selling buying_decimals buying_price_scaled max_slippage_bps = do
  let value_scaled = usd_value_of_scaled selling.raw_amount selling.decimals selling.price_scaled
  fair_output ← raw_amount_worth_rounding_down value_scaled buying_decimals buying_price_scaled
  if ltb basis_points_denominator max_slippage_bps
      then throw the_slippage_leaves_nothing
      else ok
          (fair_output * (basis_points_denominator - max_slippage_bps) / basis_points_denominator)

unfoldable pub scaled_fraction_to_whole_units_rounding_up : ℕ → Outcome Failure ℕ
scaled_fraction_to_whole_units_rounding_up scaled = divide_rounding_up scaled scaled_fraction_one

unfoldable pub whole_units_to_scaled_fraction : ℕ → ℕ
whole_units_to_scaled_fraction whole_units = whole_units * scaled_fraction_one
