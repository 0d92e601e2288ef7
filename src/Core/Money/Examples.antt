-- ===== src/Core/Money/Examples.antt =====
-- The theorems about money.ts at concrete amounts: USDC has six decimals, the yield token nine, and
-- a dollar is 2 ^ 60.
use accrue.Base.{ℕ, ◌+◌, ◌-◌, ◌*◌, ◌^◌, ◌≤◌, ◌≡◌, refl}
use accrue.Base.Outcome.{ok, throw}
use accrue.Base.Division.{ceil_div}
use accrue.Core.Failure.{divided_by_a_zero_price}
use accrue.Core.Money.{
  SwapSide, largest_unsigned_64, usd_value_of_scaled, raw_amount_worth_rounding_up,
  raw_amount_worth_rounding_down, add_the_slippage_buffer, minimum_output_the_oracle_allows,
  require_in_range, divide_rounding_up, ten_to_the,
}
use accrue.Core.Money.Worth.{roundings_bracket_the_value}
use accrue.Core.Money.Floor.{minimum_output_the_oracle_allows_lem}

abbrev dollar : ℕ
dollar = 2 ^ 60

-- A token worth three dollars: ten dollars of it, one way and the other.
up_runs : raw_amount_worth_rounding_up (10 * dollar) 6 (3 * dollar) ≡ ok 3_333_334
unfolding raw_amount_worth_rounding_up divide_rounding_up require_in_range ten_to_the ceil_div
up_runs = refl

down_runs : raw_amount_worth_rounding_down (10 * dollar) 6 (3 * dollar) ≡ ok 3_333_333
unfolding raw_amount_worth_rounding_down require_in_range ten_to_the
down_runs = refl

zero_price : raw_amount_worth_rounding_up 5 6 0 ≡ throw divided_by_a_zero_price
unfolding raw_amount_worth_rounding_up divide_rounding_up
zero_price = refl

buffer_runs : add_the_slippage_buffer 1_000_000 100 ≡ ok 1_010_102
unfolding add_the_slippage_buffer divide_rounding_up require_in_range ceil_div
buffer_runs = refl

abbrev a_sale : SwapSide
a_sale = record { raw_amount = 2_000_000_000; decimals = 9; price_scaled = dollar }

-- Two yield tokens of a dollar each, with one percent of slippage, are 1.98 USDC at least.
floor_runs : minimum_output_the_oracle_allows a_sale 6 dollar 100 ≡ ok 1_980_000
unfolding minimum_output_the_oracle_allows raw_amount_worth_rounding_down usd_value_of_scaled
    require_in_range ten_to_the
floor_runs = refl

minimum_output_the_oracle_allows_lem_example :
    (100 ≤ 10_000)
    × (1_980_000 ≤ largest_unsigned_64)
    × (1_980_000 * 10_000 * (dollar * 10 ^ 9) ≤ 2_000_000_000 * dollar * ((10_000 - 100) * 10 ^ 6))
minimum_output_the_oracle_allows_lem_example =
    minimum_output_the_oracle_allows_lem a_sale 6 dollar 100 1_980_000 floor_runs

roundings_bracket_the_value_example :
    (3_333_333 ≤ 3_333_334)
    × (3_333_334 ≤ 3_333_333 + 1)
    × (usd_value_of_scaled 3_333_333 6 (3 * dollar) ≤ 10 * dollar)
    × (10 * dollar ≤ usd_value_of_scaled 3_333_334 6 (3 * dollar))
roundings_bracket_the_value_example =
    roundings_bracket_the_value (10 * dollar) 6 (3 * dollar) 3_333_333 3_333_334 down_runs up_runs
