-- ===== src/Keeper/Watch.antt =====
-- apps/keeper/src/watch.ts: what the keeper watches of a position, from one reading of the chain.
pub mod Watched
use accrue.Base.{ℕ, ◌-◌, leb, max, Bool, true, false, if◌then◌else◌}
use accrue.Base.Outcome.{Outcome, ok, ◌>>=◌}
use accrue.Base.Text.{Text}
use accrue.Core.Failure.{Failure}
use accrue.Core.Money.{OraclePrice, usd_per_whole_token_scaled}
use accrue.Kamino.Reserve.{ReserveSnapshot}
use accrue.Kamino.Obligation.{ObligationSnapshot}
use accrue.Kamino.Market.{ScopePrice, LendingMarketSnapshot}
use accrue.Keeper.Chain.{
  Position, CollateralEntry, DestinationEntry, PositionState, awaiting_swap, open_position, closing,
  closed,
}
use accrue.Keeper.Decide.{PositionUnderWatch}
use accrue.Keeper.Subject.{GuardSubject}
use accrue.Keeper.Loop.{Candidate}

-- `MarketReading` of apps/keeper/src/market.ts.
pub record MarketReading : Type 0 where
  pub obligation : ObligationSnapshot
  pub lending_market : LendingMarketSnapshot
  pub collateral_reserve : ReserveSnapshot
  pub borrow_reserve : ReserveSnapshot
  pub borrow_reserve_address : Text
  pub usdc_price : ScopePrice
  pub collateral_price : ScopePrice
  pub current_slot : ℕ

pub record ChainReading : Type 0 where
  pub position_address : Text
  pub position : Position
  pub collateral_entry : CollateralEntry
  pub destination : DestinationEntry
  pub market : MarketReading
  pub destination_price : ScopePrice
  pub destination_decimals : ℕ
  pub destination_balance : ℕ

unfoldable pub age_in_slots : ScopePrice → ℕ → ℕ
age_in_slots price current_slot =
    if leb current_slot price.last_updated_slot then 0 else current_slot - price.last_updated_slot

-- `reading.position.state === PositionState.Open`
unfoldable pub is_the_open_state : PositionState → Bool
is_the_open_state awaiting_swap = false
is_the_open_state open_position = true
is_the_open_state closing = false
is_the_open_state closed = false

-- A price as the arithmetic takes it.
unfoldable pub as_oracle_price : ScopePrice → OraclePrice
as_oracle_price price = record { value = price.value; exponent = price.exponent }

unfoldable pub position_under_watch : ChainReading → PositionUnderWatch
unfolding age_in_slots is_the_open_state
position_under_watch reading = record {
  is_open = is_the_open_state reading.position.state;
  protect_ltv_bps = reading.position.strategy.protect_ltv_bps;
  grow_below_ltv_bps = reading.position.strategy.grow_below_ltv_bps;
  grow_enabled = reading.position.strategy.grow_enabled;
  exit_on_flag_enabled = reading.position.strategy.exit_on_flag_enabled;
  last_protect_at = reading.position.last_protect_at;
  last_grow_at = reading.position.last_grow_at;
  loan_to_value_bps = reading.market.obligation.loan_to_value_bps;
  destination_balance = reading.destination_balance;
  deleverage = record {
    reserve_status_obsolete = reading.market.collateral_reserve.is_obsolete;
    program_is_retiring = false;
    obligation_margin_call_started_at =
        reading.market.obligation.autodeleverage_margin_call_started_timestamp;
    market_autodeleverage_enabled = reading.market.lending_market.autodeleverage_enabled;
    reserve_autodeleverage_enabled = reading.market.collateral_reserve.autodeleverage_enabled;
    deposit_limit_crossed_at = reading.market.collateral_reserve.deposit_limit_crossed_timestamp;
    borrow_limit_crossed_at = reading.market.collateral_reserve.borrow_limit_crossed_timestamp;
    margin_call_period_seconds =
        reading.market.collateral_reserve.deleveraging_margin_call_period_seconds;
  };
  oldest_price_age_slots =
      max (age_in_slots reading.market.usdc_price reading.market.current_slot)
        (age_in_slots reading.destination_price reading.market.current_slot);
}

unfoldable pub watch_the_position : ChainReading → Outcome Failure (Candidate GuardSubject)
unfolding position_under_watch as_oracle_price
watch_the_position reading = do
  usdc_price_scaled ← usd_per_whole_token_scaled (as_oracle_price reading.market.usdc_price)
  destination_price_scaled ← usd_per_whole_token_scaled (as_oracle_price reading.destination_price)
  collateral_price_scaled ←
      usd_per_whole_token_scaled (as_oracle_price reading.market.collateral_price)
  ok (record {
    address = reading.position_address;
    loan_to_value_bps = reading.market.obligation.loan_to_value_bps;
    watched = position_under_watch reading;
    subject = record {
      position_address = reading.position_address;
      position = reading.position;
      obligation = reading.market.obligation;
      collateral_reserve_address = reading.collateral_entry.reserve;
      collateral_reserve = reading.market.collateral_reserve;
      borrow_reserve_address = reading.market.borrow_reserve_address;
      borrow_reserve = reading.market.borrow_reserve;
      destination = reading.destination;
      destination_decimals = reading.destination_decimals;
      destination_balance = reading.destination_balance;
      usdc_price_scaled = usdc_price_scaled;
      destination_price_scaled = destination_price_scaled;
      collateral_price_scaled = collateral_price_scaled;
    };
  })
