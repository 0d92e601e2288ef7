-- ===== src/Keeper/Instructions.antt =====
-- packages/solana/src/program/instructions: what the client of the program is given to build the
-- three instructions of the guard. A signer is its address; a farm that a reserve has not is none.
use accrue.Base.{ℕ, Option, List}
use accrue.Base.Text.{Text}

pub record ProtectInput : Type 0 where
  pub caller : Text
  pub caller_usdc_account : Text
  pub config : Text
  pub position : Text
  pub destination_mint : Text
  pub borrow_mint : Text
  pub position_collateral_account : Text
  pub position_usdc_account : Text
  pub position_destination_account : Text
  pub obligation : Text
  pub lending_market : Text
  pub lending_market_authority : Text
  pub collateral_reserve : Text
  pub borrow_reserve : Text
  pub borrow_reserve_liquidity_supply : Text
  pub borrow_reserve_farm_state : Option Text
  pub borrow_obligation_farm_state : Option Text
  pub collateral_scope_prices : Text
  pub borrow_scope_prices : Text
  pub destination_scope_prices : Text
  pub borrow_token_program : Text
  pub destination_token_program : Text
  pub owner_minimum_usdc_out : ℕ
  pub jupiter_route_data : List ℕ

pub record GrowInput : Type 0 where
  pub caller : Text
  pub config : Text
  pub position : Text
  pub destination_mint : Text
  pub borrow_mint : Text
  pub position_collateral_account : Text
  pub position_usdc_account : Text
  pub position_destination_account : Text
  pub obligation : Text
  pub lending_market : Text
  pub lending_market_authority : Text
  pub collateral_reserve : Text
  pub borrow_reserve : Text
  pub borrow_reserve_liquidity_supply : Text
  pub borrow_reserve_fee_receiver : Text
  pub borrow_reserve_farm_state : Option Text
  pub borrow_obligation_farm_state : Option Text
  pub collateral_scope_prices : Text
  pub borrow_scope_prices : Text
  pub destination_scope_prices : Text
  pub borrow_token_program : Text
  pub destination_token_program : Text
  pub owner_minimum_destination_out : ℕ
  pub jupiter_route_data : List ℕ

pub record LeaveInput : Type 0 where
  pub caller : Text
  pub config : Text
  pub position : Text
  pub collateral_mint : Text
  pub destination_mint : Text
  pub borrow_mint : Text
  pub position_collateral_account : Text
  pub position_usdc_account : Text
  pub position_destination_account : Text
  pub owner_collateral_account : Text
  pub owner_usdc_account : Text
  pub owner_destination_account : Text
  pub owner : Text
  pub obligation : Text
  pub lending_market : Text
  pub lending_market_authority : Text
  pub collateral_reserve : Text
  pub collateral_reserve_collateral_supply : Text
  pub collateral_reserve_collateral_mint : Text
  pub collateral_reserve_liquidity_supply : Text
  pub borrow_reserve : Text
  pub borrow_reserve_liquidity_supply : Text
  pub collateral_reserve_farm_state : Option Text
  pub collateral_obligation_farm_state : Option Text
  pub borrow_reserve_farm_state : Option Text
  pub borrow_obligation_farm_state : Option Text
  pub collateral_scope_prices : Text
  pub borrow_scope_prices : Text
  pub destination_scope_prices : Text
  pub kamino_collateral_token_program : Text
  pub collateral_token_program : Text
  pub borrow_token_program : Text
  pub destination_token_program : Text
  pub jupiter_route_data : List ℕ
