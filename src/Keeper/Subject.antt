-- ===== src/Keeper/Subject.antt =====
-- apps/keeper/src/guard.ts: the subject of the guard, what it asks of the router, and the calls of
-- other parts that it is built with: derived addresses, the router and the generated builders.
use accrue.Base.{ℕ, Option, List, []}
use accrue.Base.Outcome.{Outcome}
use accrue.Base.Text.{Text}
use accrue.Core.Failure.{Failure}
use accrue.Kamino.Reserve.{ReserveSnapshot}
use accrue.Kamino.Obligation.{ObligationSnapshot}
use accrue.Keeper.Chain.{Position, DestinationEntry, Config}
use accrue.Keeper.Instructions.{ProtectInput, GrowInput, LeaveInput}

abbrev pub route_max_accounts : ℕ
route_max_accounts = 28

abbrev pub the_program_computes_the_minimum : ℕ
the_program_computes_the_minimum = 0

abbrev pub nothing_to_swap : List ℕ
nothing_to_swap = []

pub record GuardSubject : Type 0 where
  pub position_address : Text
  pub position : Position
  pub obligation : ObligationSnapshot
  pub collateral_reserve_address : Text
  pub collateral_reserve : ReserveSnapshot
  pub borrow_reserve_address : Text
  pub borrow_reserve : ReserveSnapshot
  pub destination : DestinationEntry
  pub destination_decimals : ℕ
  pub destination_balance : ℕ
  pub usdc_price_scaled : ℕ
  pub destination_price_scaled : ℕ
  pub collateral_price_scaled : ℕ

-- What building throws: what the arithmetic throws, a route that is not found, and the messages
-- of the builder.
pub data GuardFailure : Type 0 where
  in_the_arithmetic : Failure → GuardFailure
  no_route_found : GuardFailure
  nothing_left_to_sell : GuardFailure
  no_room_left_to_borrow : GuardFailure
  asked_to_build_a_wait : GuardFailure

pub record RouteRequest : Type 0 where
  pub input_mint : Text
  pub output_mint : Text
  pub amount_in : ℕ
  pub slippage_bps : ℕ
  pub max_accounts : ℕ
  pub signing_authority : Text

pub record SwapRoute (Meta : Type 0) : Type 0 where
  pub accounts : List Meta
  pub route_bytes : List ℕ

-- An instruction with its accounts, where it has any, and the rest of it.
pub record Instruction (Meta Rest : Type 0) : Type 0 where
  pub accounts : Option (List Meta)
  pub rest : Rest

pub record TokenHolder : Type 0 where
  pub mint : Text
  pub token_program : Text

pub record OwnerAccounts : Type 0 where
  pub collateral : Text
  pub usdc : Text
  pub destination : Text

pub record ReserveAccounts : Type 0 where
  pub liquidity_supply : Text
  pub liquidity_fee_receiver : Text
  pub collateral_mint : Text
  pub collateral_supply : Text
  pub liquidity_token_program : Text

pub record FarmAccounts : Type 0 where
  pub reserve_farm_state : Option Text
  pub obligation_farm_state : Option Text

-- The calls of other parts: derived addresses, the router, and the generated builders.
pub record Outside (Meta Rest : Type 0) : Type 0 where
  pub token_program_address : Text
  pub find_lending_market_authority : Text → Text
  -- The farm's state for a reserve and an obligation.
  pub find_obligation_farm_user_state : Text → Text → Text
  -- The account of an owner for a token.
  pub find_associated_token_account : Text → TokenHolder → Text
  pub find_the_three_token_accounts : Text → TokenHolder → TokenHolder → TokenHolder → OwnerAccounts
  pub find_route : RouteRequest → Outcome GuardFailure (SwapRoute Meta)
  pub get_protect_instruction : ProtectInput → Instruction Meta Rest
  pub get_grow_instruction : GrowInput → Instruction Meta Rest
  pub get_leave_instruction : LeaveInput → Instruction Meta Rest

pub record GuardAssembly : Type 0 where
  pub config : Config
  pub config_address : Text
  pub caller : Text
