-- ===== src/Keeper/Examples.antt =====
-- A stretched position whose sale is found a route, and the witnesses of the theorems on building
-- and watching.
use accrue.Kamino.Market.{ScopePrice}
use accrue.Keeper.Watch.{ChainReading}
use accrue.Base.{ℕ, ◌^◌, ◌≡◌, ◌*◌, refl, some, ◌∷◌, true, false, none, List, []}
use accrue.Base.Outcome.{ok}
use accrue.Base.Text.{Text, text}
use accrue.Base.Division.{ceil_div}
use accrue.Core.Guard
use accrue.Core.Money.{
  raw_amount_worth_rounding_up, raw_amount_worth_rounding_down, divide_rounding_up,
  add_the_slippage_buffer, usd_value_of_scaled, require_in_range, ten_to_the,
}
use accrue.Kamino.Reserve.{ReserveSnapshot, reserve_snapshot}
use accrue.Kamino.Obligation.{ObligationSnapshot, obligation_snapshot}
use accrue.Keeper.Chain.{Position, DestinationEntry, Config, open_position}
use accrue.Keeper.Subject.{GuardSubject, GuardAssembly, Outside, Instruction}
use accrue.Keeper.Guard.{build_protect, build_grow}
use accrue.Keeper.Guard.Built.{IsProtect, build_protect-IsProtect, IsGrow, build_grow-IsGrow}

abbrev spelled : List ℕ → Text
spelled bytes = bytes

abbrev position : Position
position = record {
  discriminator = [];
  owner = text "owner";
  collateral_mint = text "collateral";
  destination_mint = text "destination";
  borrow_mint = text "borrow";
  market = text "market";
  borrow_reserve = text "borrow";
  obligation = text "obligation";
  collateral_token_account = text "collateral";
  usdc_token_account = text "usdc";
  destination_token_account = text "destination";
  strategy = record {
    target_ltv_bps = 4_000;
    protect_ltv_bps = 5_000;
    grow_below_ltv_bps = 3_000;
    grow_enabled = true;
    exit_on_flag_enabled = true;
  };
  fee_bps_at_open = 0;
  state = open_position;
  opened_at = 0;
  last_protect_at = 0;
  last_grow_at = 0;
  protect_count = 0;
  grow_count = 0;
  usdc_borrowed_total = 0;
  usdc_repaid_total = 0;
  usdc_from_sales_total = 0;
  usdc_owed_at_leave = 0;
  bump = 0;
}

abbrev destination : DestinationEntry
destination = record {
  mint = text "mint";
  token_program = text "token";
  scope_price_account = text "scope";
  scope_feed_index = 0;
  enabled = false;
}

abbrev config : Config
config = record {
  discriminator = [];
  admin = text "admin";
  guardian = text "guardian";
  treasury = text "treasury";
  borrow_mint = text "borrow";
  borrow_reserve = text "borrow";
  keeper_bounty_bps = 100;
  keeper_bounty_cap_usdc = 1_000_000;
  performance_fee_bps = 0;
  max_slippage_bps = 100;
  max_price_age_slots = 0;
  min_protect_interval_seconds = 0;
  min_grow_interval_seconds = 0;
  max_share_of_available_bps = 0;
  min_position_usd = 0;
  max_position_usd = 0;
  allowed_collateral = [];
  allowed_destinations = [];
  open_paused = false;
  grow_paused = false;
  sunset = false;
  version = 0;
  bump = 0;
}

abbrev reserve : ReserveSnapshot
reserve = record (reserve_snapshot spelled []) {
  borrow_factor_pct = 100;
  liquidity_mint_decimals = 6;
}

abbrev obligation : ℕ → ObligationSnapshot
obligation debt = record (obligation_snapshot spelled []) {
  deposited_value_scaled = 1_000 * 2 ^ 60;
  adjusted_debt_value_scaled = debt * 2 ^ 60;
}

-- A thousand dollars deposited, and so many of debt.
abbrev owing : ℕ → GuardSubject
owing debt = record {
  position_address = text "position";
  position = position;
  obligation = obligation debt;
  collateral_reserve_address = text "collateral";
  collateral_reserve = reserve;
  borrow_reserve_address = text "borrow";
  borrow_reserve = reserve;
  destination = destination;
  destination_decimals = 6;
  destination_balance = 900_000_000;
  usdc_price_scaled = 2 ^ 60;
  destination_price_scaled = 2 ^ 60;
  collateral_price_scaled = 2 ^ 60;
}

-- An instruction is told apart by the amount of its swap.
abbrev outside : Outside ℕ ℕ
outside = record {
  token_program_address = text "token";
  find_lending_market_authority = λ market. market;
  find_obligation_farm_user_state = λ farm obligation. farm;
  find_associated_token_account = λ owner holder. owner;
  find_the_three_token_accounts =
      λ owner a b c. record { collateral = owner; usdc = owner; destination = owner };
  find_route = λ request. ok (record { accounts = request.amount_in ∷ []; route_bytes = [] });
  get_protect_instruction = λ input. record { accounts = none; rest = 1 };
  get_grow_instruction = λ input. record { accounts = none; rest = 2 };
  get_leave_instruction = λ input. record { accounts = none; rest = 3 };
}

abbrev assembly : GuardAssembly
assembly = record { config = config; config_address = text "config"; caller = text "keeper" }

-- Two hundred dollars over the target, a bounty of one, and the allowance.
abbrev protecting : Instruction ℕ ℕ
protecting = record { accounts = some (203_030_304 ∷ []); rest = 1 }

protecting_is_built : build_protect outside assembly (owing 600) ≡ ok protecting
unfolding build_protect Guard.destination_to_sell_for_protect Guard.protect_amounts
    Guard.repay_to_reach_target Guard.weighted_value_as_real_value Guard.value_allowed_at_target
    Guard.smaller raw_amount_worth_rounding_up raw_amount_worth_rounding_down require_in_range
    ten_to_the divide_rounding_up add_the_slippage_buffer usd_value_of_scaled ceil_div
protecting_is_built = refl

abbrev growing : Instruction ℕ ℕ
growing = record { accounts = some (200_000_000 ∷ []); rest = 2 }

growing_is_built : build_grow outside assembly (owing 200) ≡ ok growing
unfolding build_grow Guard.borrow_to_reach_target Guard.weighted_value_as_real_value
    raw_amount_worth_rounding_down require_in_range Guard.value_allowed_at_target ten_to_the
growing_is_built = refl

build_protect-IsProtect_example : IsProtect outside assembly (owing 600) protecting
build_protect-IsProtect_example =
    build_protect-IsProtect outside assembly (owing 600) protecting protecting_is_built

build_grow-IsGrow_example : IsGrow outside assembly (owing 200) growing
build_grow-IsGrow_example = build_grow-IsGrow outside assembly (owing 200) growing growing_is_built

abbrev price_of_slot : ℕ → ScopePrice
price_of_slot slot = record { value = 1; exponent = 0; last_updated_slot = slot }

-- The price of the dollar is ten slots old and that of the yield token two hundred.
abbrev reading : ChainReading
reading = record {
  position_address = text "position";
  position = position;
  collateral_entry = record {
    mint = text "collateral";
    reserve = text "reserve";
    token_program = text "token";
    scope_price_account = text "scope";
    scope_feed_index = 0;
    enabled = true;
  };
  destination = destination;
  market = record {
    obligation = obligation 600;
    lending_market = record { autodeleverage_enabled = false };
    collateral_reserve = reserve;
    borrow_reserve = reserve;
    borrow_reserve_address = text "borrow";
    usdc_price = price_of_slot 990;
    collateral_price = price_of_slot 1_000;
    current_slot = 1_000;
  };
  destination_price = price_of_slot 800;
  destination_decimals = 6;
  destination_balance = 900_000_000;
}
