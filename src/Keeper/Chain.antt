-- ===== src/Keeper/Chain.antt =====
-- packages/solana/src/program: the accounts of the program as its client gives them, of which the
-- keeper reads the position, its strategy, the configuration and the tokens that it allows.
use accrue.Base.{ℕ, Bool, List}
use accrue.Base.Text.{Text}

pub record Strategy : Type 0 where
  pub target_ltv_bps : ℕ
  pub protect_ltv_bps : ℕ
  pub grow_below_ltv_bps : ℕ
  pub grow_enabled : Bool
  pub exit_on_flag_enabled : Bool

pub data PositionState : Type 0 where
  awaiting_swap open_position closing closed : PositionState

pub record CollateralEntry : Type 0 where
  pub mint : Text
  pub reserve : Text
  pub token_program : Text
  pub scope_price_account : Text
  pub scope_feed_index : ℕ
  pub enabled : Bool

pub record DestinationEntry : Type 0 where
  pub mint : Text
  pub token_program : Text
  pub scope_price_account : Text
  pub scope_feed_index : ℕ
  pub enabled : Bool

pub record Position : Type 0 where
  pub discriminator : List ℕ
  pub owner : Text
  pub collateral_mint : Text
  pub destination_mint : Text
  pub borrow_mint : Text
  pub market : Text
  pub borrow_reserve : Text
  pub obligation : Text
  pub collateral_token_account : Text
  pub usdc_token_account : Text
  pub destination_token_account : Text
  pub strategy : Strategy
  pub fee_bps_at_open : ℕ
  pub state : PositionState
  pub opened_at : ℕ
  pub last_protect_at : ℕ
  pub last_grow_at : ℕ
  pub protect_count : ℕ
  pub grow_count : ℕ
  pub usdc_borrowed_total : ℕ
  pub usdc_repaid_total : ℕ
  pub usdc_from_sales_total : ℕ
  pub usdc_owed_at_leave : ℕ
  pub bump : ℕ

pub record Config : Type 0 where
  pub discriminator : List ℕ
  pub admin : Text
  pub guardian : Text
  pub treasury : Text
  pub borrow_mint : Text
  pub borrow_reserve : Text
  pub keeper_bounty_bps : ℕ
  pub keeper_bounty_cap_usdc : ℕ
  pub performance_fee_bps : ℕ
  pub max_slippage_bps : ℕ
  pub max_price_age_slots : ℕ
  pub min_protect_interval_seconds : ℕ
  pub min_grow_interval_seconds : ℕ
  pub max_share_of_available_bps : ℕ
  pub min_position_usd : ℕ
  pub max_position_usd : ℕ
  pub allowed_collateral : List CollateralEntry
  pub allowed_destinations : List DestinationEntry
  pub open_paused : Bool
  pub grow_paused : Bool
  pub sunset : Bool
  pub version : ℕ
  pub bump : ℕ
