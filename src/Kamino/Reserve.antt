-- ===== src/Kamino/Reserve.antt =====
-- packages/solana/src/kamino/layout.ts: the snapshot of a reserve.
pub mod Offsets
pub mod Decoded
use accrue.Base.{
  ℕ, zero, suc, ◌+◌, ◌*◌, ◌==◌, Bool, not, Option, none, some, List, [], ◌∷◌, length, if◌then◌else◌,
}
use accrue.Base.Int.{ℤ}
use accrue.Base.Outcome.{Outcome, ok, throw}
use accrue.Base.Text.{Text}
use accrue.Kamino.Bytes.{byte_at, unsigned_at, signed_at, is_the_default_address, address_at}
use accrue.Kamino.Reserve.Offsets.{
  reserve_account_length, reserve_lending_market, reserve_farm_collateral, reserve_farm_debt,
  reserve_liquidity_mint, reserve_liquidity_supply_vault, reserve_liquidity_fee_vault,
  reserve_liquidity_available_amount, reserve_liquidity_deposit_limit_crossed,
  reserve_liquidity_borrow_limit_crossed, reserve_liquidity_market_price,
  reserve_liquidity_mint_decimals, reserve_liquidity_token_program, reserve_collateral_mint,
  reserve_collateral_mint_total_supply, reserve_collateral_supply_vault,
  reserve_liquidity_borrowed_scaled, reserve_config_status, reserve_config_protocol_take_rate_pct,
  reserve_config_borrow_rate_curve, reserve_config_deposit_limit, reserve_config_borrow_limit,
  reserve_config_deposit_withdrawal_cap, reserve_config_debt_withdrawal_cap,
  borrow_rate_curve_points, reserve_config_loan_to_value_pct,
  reserve_config_liquidation_threshold_pct, reserve_config_autodeleverage_enabled,
  reserve_config_deleveraging_margin_call_period, reserve_config_borrow_factor_pct,
  reserve_config_scope_price_account, reserve_config_scope_price_chain, reserve_status_active,
  reserve_status_obsolete, basis_points_per_percent, no_scope_feed,
}

-- The messages of the decoders of layout.ts.
pub data LayoutFailure : Type 0 where
  not_the_length_of_a_reserve : LayoutFailure
  not_the_length_of_an_obligation : LayoutFailure
  not_the_length_of_a_price_account : LayoutFailure
  not_the_length_of_a_lending_market : LayoutFailure

pub record WithdrawalCapSnapshot : Type 0 where
  pub capacity : ℤ
  pub used_in_this_window : ℤ
  pub window_started_at : ℕ
  pub window_length_seconds : ℕ

pub record BorrowCurvePoint : Type 0 where
  pub utilisation_bps : ℕ
  pub borrow_rate_bps : ℕ

pub record ReserveSnapshot : Type 0 where
  pub lending_market : Text
  pub liquidity_mint : Text
  pub liquidity_mint_decimals : ℕ
  pub liquidity_token_program : Text
  pub liquidity_supply_vault : Text
  pub liquidity_fee_vault : Text
  pub liquidity_available_amount : ℕ
  pub liquidity_market_price_scaled : ℕ
  pub borrow_factor_pct : ℕ
  pub deposit_limit_crossed_timestamp : ℕ
  pub borrow_limit_crossed_timestamp : ℕ
  pub collateral_mint : Text
  pub collateral_mint_total_supply : ℕ
  pub collateral_supply_vault : Text
  pub max_loan_to_value_bps : ℕ
  pub liquidation_threshold_bps : ℕ
  pub status : ℕ
  pub is_active : Bool
  pub is_obsolete : Bool
  pub autodeleverage_enabled : Bool
  pub deleveraging_margin_call_period_seconds : ℕ
  pub collateral_farm : Option Text
  pub debt_farm : Option Text
  pub scope_price_account : Text
  pub scope_feed_index : ℕ
  pub liquidity_borrowed_scaled : ℕ
  pub protocol_take_rate_pct : ℕ
  pub borrow_rate_curve : List BorrowCurvePoint
  pub deposit_limit : ℕ
  pub borrow_limit : ℕ
  pub deposit_withdrawal_cap : WithdrawalCapSnapshot
  pub debt_withdrawal_cap : WithdrawalCapSnapshot

unfoldable pub withdrawal_cap_at : List ℕ → ℕ → WithdrawalCapSnapshot
unfolding unsigned_at signed_at
withdrawal_cap_at bytes offset = record {
  capacity = signed_at bytes offset;
  used_in_this_window = signed_at bytes (offset + 8);
  window_started_at = unsigned_at bytes (offset + 16) 8;
  window_length_seconds = unsigned_at bytes (offset + 24) 8;
}

unfoldable pub borrow_curve_point_at : List ℕ → ℕ → BorrowCurvePoint
unfolding unsigned_at
borrow_curve_point_at bytes at = record {
  utilisation_bps = unsigned_at bytes at 4;
  borrow_rate_bps = unsigned_at bytes (at + 4) 4;
}

-- The points from `index` on, of which `left` are still to read.
unfoldable pub borrow_curve_points_from : List ℕ → ℕ → ℕ → ℕ → List BorrowCurvePoint
unfolding borrow_curve_point_at
borrow_curve_points_from bytes offset zero index = []
borrow_curve_points_from bytes offset (suc left) index =
    borrow_curve_point_at bytes (offset + index * 8)
    ∷ borrow_curve_points_from bytes offset left (index + 1)

unfoldable pub borrow_rate_curve_at : List ℕ → ℕ → List BorrowCurvePoint
unfolding borrow_curve_points_from
borrow_rate_curve_at bytes offset = borrow_curve_points_from bytes offset borrow_rate_curve_points 0

-- `isTheDefaultAddress(farm) ? null : farm`
unfoldable pub unless_the_default : Text → Option Text
unfolding is_the_default_address
unless_the_default farm = if is_the_default_address farm then none else some farm

unfoldable pub reserve_names_a_scope_feed : ReserveSnapshot → Bool
reserve_names_a_scope_feed reserve = not (reserve.scope_feed_index == no_scope_feed)

module _ (base58 : List ℕ → Text) where
  -- What is read of an account that has the length of a reserve.
  unfoldable pub reserve_snapshot : List ℕ → ReserveSnapshot
  unfolding byte_at unsigned_at address_at withdrawal_cap_at borrow_rate_curve_at unless_the_default
  reserve_snapshot bytes =
      let status = byte_at bytes reserve_config_status in
      let autodeleverage = byte_at bytes reserve_config_autodeleverage_enabled in
      record {
        lending_market = address_at base58 bytes reserve_lending_market;
        liquidity_mint = address_at base58 bytes reserve_liquidity_mint;
        liquidity_mint_decimals = unsigned_at bytes reserve_liquidity_mint_decimals 8;
        liquidity_token_program = address_at base58 bytes reserve_liquidity_token_program;
        liquidity_supply_vault = address_at base58 bytes reserve_liquidity_supply_vault;
        liquidity_fee_vault = address_at base58 bytes reserve_liquidity_fee_vault;
        liquidity_available_amount = unsigned_at bytes reserve_liquidity_available_amount 8;
        liquidity_market_price_scaled = unsigned_at bytes reserve_liquidity_market_price 16;
        borrow_factor_pct = unsigned_at bytes reserve_config_borrow_factor_pct 8;
        deposit_limit_crossed_timestamp =
            unsigned_at bytes reserve_liquidity_deposit_limit_crossed 8;
        borrow_limit_crossed_timestamp = unsigned_at bytes reserve_liquidity_borrow_limit_crossed 8;
        collateral_mint = address_at base58 bytes reserve_collateral_mint;
        collateral_mint_total_supply = unsigned_at bytes reserve_collateral_mint_total_supply 8;
        collateral_supply_vault = address_at base58 bytes reserve_collateral_supply_vault;
        max_loan_to_value_bps =
            byte_at bytes reserve_config_loan_to_value_pct * basis_points_per_percent;
        liquidation_threshold_bps =
            byte_at bytes reserve_config_liquidation_threshold_pct * basis_points_per_percent;
        status = status;
        is_active = status == reserve_status_active;
        is_obsolete = status == reserve_status_obsolete;
        autodeleverage_enabled = not (autodeleverage == 0);
        deleveraging_margin_call_period_seconds =
            unsigned_at bytes reserve_config_deleveraging_margin_call_period 8;
        collateral_farm = unless_the_default (address_at base58 bytes reserve_farm_collateral);
        debt_farm = unless_the_default (address_at base58 bytes reserve_farm_debt);
        liquidity_borrowed_scaled = unsigned_at bytes reserve_liquidity_borrowed_scaled 16;
        protocol_take_rate_pct = byte_at bytes reserve_config_protocol_take_rate_pct;
        borrow_rate_curve = borrow_rate_curve_at bytes reserve_config_borrow_rate_curve;
        deposit_limit = unsigned_at bytes reserve_config_deposit_limit 8;
        borrow_limit = unsigned_at bytes reserve_config_borrow_limit 8;
        deposit_withdrawal_cap = withdrawal_cap_at bytes reserve_config_deposit_withdrawal_cap;
        debt_withdrawal_cap = withdrawal_cap_at bytes reserve_config_debt_withdrawal_cap;
        scope_price_account = address_at base58 bytes reserve_config_scope_price_account;
        scope_feed_index = unsigned_at bytes reserve_config_scope_price_chain 2;
      }

  unfoldable pub decode_reserve : List ℕ → Outcome LayoutFailure ReserveSnapshot
  unfolding reserve_snapshot
  decode_reserve bytes =
      if length bytes == reserve_account_length
      then ok (reserve_snapshot bytes)
      else throw not_the_length_of_a_reserve
