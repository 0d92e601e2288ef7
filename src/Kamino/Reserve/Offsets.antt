-- ===== src/Kamino/Reserve/Offsets.antt =====
-- packages/solana/src/kamino/layout.ts: where each field of a reserve stands in its account.
use accrue.Base.{ℕ}

abbrev pub reserve_account_length : ℕ
reserve_account_length = 8_624

abbrev pub reserve_lending_market : ℕ
reserve_lending_market = 32

abbrev pub reserve_farm_collateral : ℕ
reserve_farm_collateral = 64

abbrev pub reserve_farm_debt : ℕ
reserve_farm_debt = 96

abbrev pub reserve_liquidity_mint : ℕ
reserve_liquidity_mint = 128

abbrev pub reserve_liquidity_supply_vault : ℕ
reserve_liquidity_supply_vault = 160

abbrev pub reserve_liquidity_fee_vault : ℕ
reserve_liquidity_fee_vault = 192

abbrev pub reserve_liquidity_available_amount : ℕ
reserve_liquidity_available_amount = 224

abbrev pub reserve_liquidity_deposit_limit_crossed : ℕ
reserve_liquidity_deposit_limit_crossed = 280

abbrev pub reserve_liquidity_borrow_limit_crossed : ℕ
reserve_liquidity_borrow_limit_crossed = 288

abbrev pub reserve_liquidity_market_price : ℕ
reserve_liquidity_market_price = 248

abbrev pub reserve_liquidity_mint_decimals : ℕ
reserve_liquidity_mint_decimals = 272

abbrev pub reserve_liquidity_token_program : ℕ
reserve_liquidity_token_program = 408

abbrev pub reserve_collateral_mint : ℕ
reserve_collateral_mint = 2_560

abbrev pub reserve_collateral_mint_total_supply : ℕ
reserve_collateral_mint_total_supply = 2_592

abbrev pub reserve_collateral_supply_vault : ℕ
reserve_collateral_supply_vault = 2_600

abbrev pub reserve_liquidity_borrowed_scaled : ℕ
reserve_liquidity_borrowed_scaled = 232

abbrev pub reserve_config_status : ℕ
reserve_config_status = 4_856

abbrev pub reserve_config_protocol_take_rate_pct : ℕ
reserve_config_protocol_take_rate_pct = 4_870

abbrev pub reserve_config_borrow_rate_curve : ℕ
reserve_config_borrow_rate_curve = 4_920

abbrev pub reserve_config_deposit_limit : ℕ
reserve_config_deposit_limit = 5_016

abbrev pub reserve_config_borrow_limit : ℕ
reserve_config_borrow_limit = 5_024

abbrev pub reserve_config_deposit_withdrawal_cap : ℕ
reserve_config_deposit_withdrawal_cap = 5_416

abbrev pub reserve_config_debt_withdrawal_cap : ℕ
reserve_config_debt_withdrawal_cap = 5_448

abbrev pub reserve_config_loan_to_value_pct : ℕ
reserve_config_loan_to_value_pct = 4_872

abbrev pub reserve_config_liquidation_threshold_pct : ℕ
reserve_config_liquidation_threshold_pct = 4_873

abbrev pub reserve_config_autodeleverage_enabled : ℕ
reserve_config_autodeleverage_enabled = 5_502

abbrev pub reserve_config_deleveraging_margin_call_period : ℕ
reserve_config_deleveraging_margin_call_period = 4_880

abbrev pub reserve_config_borrow_factor_pct : ℕ
reserve_config_borrow_factor_pct = 5_008

abbrev pub reserve_config_scope_price_account : ℕ
reserve_config_scope_price_account = 5_112

abbrev pub reserve_config_scope_price_chain : ℕ
reserve_config_scope_price_chain = 5_144

abbrev pub reserve_status_active : ℕ
reserve_status_active = 0

abbrev pub reserve_status_obsolete : ℕ
reserve_status_obsolete = 1

abbrev pub borrow_rate_curve_points : ℕ
borrow_rate_curve_points = 11

abbrev pub basis_points_per_percent : ℕ
basis_points_per_percent = 100

abbrev pub no_scope_feed : ℕ
no_scope_feed = 0xffff
