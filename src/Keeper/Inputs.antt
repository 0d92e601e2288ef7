-- ===== src/Keeper/Inputs.antt =====
-- apps/keeper/src/guard.ts: what the generated builders of the three instructions are given.
use accrue.Base.{Option, none, some}
use accrue.Base.Text.{Text}
use accrue.Kamino.Reserve.{ReserveSnapshot}
use accrue.Keeper.Instructions.{ProtectInput, GrowInput, LeaveInput}
use accrue.Keeper.Subject.{
  GuardSubject, SwapRoute, ReserveAccounts, FarmAccounts, Outside, GuardAssembly,
  the_program_computes_the_minimum,
}

unfoldable pub reserve_accounts : ReserveSnapshot → ReserveAccounts
reserve_accounts reserve = record {
  liquidity_supply = reserve.liquidity_supply_vault;
  liquidity_fee_receiver = reserve.liquidity_fee_vault;
  collateral_mint = reserve.collateral_mint;
  collateral_supply = reserve.collateral_supply_vault;
  liquidity_token_program = reserve.liquidity_token_program;
}

module _ {Meta Rest : Type 0} (outside : Outside Meta Rest) where
  -- The accounts of the farm of a reserve, where it has one.
  unfoldable pub farm_accounts : Option Text → GuardSubject → FarmAccounts
  farm_accounts none subject = record { reserve_farm_state = none; obligation_farm_state = none }
  farm_accounts (some farm) subject = record {
    reserve_farm_state = some farm;
    obligation_farm_state =
        some (outside.find_obligation_farm_user_state farm subject.position.obligation);
  }

  unfoldable pub borrow_farm_accounts : GuardSubject → FarmAccounts
  unfolding farm_accounts
  borrow_farm_accounts subject = farm_accounts subject.borrow_reserve.debt_farm subject

  unfoldable pub collateral_farm_accounts : GuardSubject → FarmAccounts
  unfolding farm_accounts
  collateral_farm_accounts subject =
      farm_accounts subject.collateral_reserve.collateral_farm subject

  unfoldable pub protect_input : GuardAssembly → GuardSubject → SwapRoute Meta → ProtectInput
  unfolding reserve_accounts borrow_farm_accounts
  protect_input assembly subject route =
      let caller_usdc_account = outside.find_associated_token_account assembly.caller (record {
        mint = subject.borrow_reserve.liquidity_mint;
        token_program = subject.borrow_reserve.liquidity_token_program;
      }) in
      let lending_market_authority =
        outside.find_lending_market_authority subject.position.market in
      let farms = borrow_farm_accounts subject in
      record {
        caller = assembly.caller;
        caller_usdc_account = caller_usdc_account;
        config = assembly.config_address;
        position = subject.position_address;
        destination_mint = subject.position.destination_mint;
        borrow_mint = subject.borrow_reserve.liquidity_mint;
        position_collateral_account = subject.position.collateral_token_account;
        position_usdc_account = subject.position.usdc_token_account;
        position_destination_account = subject.position.destination_token_account;
        obligation = subject.position.obligation;
        lending_market = subject.position.market;
        lending_market_authority = lending_market_authority;
        collateral_reserve = subject.collateral_reserve_address;
        borrow_reserve = subject.borrow_reserve_address;
        borrow_reserve_liquidity_supply =
            (reserve_accounts (subject.borrow_reserve)).liquidity_supply;
        borrow_reserve_farm_state = farms.reserve_farm_state;
        borrow_obligation_farm_state = farms.obligation_farm_state;
        collateral_scope_prices = subject.collateral_reserve.scope_price_account;
        borrow_scope_prices = subject.borrow_reserve.scope_price_account;
        destination_scope_prices = subject.destination.scope_price_account;
        borrow_token_program = subject.borrow_reserve.liquidity_token_program;
        destination_token_program = subject.destination.token_program;
        owner_minimum_usdc_out = the_program_computes_the_minimum;
        jupiter_route_data = route.route_bytes;
      }

  unfoldable pub grow_input : GuardAssembly → GuardSubject → SwapRoute Meta → GrowInput
  unfolding reserve_accounts borrow_farm_accounts
  grow_input assembly subject route =
      let lending_market_authority =
        outside.find_lending_market_authority subject.position.market in
      let farms = borrow_farm_accounts subject in
      let borrow_vaults = reserve_accounts subject.borrow_reserve in
      record {
        caller = assembly.caller;
        config = assembly.config_address;
        position = subject.position_address;
        destination_mint = subject.position.destination_mint;
        borrow_mint = subject.borrow_reserve.liquidity_mint;
        position_collateral_account = subject.position.collateral_token_account;
        position_usdc_account = subject.position.usdc_token_account;
        position_destination_account = subject.position.destination_token_account;
        obligation = subject.position.obligation;
        lending_market = subject.position.market;
        lending_market_authority = lending_market_authority;
        collateral_reserve = subject.collateral_reserve_address;
        borrow_reserve = subject.borrow_reserve_address;
        borrow_reserve_liquidity_supply = borrow_vaults.liquidity_supply;
        borrow_reserve_fee_receiver = borrow_vaults.liquidity_fee_receiver;
        borrow_reserve_farm_state = farms.reserve_farm_state;
        borrow_obligation_farm_state = farms.obligation_farm_state;
        collateral_scope_prices = subject.collateral_reserve.scope_price_account;
        borrow_scope_prices = subject.borrow_reserve.scope_price_account;
        destination_scope_prices = subject.destination.scope_price_account;
        borrow_token_program = subject.borrow_reserve.liquidity_token_program;
        destination_token_program = subject.destination.token_program;
        owner_minimum_destination_out = the_program_computes_the_minimum;
        jupiter_route_data = route.route_bytes;
      }

  unfoldable pub leave_input : GuardAssembly → GuardSubject → SwapRoute Meta → LeaveInput
  unfolding reserve_accounts borrow_farm_accounts collateral_farm_accounts
  leave_input assembly subject route =
      let lending_market_authority =
        outside.find_lending_market_authority subject.position.market in
      let collateral_farms = collateral_farm_accounts subject in
      let borrow_farms = borrow_farm_accounts subject in
      let owner_accounts =
        outside.find_the_three_token_accounts subject.position.owner
          (record {
            mint = subject.position.collateral_mint;
            token_program = subject.collateral_reserve.liquidity_token_program;
          })
          (record {
            mint = subject.borrow_reserve.liquidity_mint;
            token_program = subject.borrow_reserve.liquidity_token_program;
          })
          (record {
            mint = subject.position.destination_mint;
            token_program = subject.destination.token_program;
          }) in
      let collateral_vaults = reserve_accounts subject.collateral_reserve in
      record {
        caller = assembly.caller;
        config = assembly.config_address;
        position = subject.position_address;
        collateral_mint = subject.position.collateral_mint;
        destination_mint = subject.position.destination_mint;
        borrow_mint = subject.borrow_reserve.liquidity_mint;
        position_collateral_account = subject.position.collateral_token_account;
        position_usdc_account = subject.position.usdc_token_account;
        position_destination_account = subject.position.destination_token_account;
        owner_collateral_account = owner_accounts.collateral;
        owner_usdc_account = owner_accounts.usdc;
        owner_destination_account = owner_accounts.destination;
        owner = subject.position.owner;
        obligation = subject.position.obligation;
        lending_market = subject.position.market;
        lending_market_authority = lending_market_authority;
        collateral_reserve = subject.collateral_reserve_address;
        collateral_reserve_collateral_supply = collateral_vaults.collateral_supply;
        collateral_reserve_collateral_mint = collateral_vaults.collateral_mint;
        collateral_reserve_liquidity_supply = collateral_vaults.liquidity_supply;
        borrow_reserve = subject.borrow_reserve_address;
        borrow_reserve_liquidity_supply =
            (reserve_accounts (subject.borrow_reserve)).liquidity_supply;
        collateral_reserve_farm_state = collateral_farms.reserve_farm_state;
        collateral_obligation_farm_state = collateral_farms.obligation_farm_state;
        borrow_reserve_farm_state = borrow_farms.reserve_farm_state;
        borrow_obligation_farm_state = borrow_farms.obligation_farm_state;
        collateral_scope_prices = subject.collateral_reserve.scope_price_account;
        borrow_scope_prices = subject.borrow_reserve.scope_price_account;
        destination_scope_prices = subject.destination.scope_price_account;
        kamino_collateral_token_program = outside.token_program_address;
        collateral_token_program = subject.collateral_reserve.liquidity_token_program;
        borrow_token_program = subject.borrow_reserve.liquidity_token_program;
        destination_token_program = subject.destination.token_program;
        jupiter_route_data = route.route_bytes;
      }
