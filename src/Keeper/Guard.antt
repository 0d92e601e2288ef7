-- ===== src/Keeper/Guard.antt =====
-- apps/keeper/src/guard.ts: the three instructions of the guard, from a subject that was read off
-- the chain.
pub mod Asked
pub mod Built
use accrue.Base.{
  ℕ, ltb, ◌==◌, Bool, true, false, Option, none, some, List, [], ◌++◌, ◌∷◌, if◌then◌else◌,
}
use accrue.Base.Outcome.{Outcome, ok, throw, ◌>>=◌}
use accrue.Base.Text.{Text}
use accrue.Core.Failure.{Failure}
use accrue.Core.Money.{raw_amount_worth_rounding_down}
use accrue.Core.Guard.{borrow_to_reach_target}
use accrue.Core.Guard
use accrue.Kamino.Reserve.{ReserveSnapshot}
use accrue.Kamino.Obligation.{ObligationSnapshot}
use accrue.Keeper.Chain.{Position, DestinationEntry, Config}
use accrue.Keeper.Decide.{Decision, propose, wait, protect, grow, leave}
use accrue.Keeper.Instructions.{ProtectInput, GrowInput, LeaveInput}
use accrue.Keeper.Subject.{
  GuardSubject, GuardFailure, in_the_arithmetic, no_route_found, nothing_left_to_sell,
  no_room_left_to_borrow, asked_to_build_a_wait, RouteRequest, SwapRoute, Instruction, TokenHolder,
  OwnerAccounts, ReserveAccounts, FarmAccounts, Outside, GuardAssembly, route_max_accounts,
  the_program_computes_the_minimum, nothing_to_swap,
}
use accrue.Keeper.Inputs.{
  reserve_accounts, borrow_farm_accounts, collateral_farm_accounts, protect_input, grow_input,
  leave_input,
}

unfoldable pub in_the_guard : {A : Type 0} → Outcome Failure A → Outcome GuardFailure A
in_the_guard (ok a) = ok a
in_the_guard (throw failure) = throw (in_the_arithmetic failure)

unfoldable pub destination_to_sell_for_protect : GuardSubject → Config → Outcome Failure ℕ
destination_to_sell_for_protect subject config = Guard.destination_to_sell_for_protect (record {
  adjusted_debt_value_scaled = subject.obligation.adjusted_debt_value_scaled;
  deposited_value_scaled = subject.obligation.deposited_value_scaled;
  target_ltv_bps = subject.position.strategy.target_ltv_bps;
  borrow_factor_pct = subject.borrow_reserve.borrow_factor_pct;
  keeper_bounty_bps = config.keeper_bounty_bps;
  keeper_bounty_cap_usdc = config.keeper_bounty_cap_usdc;
  max_slippage_bps = config.max_slippage_bps;
  usdc_decimals = subject.borrow_reserve.liquidity_mint_decimals;
  usdc_price_scaled = subject.usdc_price_scaled;
  destination_decimals = subject.destination_decimals;
  destination_price_scaled = subject.destination_price_scaled;
  destination_balance = subject.destination_balance;
})

unfoldable pub usdc_to_borrow_for_grow : GuardSubject → Outcome Failure ℕ
usdc_to_borrow_for_grow subject = do
  room ←
      borrow_to_reach_target subject.obligation.adjusted_debt_value_scaled
        subject.obligation.deposited_value_scaled subject.position.strategy.target_ltv_bps
        subject.borrow_reserve.borrow_factor_pct
  raw_amount_worth_rounding_down room subject.borrow_reserve.liquidity_mint_decimals
      subject.usdc_price_scaled

unfoldable pub selling_request : GuardAssembly → GuardSubject → ℕ → RouteRequest
selling_request assembly subject amount_in = record {
  input_mint = subject.position.destination_mint;
  output_mint = subject.borrow_reserve.liquidity_mint;
  amount_in = amount_in;
  slippage_bps = assembly.config.max_slippage_bps;
  max_accounts = route_max_accounts;
  signing_authority = subject.position_address;
}

unfoldable pub buying_request : GuardAssembly → GuardSubject → ℕ → RouteRequest
buying_request assembly subject amount_in = record {
  input_mint = subject.borrow_reserve.liquidity_mint;
  output_mint = subject.position.destination_mint;
  amount_in = amount_in;
  slippage_bps = assembly.config.max_slippage_bps;
  max_accounts = route_max_accounts;
  signing_authority = subject.position_address;
}

module _ {Meta Rest : Type 0} where
  -- `[...(instruction.accounts ?? []), ...routeAccounts]`
  unfoldable pub with_route_accounts : Instruction Meta Rest → List Meta → Instruction Meta Rest
  with_route_accounts instruction [] = instruction
  with_route_accounts instruction (first ∷ others) =
      let own : List Meta = elim instruction.accounts [ some accounts ↦ accounts | none ↦ [] ] in
      record instruction { accounts = some (own ++ (first ∷ others)) }

module _ {Meta Rest : Type 0} (outside : Outside Meta Rest) where
  -- What follows the test of the amount.
  unfoldable pub protect_over_a_route :
      GuardAssembly → GuardSubject → ℕ → Outcome GuardFailure (Instruction Meta Rest)
  unfolding selling_request protect_input with_route_accounts
  protect_over_a_route assembly subject destination_to_sell = do
    route ← outside.find_route (selling_request assembly subject destination_to_sell)
    ok (
        with_route_accounts
          (outside.get_protect_instruction (protect_input outside assembly subject route))
          route.accounts)

  unfoldable pub build_protect :
      GuardAssembly → GuardSubject → Outcome GuardFailure (Instruction Meta Rest)
  unfolding in_the_guard destination_to_sell_for_protect protect_over_a_route
  build_protect assembly subject = do
    destination_to_sell ← in_the_guard (destination_to_sell_for_protect subject assembly.config)
    if destination_to_sell == 0
        then throw nothing_left_to_sell
        else protect_over_a_route assembly subject destination_to_sell

  -- What follows the test of the amount.
  unfoldable pub grow_over_a_route :
      GuardAssembly → GuardSubject → ℕ → Outcome GuardFailure (Instruction Meta Rest)
  unfolding buying_request grow_input with_route_accounts
  grow_over_a_route assembly subject borrowing = do
    route ← outside.find_route (buying_request assembly subject borrowing)
    ok (
        with_route_accounts
          (outside.get_grow_instruction (grow_input outside assembly subject route)) route.accounts)

  unfoldable pub build_grow :
      GuardAssembly → GuardSubject → Outcome GuardFailure (Instruction Meta Rest)
  unfolding in_the_guard usdc_to_borrow_for_grow grow_over_a_route
  build_grow assembly subject = do
    borrowing ← in_the_guard (usdc_to_borrow_for_grow subject)
    if borrowing == 0
        then throw no_room_left_to_borrow
        else grow_over_a_route assembly subject borrowing

  -- With nothing to sell there is no route.
  unfoldable pub leaving_route :
      GuardAssembly → GuardSubject → Outcome GuardFailure (SwapRoute Meta)
  unfolding selling_request
  leaving_route assembly subject =
      if ltb 0 subject.destination_balance
      then outside.find_route (selling_request assembly subject subject.destination_balance)
      else ok (record { accounts = []; route_bytes = nothing_to_swap })

  unfoldable pub build_leave :
      GuardAssembly → GuardSubject → Outcome GuardFailure (Instruction Meta Rest)
  unfolding leaving_route leave_input with_route_accounts
  build_leave assembly subject = do
    route ← leaving_route assembly subject
    ok (
        with_route_accounts
          (outside.get_leave_instruction (leave_input outside assembly subject route))
          route.accounts)

  -- `createGuardInstructionBuilder(assembly).build`
  unfoldable pub build :
      GuardAssembly → GuardSubject → Decision → Outcome GuardFailure (Instruction Meta Rest)
  unfolding build_protect build_grow build_leave
  build assembly subject (propose protect) = build_protect assembly subject
  build assembly subject (propose grow) = build_grow assembly subject
  build assembly subject (propose leave) = build_leave assembly subject
  build assembly subject (wait reason) = throw asked_to_build_a_wait
