-- ===== src/Keeper/Guard/Built.antt =====
-- What apps/keeper/src/guard.ts asks of the router and of the program when it builds.
use accrue.Base.{ℕ, ◌+◌, ◌*◌, ◌/◌, ◌^◌, ◌≤◌, ◌<◌, ◌≡◌, refl, arith, ◌==◌}
use accrue.Base.Outcome.{ok, past_the_throw, first_returned, ok-injective}
use accrue.Core.Guard.Sale.{IsMadeFor, within_the_balance, destination_to_sell_for_protect_lem}
use accrue.Core.Money.Rounding.{IsGreatest}
use accrue.Keeper.Instructions.{ProtectInput, GrowInput}
use accrue.Keeper.Subject.{
  GuardSubject, RouteRequest, SwapRoute, Instruction, Outside, GuardAssembly,
}
use accrue.Keeper.Inputs.{protect_input, grow_input}
use accrue.Keeper.Guard.{
  in_the_guard, selling_request, buying_request, protect_over_a_route, build_protect, build_grow,
  destination_to_sell_for_protect, usdc_to_borrow_for_grow, grow_over_a_route,
}
use accrue.Keeper.Guard.Asked.{
  Swaps, sale_of, Extends, with_route_accounts-Extends, in_the_guard-ok, room_to_borrow,
}

module _ {Meta Rest : Type 0} (outside : Outside Meta Rest) where
  -- An instruction to protect that sells `amount` of the destination for the dollar.
  pub record IsProtect (assembly : GuardAssembly) (subject : GuardSubject)
      (instruction : Instruction Meta Rest) : Type 0 where
    pub amount : ℕ
    pub requested : RouteRequest
    pub route : SwapRoute Meta
    pub input : ProtectInput
    pub made : IsMadeFor (sale_of assembly subject) amount
    pub something : 0 < amount
    pub held : amount ≤ subject.destination_balance
    pub sells : requested.input_mint ≡ subject.position.destination_mint
    pub buys : requested.output_mint ≡ subject.borrow_reserve.liquidity_mint
    pub swaps : Swaps requested assembly subject amount
    pub found : outside.find_route requested ≡ ok route
    pub over_the_route : input.jupiter_route_data ≡ route.route_bytes
    pub no_minimum : input.owner_minimum_usdc_out ≡ 0
    pub of_the_position : input.position ≡ subject.position_address
    pub on_the_obligation : input.obligation ≡ subject.position.obligation
    pub out_of : input.position_destination_account ≡ subject.position.destination_token_account
    pub into : input.position_usdc_account ≡ subject.position.usdc_token_account
    pub called_by : input.caller ≡ assembly.caller
    pub bounty_to :
        input.caller_usdc_account
        ≡ outside.find_associated_token_account assembly.caller (record {
          mint = subject.borrow_reserve.liquidity_mint;
          token_program = subject.borrow_reserve.liquidity_token_program;
        })
    pub built : Extends instruction (outside.get_protect_instruction input) route.accounts

  -- Whenever an instruction to protect is built, it is over a route that the router found for selling
  -- the position's destination for the dollar, signed by the position within the slippage of the
  -- settings, and the accounts of that route follow its own. The amount is above zero, at most what
  -- the position holds, and the least that covers the repayment and the bounty or is all of it. The
  -- program is given that route, the position with its accounts, the caller's account for the bounty,
  -- and no minimum.
  pub build_protect-IsProtect :
      (assembly : GuardAssembly) (subject : GuardSubject) (instruction : Instruction Meta Rest)
      → build_protect outside assembly subject ≡ ok instruction
      → IsProtect assembly subject instruction
  unfolding build_protect protect_over_a_route protect_input destination_to_sell_for_protect
      selling_request
  build_protect-IsProtect assembly subject instruction h =
      let (amount, e, rest) =
        first_returned _ (in_the_guard (destination_to_sell_for_protect subject assembly.config))
          h in
      let made =
        destination_to_sell_for_protect_lem (sale_of assembly subject) amount
          (in_the_guard-ok _ amount e) in
      let (not_zero, goes_on) = past_the_throw (amount == 0) _ _ rest in
      let (route, found, built) =
        first_returned _ (outside.find_route (selling_request assembly subject amount)) goes_on in
      let input : ProtectInput = protect_input outside assembly subject route in
      record {
        amount = amount;
        requested = selling_request assembly subject amount;
        route = route;
        input = input;
        made = made;
        something = ground arith;
        held = within_the_balance made;
        sells = refl;
        buys = refl;
        swaps = record { amount_in = refl; slippage = refl; accounts = refl; signer = refl };
        found = found;
        over_the_route = refl;
        no_minimum = refl;
        of_the_position = refl;
        on_the_obligation = refl;
        out_of = refl;
        into = refl;
        called_by = refl;
        bounty_to = refl;
        built =
            with_route_accounts-Extends (outside.get_protect_instruction input) instruction
              route.accounts (ok-injective built);
      }

  -- An instruction to grow that spends `amount` of the dollar on the destination.
  pub record IsGrow (assembly : GuardAssembly) (subject : GuardSubject)
      (instruction : Instruction Meta Rest) : Type 0 where
    -- What may be borrowed, in scaled dollars and in USDC.
    pub value : ℕ
    pub amount : ℕ
    pub requested : RouteRequest
    pub route : SwapRoute Meta
    pub input : GrowInput
    pub value_is_greatest :
        IsGreatest
          (λ x.
            subject.obligation.adjusted_debt_value_scaled * 100
              + x * subject.borrow_reserve.borrow_factor_pct
            ≤ subject.obligation.deposited_value_scaled * subject.position.strategy.target_ltv_bps
              / 10_000 * 100)
          value
    pub amount_is_greatest :
        IsGreatest
          (λ x.
            x * subject.usdc_price_scaled
            ≤ value * 10 ^ subject.borrow_reserve.liquidity_mint_decimals)
          amount
    pub something : 0 < amount
    pub sells : requested.input_mint ≡ subject.borrow_reserve.liquidity_mint
    pub buys : requested.output_mint ≡ subject.position.destination_mint
    pub swaps : Swaps requested assembly subject amount
    pub found : outside.find_route requested ≡ ok route
    pub over_the_route : input.jupiter_route_data ≡ route.route_bytes
    pub no_minimum : input.owner_minimum_destination_out ≡ 0
    pub of_the_position : input.position ≡ subject.position_address
    pub on_the_obligation : input.obligation ≡ subject.position.obligation
    pub out_of : input.position_usdc_account ≡ subject.position.usdc_token_account
    pub into : input.position_destination_account ≡ subject.position.destination_token_account
    pub called_by : input.caller ≡ assembly.caller
    pub built : Extends instruction (outside.get_grow_instruction input) route.accounts

  -- Whenever an instruction to grow is built, it is over a route that the router found for spending
  -- the dollar on the position's destination, signed by the position within the slippage of the
  -- settings, and the accounts of that route follow its own. The amount is above zero and the
  -- greatest that keeps the debt at the target. The program is given that route, the position with its
  -- accounts, and no minimum.
  pub build_grow-IsGrow :
      (assembly : GuardAssembly) (subject : GuardSubject) (instruction : Instruction Meta Rest)
      → build_grow outside assembly subject ≡ ok instruction
      → IsGrow assembly subject instruction
  unfolding build_grow grow_over_a_route grow_input buying_request
  build_grow-IsGrow assembly subject instruction h =
      let (amount, e, rest) = first_returned _ (in_the_guard (usdc_to_borrow_for_grow subject)) h in
      let (not_zero, goes_on) = past_the_throw (amount == 0) _ _ rest in
      let (route, found, built) =
        first_returned _ (outside.find_route (buying_request assembly subject amount)) goes_on in
      let something : 0 < amount = ground arith in
      let (value, value_greatest, amount_greatest) =
        room_to_borrow subject amount (in_the_guard-ok _ amount e) something in
      let input : GrowInput = grow_input outside assembly subject route in
      record {
        value = value;
        amount = amount;
        requested = buying_request assembly subject amount;
        route = route;
        input = input;
        value_is_greatest = value_greatest;
        amount_is_greatest = amount_greatest;
        something = something;
        sells = refl;
        buys = refl;
        swaps = record { amount_in = refl; slippage = refl; accounts = refl; signer = refl };
        found = found;
        over_the_route = refl;
        no_minimum = refl;
        of_the_position = refl;
        on_the_obligation = refl;
        out_of = refl;
        into = refl;
        called_by = refl;
        built =
            with_route_accounts-Extends (outside.get_grow_instruction input) instruction
              route.accounts (ok-injective built);
      }
