-- ===== src/Swap/Jupiter/Capped.antt =====
-- A route of the outside router keeps to the caps, whatever the caller or the router asks.
use accrue.Base.{
  ℕ, ◌≤◌, ◌≡◌, refl, ap, sym, ◌∙◌, arith, ◌⊎◌, inl, inr, false, not, Option, none, some, List, [],
  ◌∷◌, map,
}
use accrue.Base.Int.{ℤ, pos}
use accrue.Base.Outcome.{Outcome, ok, throw, first_returned, past_the_throw, ok-injective}
use accrue.Base.Text.{Text, same_text, same_text_iff}
use accrue.Keeper.Subject.{RouteRequest}
use accrue.Swap.Jupiter.{
  JupiterServices, JupiterRouterOptions, QuoteQuery, QuoteResponse, RouterAccount,
  SwapInstructionFromTheRouter, capped_slippage, quote_query, minimum_of, is_past, metas_of,
  route_from_swap_instruction, with_the_instruction, price_impact_of, with_the_amount,
  with_the_quote, find_jupiter_route,
}
use accrue.Swap.Route.{RoundedNumber, whole, RouteQuote, SwapRoute, RouteFailure, AccountMeta}
use accrue.Swap.Jupiter.Within.{
  IsWithin, ImpactIsWithin, FloorIsOf, at_most-IsWithin, is_past-ImpactIsWithin,
  minimum_of-FloorIsOf,
}

module _ {Network : Type 0} (services : JupiterServices Network) where
  open services use {
    is_address, bytes_of_base64, basis_points_of, fetch_quote, jupiter_program_address,
    fetch_instruction,
  }

  -- The impact is the one that the router answered, or nothing where it gave none.
  abbrev pub ImpactIsOf : Option Text → RoundedNumber → Type 0
  ImpactIsOf percent impact =
      ((percent ≡ none) × (impact ≡ whole (pos 0)))
      ⊎ ((given : Text) × (percent ≡ some given) × (impact ≡ basis_points_of given))

  price_impact_of-ImpactIsOf :
      (percent : Option Text) → ImpactIsOf percent (price_impact_of services percent)
  unfolding price_impact_of
  price_impact_of-ImpactIsOf none = inl (refl, refl)
  price_impact_of-ImpactIsOf (some given) = inr (given, refl, refl)

  abbrev pub addresses_of : List AccountMeta → List Text
  addresses_of metas = map (λ (meta : AccountMeta). meta.address) metas

  abbrev pub pubkeys_of : List RouterAccount → List Text
  pubkeys_of accounts = map (λ (account : RouterAccount). account.pubkey) accounts

  metas_of-addresses :
      (accounts : List RouterAccount) (metas : List AccountMeta)
      → metas_of services accounts ≡ ok metas
      → addresses_of metas ≡ pubkeys_of accounts
  unfolding metas_of
  metas_of-addresses [] metas h = ap addresses_of (sym (ok-injective h))
  metas_of-addresses (account ∷ accounts) metas h =
      let (_, mapped) = past_the_throw (not (is_address account.pubkey)) _ _ h in
      let (others, are_others, is_metas) = first_returned _ (metas_of services accounts) mapped in
      ap addresses_of (sym (ok-injective is_metas))
      ∙ ap (λ rest. account.pubkey ∷ rest) (metas_of-addresses accounts others are_others)

  -- The route of the accounts that parsed.
  abbrev made :
      SwapInstructionFromTheRouter
      → RouteQuote
      → ℤ
      → List AccountMeta
      → Outcome RouteFailure SwapRoute
  made instruction quote minimum accounts = ok (record {
    accounts = accounts;
    route_bytes = bytes_of_base64 instruction.base64;
    quote = quote;
    minimum_amount_out = minimum;
  })

  -- What a route keeps of the instruction, the quote and the floor that it is made of.
  pub record Keeps (instruction : SwapInstructionFromTheRouter) (quote : RouteQuote) (minimum : ℤ)
      (route : SwapRoute) : Type 0 where
    pub of_jupiter : instruction.program_id ≡ jupiter_program_address
    pub same_quote : route.quote ≡ quote
    pub same_minimum : route.minimum_amount_out ≡ minimum
    pub same_bytes : route.route_bytes ≡ bytes_of_base64 instruction.base64
    pub same_accounts : addresses_of route.accounts ≡ pubkeys_of instruction.accounts

  route_from_swap_instruction-Keeps :
      (instruction : SwapInstructionFromTheRouter) (quote : RouteQuote) (minimum : ℤ)
      (route : SwapRoute)
      → route_from_swap_instruction services instruction quote minimum ≡ ok route
      → Keeps instruction quote minimum route
  unfolding route_from_swap_instruction
  route_from_swap_instruction-Keeps instruction quote minimum route h =
      let (is_read, parsed) = past_the_throw (not (is_address instruction.program_id)) _ _ h in
      let (of_jupiter, mapped) =
        past_the_throw (not (same_text instruction.program_id jupiter_program_address)) _ _
          parsed in
      let (metas, are_metas, is_made) =
        first_returned (made instruction quote minimum) (metas_of services instruction.accounts)
          mapped in
      let same = ok-injective is_made in
      record {
        of_jupiter =
            (same_text_iff instruction.program_id jupiter_program_address).0
              (ground (arith, of_jupiter));
        same_quote = ap (λ (r : SwapRoute). r.quote) (sym same);
        same_minimum = ap (λ (r : SwapRoute). r.minimum_amount_out) (sym same);
        same_bytes = ap (λ (r : SwapRoute). r.route_bytes) (sym same);
        same_accounts =
            ap (λ (r : SwapRoute). addresses_of r.accounts) (sym same)
            ∙ metas_of-addresses instruction.accounts metas are_metas;
      }

  with_the_instruction-Keeps :
      (options : JupiterRouterOptions) (quote : RouteQuote) (minimum : ℤ)
      (result : Outcome RouteFailure (Option SwapInstructionFromTheRouter) × Network)
      (route : SwapRoute) (after : Network)
      → with_the_instruction services options quote minimum result ≡ (ok route, after)
      → (instruction : SwapInstructionFromTheRouter) × (result.0 ≡ ok (some instruction))
        × (is_past options.max_price_impact_bps quote.price_impact_bps ≡ false)
        × Keeps instruction quote minimum route
  unfolding with_the_instruction
  with_the_instruction-Keeps options quote minimum (throw failure, w) route after h = cc
  with_the_instruction-Keeps options quote minimum (ok none, w) route after h = cc
  with_the_instruction-Keeps options quote minimum (ok (some instruction), w) route after h =
      let (within, routed) =
        past_the_throw (is_past options.max_price_impact_bps quote.price_impact_bps) _ _
          (ap (λ p. p.0) h) in
      (
        instruction,
        refl,
        within,
        route_from_swap_instruction-Keeps instruction quote minimum route routed,
      )

  -- A route is of a quote for the request and of the router's instruction for that quote.
  pub record IsCapped (options : JupiterRouterOptions) (request : RouteRequest) (before : Network)
      (route : SwapRoute) : Type 0 where
    pub query : QuoteQuery
    pub response : QuoteResponse
    pub instruction : SwapInstructionFromTheRouter
    pub between : Network
    pub quoted : fetch_quote query before ≡ (ok response, between)
    pub sells : query.input_mint ≡ request.input_mint
    pub buys : query.output_mint ≡ request.output_mint
    pub sold : query.amount ≡ request.amount_in
    pub of_few_accounts : query.max_accounts ≡ request.max_accounts
    pub no_more_slippage : query.slippage_bps ≤ request.slippage_bps
    pub slippage_is_within : IsWithin options.max_slippage_bps query.slippage_bps
    pub slippage_is_one_of_both :
        (query.slippage_bps ≡ request.slippage_bps)
        ⊎ (options.max_slippage_bps ≡ some query.slippage_bps)
    pub fetched :
        (fetch_instruction response request.signing_authority between).0 ≡ ok (some instruction)
    pub of_jupiter : instruction.program_id ≡ jupiter_program_address
    pub amount : response.out_amount ≡ some route.quote.amount_out
    pub impact : ImpactIsOf response.price_impact_pct route.quote.price_impact_bps
    pub impact_is_within : ImpactIsWithin options.max_price_impact_bps route.quote.price_impact_bps
    pub floor :
        FloorIsOf response route.quote.amount_out query.slippage_bps route.minimum_amount_out
    pub bytes : route.route_bytes ≡ bytes_of_base64 instruction.base64
    pub accounts : addresses_of route.accounts ≡ pubkeys_of instruction.accounts

  with_the_amount-IsCapped :
      (options : JupiterRouterOptions) (request : RouteRequest) (response : QuoteResponse)
      (before w : Network) (amount : Option ℕ) (route : SwapRoute) (after : Network)
      → fetch_quote (quote_query options request) before ≡ (ok response, w)
      → response.out_amount ≡ amount
      → with_the_amount services options request response w amount ≡ (ok route, after)
      → IsCapped options request before route
  unfolding with_the_amount quote_query capped_slippage
  with_the_amount-IsCapped options request response before w none route after quoted read h = cc
  with_the_amount-IsCapped options request response before w (some amount_out) route after quoted
        read h =
      let impact = price_impact_of services response.price_impact_pct in
      let slippage = capped_slippage options request in
      let floor = minimum_of slippage amount_out response in
      let (instruction, fetched, within, keeps) =
        with_the_instruction-Keeps options
          (record { amount_out = amount_out; price_impact_bps = impact }) floor
          (fetch_instruction response request.signing_authority w) route after h in
      let (asked, allowed, either) =
        at_most-IsWithin request.slippage_bps options.max_slippage_bps in
      let same_amount = ap (λ (q : RouteQuote). q.amount_out) keeps.same_quote in
      let same_impact = ap (λ (q : RouteQuote). q.price_impact_bps) keeps.same_quote in
      record {
        query = quote_query options request;
        response = response;
        instruction = instruction;
        between = w;
        quoted = quoted;
        sells = refl;
        buys = refl;
        sold = refl;
        of_few_accounts = refl;
        no_more_slippage = asked;
        slippage_is_within = allowed;
        slippage_is_one_of_both = either;
        fetched = fetched;
        of_jupiter = keeps.of_jupiter;
        amount = rw same_amount read;
        impact = rw same_impact (price_impact_of-ImpactIsOf response.price_impact_pct);
        impact_is_within =
            rw same_impact (is_past-ImpactIsWithin options.max_price_impact_bps impact within);
        floor =
            rw (same_amount, keeps.same_minimum)
              (minimum_of-FloorIsOf slippage amount_out response response.other_amount_threshold
                refl);
        bytes = keeps.same_bytes;
        accounts = keeps.same_accounts;
      }

  -- A route that is found is of the program that the chain calls, with the accounts and the bytes of
  -- the instruction that the router gave for a quote. The quote was asked for the mints and the amount
  -- of the request, with the slippage of the request or of the ceiling, whichever is less. Its amount
  -- and its price impact are those that the router answered, an impact that is a number is within
  -- the ceiling, and the floor is the router's own or else the amount less that slippage.
  pub find_jupiter_route-IsCapped :
      (options : JupiterRouterOptions) (request : RouteRequest) (w after : Network)
      (route : SwapRoute)
      → find_jupiter_route services options request w ≡ (ok route, after)
      → IsCapped options request w route
  unfolding find_jupiter_route with_the_quote
  find_jupiter_route-IsCapped options request w after route h =
      with_the_quote-IsCapped (fetch_quote (quote_query options request) w) refl h
    where
      with_the_quote-IsCapped :
          (result : Outcome RouteFailure QuoteResponse × Network)
          → fetch_quote (quote_query options request) w ≡ result
          → with_the_quote services options request result ≡ (ok route, after)
          → IsCapped options request w route
      with_the_quote-IsCapped (throw failure, w') is_result h' = cc
      with_the_quote-IsCapped (ok response, w') is_result h' =
          with_the_amount-IsCapped options request response w w' response.out_amount route after
            is_result refl h'
