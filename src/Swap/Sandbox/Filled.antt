-- ===== src/Swap/Sandbox/Filled.antt =====
-- A route of the sandbox router carries what its pool fills.
use accrue.Base.{
  ℕ, zero, suc, ◌^◌, ◌*◌, ◌/◌, ◌<◌, ◌≤◌, ltb, ◌==◌, ◌≡◌, refl, arith, ap, sym, ◌∙◌, ◌⊎◌, inl, inr,
  Bool-cases, false, Option, none, some, [], ◌++◌,
}
use accrue.Base.Int.{pos, sub_ℕ, ◌≤ℤ◌}
use accrue.Base.Outcome.{Outcome, ok, throw, past_the_throw, ok-injective}
use accrue.Base.Text.{Text}
use accrue.Kamino.Bytes.RoundTrip.{little_endian, unsigned_at-little_endian}
use accrue.Keeper.Subject.{RouteRequest}
use accrue.Swap.Route.{SwapRoute, RouteFailure, less_the_slippage}
use accrue.Swap.Sandbox.{
  decode_sandbox_pool, sold, bought, over_the_account, SandboxServices, SandboxPool, MintReading,
  Account, the_route, filled, buy, over_the_pool, find_route, sandbox_route_output, read_mint,
  pool_of, fill_at_the_sandbox_rate,
}
use accrue.Swap.Sandbox.Read.{
  RateIsOf, MintIsRead, decode_sandbox_pool-RateIsOf, returned, read_mint-MintIsRead,
}

less_the_slippage-le : (amount slippage : ℕ) → less_the_slippage amount slippage ≤ℤ pos amount
unfolding less_the_slippage
less_the_slippage-le amount slippage = ground arith

positive_factor : (a b : ℕ) → (a * b == 0) ≡ false → 0 < a
positive_factor zero b h = ground arith
positive_factor (suc a) b h = omega arith

fill_at_the_sandbox_rate-ok :
    (amount_in : ℕ) (pool : SandboxPool) (input output amount_out : ℕ)
    → fill_at_the_sandbox_rate amount_in pool input output ≡ ok amount_out
    → (0 < pool.denominator)
      × (amount_out ≡ amount_in * pool.numerator * 10 ^ output / (pool.denominator * 10 ^ input))
unfolding fill_at_the_sandbox_rate
fill_at_the_sandbox_rate-ok amount_in pool input output amount_out h =
    let (not_zero, rest) = past_the_throw (pool.denominator * 10 ^ input == 0) _ _ h in
    (positive_factor pool.denominator (10 ^ input) not_zero, sym (ok-injective rest))

module _ {Network : Type 0} (services : SandboxServices Network) (swap_program : Text) where
  open services use {base58, pool_address, account_info}

  -- The amount that the program reads out of the route is the one of its quote.
  sandbox_route_output-the_route :
      (request : RouteRequest) (pool : SandboxPool) (selling buying : MintReading) (amount_out : ℕ)
      → amount_out < 256 ^ 8
      → sandbox_route_output
          (the_route services swap_program request pool selling buying amount_out)
        ≡ ok amount_out
  unfolding sandbox_route_output the_route
  sandbox_route_output-the_route request pool selling buying amount_out h =
      ap ok (unsigned_at-little_endian (little_endian 8 request.amount_in) [] 8 amount_out h)

  -- A route of an amount for what is asked.
  pub record Carries (request : RouteRequest) (route : SwapRoute) (amount_out : ℕ) : Type 0 where
    pub quoted : route.quote.amount_out ≡ amount_out
    pub bytes : route.route_bytes ≡ little_endian 8 request.amount_in ++ little_endian 8 amount_out
    pub read_back : (256 ^ 8 ≤ amount_out) ⊎ (sandbox_route_output route ≡ ok amount_out)
    pub floor :
        route.minimum_amount_out ≡ sub_ℕ amount_out (amount_out * request.slippage_bps / 10_000)
    pub floor_is_no_more : route.minimum_amount_out ≤ℤ pos amount_out

  the_route-Carries :
      (request : RouteRequest) (pool : SandboxPool) (selling buying : MintReading) (amount_out : ℕ)
      → Carries request
          (the_route services swap_program request pool selling buying amount_out)
          amount_out
  unfolding the_route
  the_route-Carries request pool selling buying amount_out = record {
    quoted = refl;
    bytes = refl;
    read_back = elim (Bool-cases (ltb amount_out (256 ^ 8))) [
      | inl small ↦
          inr (sandbox_route_output-the_route request pool selling buying amount_out (ground arith))
      | inr large ↦ inl (ground arith)
    ];
    floor = refl;
    floor_is_no_more = less_the_slippage-le amount_out request.slippage_bps;
  }

  buy-Carries :
      (request : RouteRequest) (pool : SandboxPool) (selling buying : MintReading)
      (route : SwapRoute)
      → buy services swap_program request pool selling buying ≡ ok route
      → (amount_out : ℕ) × (fill_at_the_sandbox_rate request.amount_in pool selling.decimals
            buying.decimals
          ≡ ok amount_out)
        × (0 < amount_out)
        × Carries request route amount_out
  unfolding buy filled
  buy-Carries request pool selling buying route h =
      filled-Carries
        (fill_at_the_sandbox_rate request.amount_in pool selling.decimals buying.decimals) h
    where
      filled-Carries :
          (result : Outcome RouteFailure ℕ)
          → filled services swap_program request pool selling buying result ≡ ok route
          → (amount_out : ℕ) × (result ≡ ok amount_out)
            × (0 < amount_out)
            × Carries request route amount_out
      filled-Carries (throw failure) h' = cc
      filled-Carries (ok amount_out) h' =
          let (positive, made) = past_the_throw (amount_out == 0) _ _ h' in
          (
            amount_out,
            refl,
            ground arith,
            rw (← ok-injective made) (the_route-Carries request pool selling buying amount_out),
          )

  -- A route that was found over a pool, between the mints as they were read.
  pub record IsFilled (request : RouteRequest) (before : Network) (route : SwapRoute) : Type 0 where
    pub account : Account
    pub pool : SandboxPool
    pub selling : MintReading
    pub buying : MintReading
    pub amount_out : ℕ
    -- The network after each of the three reads.
    pub with_the_pool : Network
    pub with_the_sold : Network
    pub with_the_bought : Network
    pub found :
        account_info (pool_address swap_program request.input_mint request.output_mint) before
        ≡ (ok (some account), with_the_pool)
    pub decoded : decode_sandbox_pool base58 account.bytes ≡ ok pool
    pub rate : RateIsOf pool account
    pub is_sold :
        MintIsRead services swap_program request.input_mint with_the_pool selling with_the_sold
    pub is_bought :
        MintIsRead services swap_program request.output_mint with_the_sold buying with_the_bought
    pub divides : 0 < pool.denominator
    pub fills :
        amount_out
        ≡ request.amount_in
          * pool.numerator
          * 10 ^ buying.decimals
          / (pool.denominator * 10 ^ selling.decimals)
    pub something : 0 < amount_out
    pub carries : Carries request route amount_out

  account_of_a_pool :
      (account : Option Account) (pool : SandboxPool)
      → pool_of services swap_program account ≡ ok pool
      → (held : Account) × (account ≡ some held) × (decode_sandbox_pool base58 held.bytes ≡ ok pool)
  account_of_a_pool none pool h = cc
  account_of_a_pool (some held) pool h = (held, refl, h)

  -- A route that is found is over the pool of its two mints, whose rate stands in the bytes of its
  -- account. It fills something: the amount at that rate, between the decimals that were read out of
  -- the account of each mint. The route carries that amount, which the program reads back out of it
  -- where it fits eight bytes, and its floor is the amount less the slippage that was asked for.
  pub find_route-IsFilled :
      (request : RouteRequest) (w after : Network) (route : SwapRoute)
      → find_route services swap_program request w ≡ (ok route, after)
      → IsFilled request w route
  unfolding find_route over_the_pool
  find_route-IsFilled request w after route h =
      let (account, w₁, found, read) =
        returned services swap_program (over_the_account services swap_program request)
          (account_info (pool_address swap_program request.input_mint request.output_mint) w) route
          after h in
      let (pool, w₂, decoded, taken) =
        returned services swap_program (over_the_pool services swap_program request)
          (pool_of services swap_program account, w₁) route after read in
      let (held, is_held, is_pool) = account_of_a_pool account pool (ap (λ p. p.0) decoded) in
      let (selling, w₃, sold_read, is_sold) =
        returned services swap_program (sold services swap_program request pool)
          (read_mint services swap_program request.input_mint w₂) route after taken in
      let (buying, w₄, bought_read, is_bought) =
        returned services swap_program (bought services swap_program request pool selling)
          (read_mint services swap_program request.output_mint w₃) route after is_sold in
      let (amount_out, filled_to, positive, carries) =
        buy-Carries request pool selling buying route (ap (λ p. p.0) is_bought) in
      let (divides, fills) =
        fill_at_the_sandbox_rate-ok request.amount_in pool selling.decimals buying.decimals
          amount_out filled_to in
      record {
        account = held;
        pool = pool;
        selling = selling;
        buying = buying;
        amount_out = amount_out;
        with_the_pool = w₂;
        with_the_sold = w₃;
        with_the_bought = w₄;
        found =
            found
            ∙ ap (λ (a : Option Account). (ok a, w₁)) is_held
            ∙ ap (λ (v : Network). (ok (some held), v)) (ap (λ p. p.1) decoded);
        decoded = is_pool;
        rate = decode_sandbox_pool-RateIsOf services swap_program held pool is_pool;
        is_sold =
            read_mint-MintIsRead services swap_program request.input_mint w₂ w₃ selling sold_read;
        is_bought =
            read_mint-MintIsRead services swap_program request.output_mint w₃ w₄ buying bought_read;
        divides = divides;
        fills = fills;
        something = positive;
        carries = carries;
      }
