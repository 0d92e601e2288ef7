-- ===== src/Swap/Route.antt =====
-- packages/solana/src/jupiter/route.ts, swap/router.ts and what swap/sandbox.ts reads of token.ts: the
-- shape of a route, what a router throws, and the decimals of a mint.
use accrue.Base.{ℕ, ◌*◌, ◌/◌, ltb, List, length, if◌then◌else◌}
use accrue.Base.Int.{ℤ, sub_ℕ}
use accrue.Base.Outcome.{Outcome, ok, throw}
use accrue.Base.Text.{Text}
use accrue.Kamino.Bytes.{byte_at}

-- Of the roles of an account, those that a route gives.
pub data AccountRole : Type 0 where
  readonly writable : AccountRole

pub record AccountMeta : Type 0 where
  pub address : Text
  pub role : AccountRole

-- What `Math.round` may give.
pub data RoundedNumber : Type 0 where
  whole : ℤ → RoundedNumber
  not_a_number infinite minus_infinite : RoundedNumber

pub record RouteQuote : Type 0 where
  pub amount_out : ℕ
  pub price_impact_bps : RoundedNumber

pub record SwapRoute : Type 0 where
  pub accounts : List AccountMeta
  pub route_bytes : List ℕ
  pub quote : RouteQuote
  -- Below nothing where the slippage is over the whole.
  pub minimum_amount_out : ℤ

-- What a router throws: `NoRouteFound` with its reason, or another failure.
pub data RouteFailure : Type 0 where
  no_pool fills_nothing no_quote no_swap_instruction moves_the_price : RouteFailure
  too_short_for_a_pool no_pool_marker no_such_mint too_short_for_a_mint divided_by_zero
        another_router not_an_address the_network_failed :
      RouteFailure

abbrev pub basis_points : ℕ
basis_points = 10_000

-- `amountOut - (amountOut * slippage) / 10_000n`
unfoldable pub less_the_slippage : ℕ → ℕ → ℤ
less_the_slippage amount_out slippage_bps =
    sub_ℕ amount_out (amount_out * slippage_bps / basis_points)

abbrev pub mint_decimals : ℕ
mint_decimals = 44

abbrev pub mint_base_length : ℕ
mint_base_length = 82

unfoldable pub decode_mint_decimals : List ℕ → Outcome RouteFailure ℕ
unfolding byte_at
decode_mint_decimals bytes =
    if ltb (length bytes) mint_base_length
    then throw too_short_for_a_mint
    else ok (byte_at bytes mint_decimals)
