-- ===== src/Swap/Jupiter.antt =====
-- packages/solana/src/swap/jupiter.ts and routeFromSwapInstruction of packages/solana/src/jupiter/route.ts: a
-- router outside of the repository. Its answers, with their numbers read, and the calls of the network
-- are parameters.

pub mod Within
pub mod Capped
mod Examples
use accrue.Base.{ℕ, min, Bool, true, false, not, Option, none, some, List, [], ◌∷◌, if◌then◌else◌}
use accrue.Base.Int.{ℤ, pos, ltb_ℤ}
use accrue.Base.Outcome.{Outcome, ok, throw, ◌>>=◌}
use accrue.Base.Text.{Text, same_text}
use accrue.Keeper.Subject.{RouteRequest}
use accrue.Swap.Route.{
  AccountRole, readonly, writable, AccountMeta, RoundedNumber, whole, not_a_number, infinite,
  minus_infinite, RouteQuote, SwapRoute, RouteFailure, no_quote, no_swap_instruction,
  moves_the_price, another_router, not_an_address, less_the_slippage,
}

pub record JupiterRouterOptions : Type 0 where
  pub max_slippage_bps : Option ℕ
  pub max_price_impact_bps : Option ℕ

-- What the address of a quote asks for.
pub record QuoteQuery : Type 0 where
  pub input_mint : Text
  pub output_mint : Text
  pub amount : ℕ
  pub slippage_bps : ℕ
  pub max_accounts : ℕ

-- The fields of a quote, with its amounts read.
pub record QuoteResponse : Type 0 where
  pub out_amount : Option ℕ
  pub other_amount_threshold : Option ℕ
  pub price_impact_pct : Option Text

pub record RouterAccount : Type 0 where
  pub pubkey : Text
  pub is_writable : Bool

pub record SwapInstructionFromTheRouter : Type 0 where
  pub program_id : Text
  pub accounts : List RouterAccount
  pub base64 : Text

pub record JupiterServices (Network : Type 0) : Type 0 where
  pub is_address : Text → Bool
  pub bytes_of_base64 : Text → List ℕ
  -- `Math.round(Number(…) * 10_000)`, of a text
  pub basis_points_of : Text → RoundedNumber
  pub jupiter_program_address : Text
  pub fetch_quote : QuoteQuery → Network → Outcome RouteFailure QuoteResponse × Network
  -- The instruction of a quote for a signer, where there is one
  pub fetch_instruction :
      QuoteResponse
      → Text
      → Network
      → Outcome RouteFailure (Option SwapInstructionFromTheRouter) × Network

-- `Math.min(asked, ceiling ?? asked)`
abbrev pub at_most : ℕ → Option ℕ → ℕ
at_most asked none = min asked asked
at_most asked (some ceiling) = min asked ceiling

unfoldable pub capped_slippage : JupiterRouterOptions → RouteRequest → ℕ
capped_slippage options request = at_most request.slippage_bps options.max_slippage_bps

unfoldable pub quote_query : JupiterRouterOptions → RouteRequest → QuoteQuery
unfolding capped_slippage
quote_query options request = record {
  input_mint = request.input_mint;
  output_mint = request.output_mint;
  amount = request.amount_in;
  slippage_bps = capped_slippage options request;
  max_accounts = request.max_accounts;
}

-- The router's own floor, or else the quote less the cap.
unfoldable pub minimum_of : ℕ → ℕ → QuoteResponse → ℤ
unfolding less_the_slippage
minimum_of slippage_bps amount_out response = elim response.other_amount_threshold [
  | none ↦ less_the_slippage amount_out slippage_bps
  | some threshold ↦ pos threshold
]

-- Whether an impact is past the ceiling, which what is not a number never is.
unfoldable pub is_past : Option ℕ → RoundedNumber → Bool
is_past none impact = false
is_past (some ceiling) (whole impact) = ltb_ℤ (pos ceiling) impact
is_past (some ceiling) not_a_number = false
is_past (some ceiling) infinite = true
is_past (some ceiling) minus_infinite = false

abbrev pub role_of : Bool → AccountRole
role_of true = writable
role_of false = readonly

module _ {Network : Type 0} (services : JupiterServices Network) where
  open services use {
    is_address, bytes_of_base64, basis_points_of, jupiter_program_address, fetch_quote,
    fetch_instruction,
  }

  -- `Math.round(Number(priceImpactPct ?? 0) * 10_000)`
  unfoldable pub price_impact_of : Option Text → RoundedNumber
  price_impact_of none = whole (pos 0)
  price_impact_of (some percent) = basis_points_of percent

  -- `accounts.map`, which an address that does not parse ends.
  unfoldable pub metas_of : List RouterAccount → Outcome RouteFailure (List AccountMeta)
  metas_of [] = ok []
  metas_of (account ∷ accounts) =
      if not (is_address account.pubkey)
      then throw not_an_address
      else metas_of accounts >>= λ metas.
          ok (record { address = account.pubkey; role = role_of account.is_writable } ∷ metas)

  unfoldable pub route_from_swap_instruction :
      SwapInstructionFromTheRouter → RouteQuote → ℤ → Outcome RouteFailure SwapRoute
  unfolding metas_of
  route_from_swap_instruction instruction quote minimum_amount_out =
      if not (is_address instruction.program_id)
      then throw not_an_address
      else if not (same_text instruction.program_id jupiter_program_address)
      then throw another_router
      else metas_of instruction.accounts >>= λ accounts. ok (record {
        accounts = accounts;
        route_bytes = bytes_of_base64 instruction.base64;
        quote = quote;
        minimum_amount_out = minimum_amount_out;
      })

  -- The instruction that was fetched, and the test of the impact before it becomes a route.
  unfoldable pub with_the_instruction :
      JupiterRouterOptions
      → RouteQuote
      → ℤ
      → Outcome RouteFailure (Option SwapInstructionFromTheRouter) × Network
      → Outcome RouteFailure SwapRoute × Network
  unfolding is_past route_from_swap_instruction
  with_the_instruction options quote minimum_amount_out (throw failure, w) = (throw failure, w)
  with_the_instruction options quote minimum_amount_out (ok none, w) =
      (throw no_swap_instruction, w)
  with_the_instruction options quote minimum_amount_out (ok (some instruction), w) = (
    if is_past options.max_price_impact_bps quote.price_impact_bps
        then throw moves_the_price
        else route_from_swap_instruction instruction quote minimum_amount_out,
    w,
  )

  unfoldable pub with_the_amount :
      JupiterRouterOptions
      → RouteRequest
      → QuoteResponse
      → Network
      → Option ℕ
      → Outcome RouteFailure SwapRoute × Network
  unfolding minimum_of capped_slippage with_the_instruction price_impact_of
  with_the_amount options request response w none = (throw no_quote, w)
  with_the_amount options request response w (some amount_out) =
      with_the_instruction options
        (record {
          amount_out = amount_out;
          price_impact_bps = price_impact_of response.price_impact_pct;
        })
        (minimum_of (capped_slippage options request) amount_out response)
        (fetch_instruction response request.signing_authority w)

  unfoldable pub with_the_quote :
      JupiterRouterOptions
      → RouteRequest
      → Outcome RouteFailure QuoteResponse × Network
      → Outcome RouteFailure SwapRoute × Network
  unfolding with_the_amount
  with_the_quote options request (throw failure, w) = (throw failure, w)
  with_the_quote options request (ok response, w) =
      with_the_amount options request response w response.out_amount

  -- `findRoute`
  unfoldable pub find_jupiter_route :
      JupiterRouterOptions → RouteRequest → Network → Outcome RouteFailure SwapRoute × Network
  unfolding with_the_quote quote_query
  find_jupiter_route options request w =
      with_the_quote options request (fetch_quote (quote_query options request) w)
