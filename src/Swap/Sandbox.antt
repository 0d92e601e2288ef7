-- ===== src/Swap/Sandbox.antt =====
-- packages/solana/src/swap/sandbox.ts: a router of pools that hold one rate. Derived addresses and the
-- decoder of base 58 are functions of libraries; a read of an account acts on a state of the network
-- that is only passed on.

pub mod Read
pub mod Filled
mod Examples
use accrue.Base.{
  ℕ, ◌*◌, ◌/◌, ◌^◌, ltb, ◌==◌, not, Option, none, some, List, [], ◌∷◌, ◌++◌, length, take,
  if◌then◌else◌,
}
use accrue.Base.Int.{pos}
use accrue.Base.Outcome.{Outcome, ok, throw, ◌>>=◌}
use accrue.Base.Text.{Text, text, same_text}
use accrue.Kamino.Bytes.{unsigned_at, address_at}
use accrue.Kamino.Bytes.RoundTrip.{little_endian}
use accrue.Keeper.Subject.{RouteRequest}
use accrue.Swap.Route.{
  readonly, writable, whole, SwapRoute, RouteFailure, no_pool, fills_nothing, too_short_for_a_pool,
  no_pool_marker, no_such_mint, divided_by_zero, another_router, less_the_slippage,
  decode_mint_decimals,
}

abbrev pub sandbox_pool_account_length : ℕ
sandbox_pool_account_length = 185

abbrev pub offset_source_vault : ℕ
offset_source_vault = 104

abbrev pub offset_destination_vault : ℕ
offset_destination_vault = 136

abbrev pub offset_numerator : ℕ
offset_numerator = 168

abbrev pub offset_denominator : ℕ
offset_denominator = 176

pub record SandboxPool : Type 0 where
  pub source_vault : Text
  pub destination_vault : Text
  pub numerator : ℕ
  pub denominator : ℕ

pub record MintReading : Type 0 where
  pub decimals : ℕ
  pub token_program : Text

-- What the network has of an account.
pub record Account : Type 0 where
  pub owner : Text
  pub bytes : List ℕ

pub record SandboxServices (Network : Type 0) : Type 0 where
  pub base58 : List ℕ → Text
  -- `findSandboxPoolAddress`, of the program and the two mints
  pub pool_address : Text → Text → Text → Text
  -- `findSandboxSwapAuthority`
  pub swap_authority : Text → Text
  -- The derived address of an owner, a mint and a token program
  pub associated_token_account : Text → Text → Text → Text
  -- `getAccountInfo(…).send()`
  pub account_info : Text → Network → Outcome RouteFailure (Option Account) × Network

unfoldable pub decode_sandbox_pool : (List ℕ → Text) → List ℕ → Outcome RouteFailure SandboxPool
unfolding unsigned_at address_at
decode_sandbox_pool base58 bytes =
    if ltb (length bytes) sandbox_pool_account_length
    then throw too_short_for_a_pool
    else if not (same_text (take 8 bytes) (text "swappool"))
    then throw no_pool_marker
    else ok (record {
      source_vault = address_at base58 bytes offset_source_vault;
      destination_vault = address_at base58 bytes offset_destination_vault;
      numerator = unsigned_at bytes offset_numerator 8;
      denominator = unsigned_at bytes offset_denominator 8;
    })

-- A division of a bigint by zero throws.
unfoldable pub fill_at_the_sandbox_rate : ℕ → SandboxPool → ℕ → ℕ → Outcome RouteFailure ℕ
fill_at_the_sandbox_rate amount_in pool input_decimals output_decimals =
    if pool.denominator * 10 ^ input_decimals == 0
    then throw divided_by_zero
    else ok (
        amount_in
        * pool.numerator
        * 10 ^ output_decimals
        / (pool.denominator * 10 ^ input_decimals))

unfoldable pub sandbox_route_output : SwapRoute → Outcome RouteFailure ℕ
unfolding unsigned_at
sandbox_route_output route =
    if not (length route.route_bytes == 16)
    then throw another_router
    else ok (unsigned_at route.route_bytes 8 8)

module _ {Network : Type 0} (services : SandboxServices Network) (swap_program : Text) where
  open services use {base58, pool_address, swap_authority, associated_token_account, account_info}

  abbrev pub Reading : Type 0 → Type 0
  Reading A = Outcome RouteFailure A × Network

  -- What follows a call that returned; a throw passes over it.
  abbrev pub and_then : {A B : Type 0} → (A → Network → Reading B) → Reading A → Reading B
  and_then next (ok value, w) = next value w
  and_then next (throw failure, w) = (throw failure, w)

  abbrev pub mint_of : Option Account → Outcome RouteFailure MintReading
  mint_of none = throw no_such_mint
  mint_of (some account) = decode_mint_decimals account.bytes >>= λ decimals.
      ok (record { decimals = decimals; token_program = account.owner })

  unfoldable pub read_mint : Text → Network → Reading MintReading
  unfolding decode_mint_decimals
  read_mint mint w = and_then (λ account w'. (mint_of account, w')) (account_info mint w)

  -- The route of an amount that is not zero.
  unfoldable pub the_route : RouteRequest → SandboxPool → MintReading → MintReading → ℕ → SwapRoute
  unfolding less_the_slippage
  the_route request pool selling buying amount_out = record {
    accounts =
        record { address = request.signing_authority; role = readonly }
        ∷ record {
          address =
              associated_token_account request.signing_authority request.input_mint
                selling.token_program;
          role = writable;
        }
        ∷ record {
          address =
              associated_token_account request.signing_authority request.output_mint
                buying.token_program;
          role = writable;
        }
        ∷ record { address = pool.source_vault; role = writable }
        ∷ record { address = pool.destination_vault; role = writable }
        ∷ record { address = swap_authority swap_program; role = readonly }
        ∷ record { address = request.input_mint; role = readonly }
        ∷ record { address = request.output_mint; role = readonly }
        ∷ record { address = selling.token_program; role = readonly }
        ∷ record { address = buying.token_program; role = readonly }
        ∷ [];
    route_bytes = little_endian 8 request.amount_in ++ little_endian 8 amount_out;
    quote = record { amount_out = amount_out; price_impact_bps = whole (pos 0) };
    minimum_amount_out = less_the_slippage amount_out request.slippage_bps;
  }

  unfoldable pub filled :
      RouteRequest
      → SandboxPool
      → MintReading
      → MintReading
      → Outcome RouteFailure ℕ
      → Outcome RouteFailure SwapRoute
  unfolding the_route
  filled request pool selling buying (throw failure) = throw failure
  filled request pool selling buying (ok amount_out) =
      if amount_out == 0
      then throw fills_nothing
      else ok (the_route request pool selling buying amount_out)

  unfoldable pub buy :
      RouteRequest → SandboxPool → MintReading → MintReading → Outcome RouteFailure SwapRoute
  unfolding fill_at_the_sandbox_rate filled
  buy request pool selling buying =
      filled request pool selling buying
        (fill_at_the_sandbox_rate request.amount_in pool selling.decimals buying.decimals)

  abbrev pub bought :
      RouteRequest → SandboxPool → MintReading → MintReading → Network → Reading SwapRoute
  bought request pool selling buying w = (buy request pool selling buying, w)

  abbrev pub sold : RouteRequest → SandboxPool → MintReading → Network → Reading SwapRoute
  sold request pool selling w =
      and_then (bought request pool selling) (read_mint request.output_mint w)

  -- The two mints are read, the one that is sold first.
  unfoldable pub over_the_pool : RouteRequest → SandboxPool → Network → Reading SwapRoute
  unfolding read_mint buy
  over_the_pool request pool w = and_then (sold request pool) (read_mint request.input_mint w)

  abbrev pub pool_of : Option Account → Outcome RouteFailure SandboxPool
  pool_of none = throw no_pool
  pool_of (some account) = decode_sandbox_pool base58 account.bytes

  abbrev pub over_the_account : RouteRequest → Option Account → Network → Reading SwapRoute
  over_the_account request account w = and_then (over_the_pool request) (pool_of account, w)

  unfoldable pub find_route : RouteRequest → Network → Reading SwapRoute
  unfolding decode_sandbox_pool over_the_pool
  find_route request w =
      and_then (over_the_account request)
        (account_info (pool_address swap_program request.input_mint request.output_mint) w)
