-- ===== src/Swap/Sandbox/Examples.antt =====
-- A pool that gives two for one, and the witness of the theorem on the sandbox router.
use accrue.Base.Text.{same_text}
use accrue.Base.{ℕ, zero, suc, ◌≡◌, refl, some, List, [], ◌∷◌, ◌++◌}
use accrue.Base.Outcome.{ok}
use accrue.Base.Text.{text}
use accrue.Kamino.Bytes.RoundTrip.{little_endian}
use accrue.Keeper.Subject.{RouteRequest}
use accrue.Swap.Route.{SwapRoute}
use accrue.Swap.Sandbox.{SandboxServices, SandboxPool, MintReading, the_route, find_route}
use accrue.Swap.Sandbox.Filled.{IsFilled, find_route-IsFilled}

abbrev zeros : ℕ → List ℕ
zeros zero = []
zeros (suc n) = 0 ∷ zeros n

abbrev pool_bytes : List ℕ
pool_bytes = text "swappool" ++ (zeros 160 ++ (little_endian 8 2 ++ (little_endian 8 1 ++ zeros 1)))

-- A mint of six decimals.
abbrev mint_bytes : List ℕ
mint_bytes = zeros 44 ++ (6 ∷ zeros 37)

abbrev services : SandboxServices (Unit {0})
services = record {
  base58 = λ bytes. text "vault";
  pool_address = λ program input output. text "pool";
  swap_authority = λ program. text "authority";
  associated_token_account = λ owner mint program. text "account";
  account_info = λ address w. (
    ok (
        some (record {
          owner = text "tokens";
          bytes = elim address [ [] ↦ mint_bytes | c ∷ cs ↦ pool_bytes ];
        })),
    w,
  );
}

-- The mints are the empty text, so that the service tells them from the pool.
abbrev request : RouteRequest
request = record {
  input_mint = [];
  output_mint = [];
  amount_in = 1_000;
  slippage_bps = 50;
  max_accounts = 20;
  signing_authority = text "signer";
}

abbrev pool : SandboxPool
pool = record {
  source_vault = text "vault";
  destination_vault = text "vault";
  numerator = 2;
  denominator = 1;
}

abbrev mint : MintReading
mint = record { decimals = 6; token_program = text "tokens" }

abbrev route : SwapRoute
route = the_route services (text "program") request pool mint mint 2_000

is_found : find_route services (text "program") request tt ≡ (ok route, tt)
unfolding find_route same_text
is_found = refl

find_route-IsFilled_example : IsFilled services (text "program") request tt route
find_route-IsFilled_example =
    find_route-IsFilled services (text "program") request tt tt route is_found
