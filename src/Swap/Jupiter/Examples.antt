-- ===== src/Swap/Jupiter/Examples.antt =====
-- A router that gives what is asked, and the witness of the theorem on its routes.
use accrue.Base.Text.{same_text}
use accrue.Base.{◌≡◌, refl, true, none, some, [], ◌∷◌}
use accrue.Base.Int.{pos}
use accrue.Base.Outcome.{ok}
use accrue.Base.Text.{text}
use accrue.Keeper.Subject.{RouteRequest}
use accrue.Swap.Jupiter.{JupiterServices, JupiterRouterOptions, find_jupiter_route}
use accrue.Swap.Jupiter.Capped.{IsCapped, find_jupiter_route-IsCapped}
use accrue.Swap.Route.{SwapRoute, writable, whole}

abbrev services : JupiterServices (Unit {0})
services = record {
  is_address = λ value. true;
  bytes_of_base64 = λ value. 1 ∷ 2 ∷ [];
  basis_points_of = λ percent. whole (pos 20);
  jupiter_program_address = text "jupiter";
  fetch_quote = λ query w. (
    ok (record {
      out_amount = some 2_000;
      other_amount_threshold = none;
      price_impact_pct = some (text "0.002");
    }),
    w,
  );
  fetch_instruction = λ response signer w. (
    ok (
        some (record {
          program_id = text "jupiter";
          accounts = record { pubkey = text "account"; is_writable = true } ∷ [];
          base64 = text "AQI=";
        })),
    w,
  );
}

abbrev options : JupiterRouterOptions
options = record { max_slippage_bps = some 50; max_price_impact_bps = some 100 }

abbrev request : RouteRequest
request = record {
  input_mint = text "in";
  output_mint = text "out";
  amount_in = 1_000;
  slippage_bps = 300;
  max_accounts = 20;
  signing_authority = text "signer";
}

abbrev route : SwapRoute
route = record {
  accounts = record { address = text "account"; role = writable } ∷ [];
  route_bytes = 1 ∷ 2 ∷ [];
  quote = record { amount_out = 2_000; price_impact_bps = whole (pos 20) };
  minimum_amount_out = pos 1_990;
}

is_found : find_jupiter_route services options request tt ≡ (ok route, tt)
unfolding find_jupiter_route same_text
is_found = refl

find_jupiter_route-IsCapped_example : IsCapped services options request tt route
find_jupiter_route-IsCapped_example =
    find_jupiter_route-IsCapped services options request tt tt route is_found
