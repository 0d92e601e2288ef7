-- ===== src/Server/Respond.antt =====
-- apps/web/src/server/respond.ts, with the codes of apps/web/src/copy/errors.ts: what a route answers.
-- A body's shape is a type, and the shape that a request is parsed into is the caller's.
use accrue.Base.{ℕ, Option, none, some}
use accrue.Base.Outcome.{Outcome, ok, throw}
use accrue.Base.Text.{Text, text}

pub data FailureCode : Type 0 where
  stale_quote simulation_failed signature_rejected rpc_timeout kill_switch program_paused
        rate_limited build_expired terms_behind acknowledgement_behind stale_oracle no_route
        cap_exhausted wrong_network price_too_old sign_in_first faucet_limit_reached sign_in_failed
        sign_in_expired signature_does_not_match no_wallet wallet_cannot_sign not_yours
        position_gone account_missing not_the_transaction_we_built stock_not_offered
        pair_not_on_this_network above_the_market_maximum position_already_open nothing_to_sell
        not_enough_stock guard_levels_out_of_bounds no_loan_to_guard position_too_small
        position_too_large above_the_default_loan_to_value above_the_liquidity_share
        something_went_wrong :
      FailureCode

pub data Response {ℓ} (Body : Type ℓ) : Type ℓ where
  -- `ok(body)`
  answer : Body → Response Body
  -- `refuse(message, status)`
  refuse : Text → ℕ → Response Body
  -- `refuseWith(failure, status)`
  refuse_with : FailureCode → ℕ → Response Body
  -- `tooMany(retryAfterSeconds)`, of status 429
  too_many : ℕ → Response Body

-- `request.json()` gives nothing where the body is not JSON, and `schema.safeParse` nothing where the
-- shape is not the route's; what is thrown here is the response.
unfoldable pub read_body {ρ σ β} :
    {Raw : Type ρ} {Shape : Type σ} {Body : Type β}
    → (Raw → Option Shape)
    → Option Raw
    → Outcome (Response Body) Shape
read_body schema none = throw (refuse (text "That request body is not JSON.") 400)
read_body schema (some raw) = elim (schema raw) [
  | some shape ↦ ok shape
  | none ↦ throw (refuse (text "That request is not in the shape this route takes.") 400)
]

-- `readQuery`, of the entries of the query.
unfoldable pub read_query {ρ σ β} :
    {Raw : Type ρ} {Shape : Type σ} {Body : Type β}
    → (Raw → Option Shape)
    → Raw
    → Outcome (Response Body) Shape
read_query schema entries = elim (schema entries) [
  | some shape ↦ ok shape
  | none ↦ throw (refuse (text "That request is not in the shape this route takes.") 400)
]
