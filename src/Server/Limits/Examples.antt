-- ===== src/Server/Limits/Examples.antt =====
-- Requests of one caller in one minute, and the witnesses of the theorems on the allowance.
use accrue.Base.{ℕ, ◌+◌, ◌≤◌, ◌≡◌, refl, min, none, some, List, [], ◌∷◌}
use accrue.Base.Division.{ceil_div}
use accrue.Base.Text.{Text, text}
use accrue.Server.Env.{Environment}
use accrue.Server.Limits.{
  faucet, allowance, caller_from_forwarded_for, retry_after_seconds, the_window_start,
}
use accrue.Server.Limits.Allowance.{
  Event, asks, gives_back, let_through, given_back, asked_for, let_through-le-allowance,
  let_through-eq-min,
}

-- Nothing is set.
abbrev unset : Environment
unset = record { variable = λ name. none; finite_number = λ name. none }

abbrev bucket : Text
bucket = text "devnet/faucet:wallet:120000"

abbrev asks_at : ℕ → Event
asks_at now = asks (text "devnet/faucet") (text "wallet") now

-- Three requests in a minute, one that is given back, and one of the next minute.
abbrev events : List Event
events =
    asks_at 121_000
    ∷ asks_at 122_000
    ∷ asks_at 123_000
    ∷ gives_back (text "devnet/faucet") (text "wallet") 124_000
    ∷ asks_at 181_000
    ∷ []

two_of_three : let_through unset faucet bucket events [] ≡ 2
unfolding let_through
two_of_three = refl

first_of_the_chain :
    caller_from_forwarded_for (some (text " 203.0.113.7 , 10.0.0.1")) ≡ text "203.0.113.7"
unfolding caller_from_forwarded_for
first_of_the_chain = refl

ten_seconds_left : retry_after_seconds (the_window_start 170_500) 170_500 ≡ 10
unfolding retry_after_seconds the_window_start ceil_div
ten_seconds_left = refl

let_through-le-allowance_example :
    let_through unset faucet bucket events []
    ≤ allowance unset faucet + given_back unset faucet bucket events
let_through-le-allowance_example = let_through-le-allowance unset faucet bucket events

let_through-eq-min_example :
    let_through unset faucet bucket (asks_at 121_000 ∷ asks_at 122_000 ∷ asks_at 123_000 ∷ []) []
    ≡ min
        (asked_for unset faucet bucket (asks_at 121_000 ∷ asks_at 122_000 ∷ asks_at 123_000 ∷ []))
        (allowance unset faucet)
let_through-eq-min_example =
    let_through-eq-min unset faucet bucket
      (asks_at 121_000 ∷ asks_at 122_000 ∷ asks_at 123_000 ∷ []) refl
