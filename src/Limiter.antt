-- ===== src/Limiter.antt =====
-- packages/solana/src/rpc/limiter.ts: the sliding window of requests that one client shares. The
-- clock's readings are arguments; the queue of callers is the order of the looks. What the source
-- says of a rate that is no number or no whole number stays out: the rate is a natural number.
pub mod Window
mod Examples
use accrue.Base.{
  true, false, ℕ, ◌+◌, ◌-◌, leb, ltb, ◌==◌, Option, none, some, List, [], ◌∷◌, ◌++◌, length,
  if◌then◌else◌,
}
use accrue.Base.Outcome.{Outcome, ok, throw}

abbrev pub a_second_in_milliseconds : ℕ
a_second_in_milliseconds = 1_000

pub data LimiterFailure : Type 0 where
  not_a_positive_rate : LimiterFailure

-- The starts of the last requests, the oldest first.
unfoldable pub create_rate_limiter : ℕ → Outcome LimiterFailure (List ℕ)
create_rate_limiter requests_per_second =
    if requests_per_second == 0 then throw not_a_positive_rate else ok []

-- The inner loop: it stops at the first start that is less than a second ago.
unfoldable pub shift_the_old : ℕ → List ℕ → List ℕ
shift_the_old now [] = []
shift_the_old now (started ∷ later) = elim (leb (started + a_second_in_milliseconds) now) [
  | true ↦ shift_the_old now later
  | false ↦ started ∷ later
]

-- What a turn of the outer loop comes to: the turn is taken, or it sleeps for so many milliseconds.
pub data Look : Type 0 where
  taken : List ℕ → Look
  must_sleep : List ℕ → ℕ → Look

-- `sleep(A_SECOND_IN_MILLISECONDS - (now - oldest))`, which lasts a millisecond at least.
unfoldable pub sleep_until_old : ℕ → List ℕ → ℕ
sleep_until_old now [] = a_second_in_milliseconds
sleep_until_old now (oldest ∷ later) =
    if ltb now (oldest + a_second_in_milliseconds)
    then oldest + a_second_in_milliseconds - now
    else 1

-- One turn of the outer loop at a reading of the clock.
unfoldable pub look : ℕ → ℕ → List ℕ → Look
unfolding shift_the_old sleep_until_old
look requests_per_second now started_at =
    let left = shift_the_old now started_at in
    if ltb (length left) requests_per_second
    then taken (left ++ (now ∷ []))
    else must_sleep left (sleep_until_old now left)
