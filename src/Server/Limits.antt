-- ===== src/Server/Limits.antt =====
-- apps/web/src/server/limitRules.ts and rateLimit.ts: how many requests a caller has in a minute.
-- The table of buckets is the list of its rows; the clock's readings are arguments.
pub mod Allowance
mod Examples
use accrue.Base.{
  ℕ, ◌+◌, ◌-◌, ◌*◌, ◌/◌, leb, ◌==◌, Bool, ◌&&◌, ◌||◌, max, Option, none, some, List, [], ◌∷◌, ◌++◌,
  reverse, if◌then◌else◌,
}
use accrue.Base.Division.{ceil_div}
use accrue.Base.Int.{ℤ, pos, negsuc, sub_ℕ}
use accrue.Base.Text.{Text, text, same_text, decimal}
use accrue.Server.Env.{Environment, number}

abbrev pub a_minute_in_milliseconds : ℕ
a_minute_in_milliseconds = 60_000

pub data LimitName : Type 0 where
  nonce verify build submit read faucet market_move : LimitName

pub record LimitVariable : Type 0 where
  pub variable : Text
  pub fallback : ℕ

unfoldable pub limit_variables : LimitName → LimitVariable
limit_variables nonce = record { variable = text "RATE_LIMIT_NONCE_PER_IP"; fallback = 10 }
limit_variables verify = record { variable = text "RATE_LIMIT_VERIFY_PER_IP"; fallback = 10 }
limit_variables build = record { variable = text "RATE_LIMIT_BUILD_PER_WALLET"; fallback = 20 }
limit_variables submit = record { variable = text "RATE_LIMIT_SUBMIT_PER_WALLET"; fallback = 6 }
limit_variables read = record { variable = text "RATE_LIMIT_READ_PER_WALLET"; fallback = 60 }
limit_variables faucet = record { variable = text "RATE_LIMIT_FAUCET_PER_WALLET"; fallback = 2 }
limit_variables market_move = record {
  variable = text "RATE_LIMIT_MARKET_MOVE_PER_WALLET";
  fallback = 60;
}

unfoldable pub the_window_start : ℕ → ℕ
the_window_start now = now / a_minute_in_milliseconds * a_minute_in_milliseconds

unfoldable pub bucket_key : Text → Text → ℕ → Text
unfolding decimal
bucket_key route key window_start =
    route ++ (text ":" ++ (key ++ (text ":" ++ decimal window_start)))

-- `Math.ceil(left / 1_000)`, which is not above zero where nothing is left.
unfoldable pub ceil_seconds : ℤ → ℕ
ceil_seconds (pos left) = ceil_div left 1_000
ceil_seconds (negsuc over) = 0

unfoldable pub retry_after_seconds : ℕ → ℕ → ℕ
unfolding ceil_seconds
retry_after_seconds window_start now =
    max (ceil_seconds (sub_ℕ (window_start + a_minute_in_milliseconds) now)) 1

unfoldable pub is_within_the_allowance : ℕ → ℕ → Bool
is_within_the_allowance used allowance = leb used allowance

-- `forwarded.split(',')[0]`
unfoldable pub before_the_comma : Text → Text
before_the_comma [] = []
before_the_comma (c ∷ cs) = let rest = before_the_comma cs in if c == b',' then [] else c ∷ rest

-- The white space and the line ends that `trim` takes off.
unfoldable pub is_white_space : ℕ → Bool
is_white_space c =
    (leb 9 c && leb c 13)
    || c == 32
    || c == 160
    || c == 5_760
    || (leb 8_192 c && leb c 8_202)
    || c == 8_232
    || c == 8_233
    || c == 8_239
    || c == 8_287
    || c == 12_288
    || c == 65_279

unfoldable pub trim_start : Text → Text
unfolding is_white_space
trim_start [] = []
trim_start (c ∷ cs) = let rest = trim_start cs in if is_white_space c then rest else c ∷ cs

unfoldable pub trim : Text → Text
unfolding trim_start
trim value = reverse (trim_start (reverse (trim_start value)))

unfoldable pub caller_from_forwarded_for : Option Text → Text
unfolding before_the_comma trim
caller_from_forwarded_for none = trim (text "unknown")
caller_from_forwarded_for (some forwarded) = trim (before_the_comma forwarded)

-- A row of `rate_limit_buckets`, whose key is unique.
pub record Bucket : Type 0 where
  pub key : Text
  pub window_start : ℕ
  pub count : ℕ

pub record LimitVerdict : Type 0 where
  pub allowed : Bool
  pub retry_after_seconds : ℕ

-- `insert … on conflict do update set count = count + 1`, with the count that it returns.
unfoldable pub add_one : Text → ℕ → List Bucket → ℕ × List Bucket
unfolding same_text
add_one key window_start [] = (1, record { key = key; window_start = window_start; count = 1 } ∷ [])
add_one key window_start (row ∷ rows) =
    let (used, rows') = add_one key window_start rows in
    if same_text row.key key
    then (row.count + 1, record row { count = row.count + 1 } ∷ rows)
    else (used, row ∷ rows')

-- `update … set count = greatest(count - 1, 0) where key = …`
unfoldable pub take_one : Text → List Bucket → List Bucket
unfolding same_text
take_one key [] = []
take_one key (row ∷ rows) =
    let rows' = take_one key rows in
    if same_text row.key key then record row { count = row.count - 1 } ∷ rows' else row ∷ rows'

module _ (environment : Environment) where
  unfoldable pub allowance : LimitName → ℕ
  unfolding limit_variables number
  allowance limit =
      number environment (limit_variables limit).variable (limit_variables limit).fallback

  unfoldable pub within_the_limit :
      LimitName → Text → Text → ℕ → List Bucket → LimitVerdict × List Bucket
  unfolding the_window_start bucket_key add_one is_within_the_allowance retry_after_seconds
      allowance
  within_the_limit limit route key now buckets =
      let window_start = the_window_start now in
      let (used, buckets') = add_one (bucket_key route key window_start) window_start buckets in
      (
        record {
          allowed = is_within_the_allowance used (allowance limit);
          retry_after_seconds = retry_after_seconds window_start now;
        },
        buckets',
      )

unfoldable pub give_the_allowance_back : Text → Text → ℕ → List Bucket → List Bucket
unfolding the_window_start bucket_key take_one
give_the_allowance_back route key now buckets =
    take_one (bucket_key route key (the_window_start now)) buckets
