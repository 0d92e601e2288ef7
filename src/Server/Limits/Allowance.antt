-- ===== src/Server/Limits/Allowance.antt =====
-- How many requests one bucket lets through, over any history of requests and of allowances that
-- were given back.
use accrue.Base.{ℕ, ◌+◌, ◌-◌, ◌≤◌, ◌≡◌, arith, false, ◌&&◌, min, List, [], ◌∷◌, if◌then◌else◌}
use accrue.Base.Text.{Text, same_text, same_text_iff}
use accrue.Server.Env.{Environment}
use accrue.Server.Limits.{
  LimitName, Bucket, bucket_key, the_window_start, add_one, take_one, allowance, within_the_limit,
  give_the_allowance_back, is_within_the_allowance,
}

-- The count of the row of a key, where there is one.
abbrev pub count_of : Text → List Bucket → ℕ
count_of key [] = 0
count_of key (row ∷ rows) =
    let rest = count_of key rows in if same_text row.key key then row.count else rest

add_one-count_of :
    (key : Text) (window_start : ℕ) (rows : List Bucket)
    → (add_one key window_start rows).0 ≡ count_of key rows + 1
unfolding add_one
add_one-count_of key window_start [] = omega arith
add_one-count_of key window_start (row ∷ rows) =
    ground (arith, add_one-count_of key window_start rows)

count_of-add_one :
    (key other : Text) (window_start : ℕ) (rows : List Bucket)
    → count_of other (add_one key window_start rows).1
      ≡ (if same_text key other then count_of other rows + 1 else count_of other rows)
unfolding add_one
count_of-add_one key other window_start [] = ground arith
count_of-add_one key other window_start (row ∷ rows) = ground (
  arith,
  same_text_iff key other,
  same_text_iff row.key key,
  same_text_iff row.key other,
  count_of-add_one key other window_start rows,
)

count_of-take_one :
    (key other : Text) (rows : List Bucket)
    → count_of other (take_one key rows)
      ≡ (if same_text key other then count_of other rows - 1 else count_of other rows)
unfolding take_one
count_of-take_one key other [] = ground arith
count_of-take_one key other (row ∷ rows) = ground (
  arith,
  same_text_iff key other,
  same_text_iff row.key key,
  same_text_iff row.key other,
  count_of-take_one key other rows,
)

-- What happens to the table: a request of the route by the caller, or its allowance given back.
pub data Event : Type 0 where
  asks gives_back : Text → Text → ℕ → Event

module _ (environment : Environment) (limit : LimitName) (bucket : Text) where
  -- How many requests of the bucket are let through.
  unfoldable pub let_through : List Event → List Bucket → ℕ
  unfolding within_the_limit give_the_allowance_back
  let_through [] rows = 0
  let_through (asks route key now ∷ events) rows =
      let (verdict, rows') = within_the_limit environment limit route key now rows in
      let rest = let_through events rows' in
      if verdict.allowed && same_text (bucket_key route key (the_window_start now)) bucket
      then rest + 1
      else rest
  let_through (gives_back route key now ∷ events) rows =
      let_through events (give_the_allowance_back route key now rows)

  -- How many of its allowances are given back.
  abbrev pub given_back : List Event → ℕ
  given_back [] = 0
  given_back (asks route key now ∷ events) = given_back events
  given_back (gives_back route key now ∷ events) =
      let rest = given_back events in
      if same_text (bucket_key route key (the_window_start now)) bucket then rest + 1 else rest

  let_through-le :
      (events : List Event) (rows : List Bucket)
      → let_through events rows + min (count_of bucket rows) (allowance environment limit)
        ≤ allowance environment limit + given_back events
  unfolding let_through within_the_limit give_the_allowance_back is_within_the_allowance
  let_through-le [] rows = ground arith
  let_through-le (asks route key now ∷ events) rows =
      let window_start = the_window_start now in
      let asked = bucket_key route key window_start in
      ground (
        arith,
        same_text_iff asked bucket,
        add_one-count_of asked window_start rows,
        count_of-add_one asked bucket window_start rows,
        let_through-le events (add_one asked window_start rows).1,
      )
  let_through-le (gives_back route key now ∷ events) rows =
      let returned = bucket_key route key (the_window_start now) in
      ground (
        arith,
        count_of-take_one returned bucket rows,
        let_through-le events (take_one returned rows),
      )

  -- Over any history of an empty table, the requests of a caller to a route that one minute lets
  -- through are at most the allowance of the limit and the allowances that were given back.
  pub let_through-le-allowance :
      (events : List Event)
      → let_through events [] ≤ allowance environment limit + given_back events
  let_through-le-allowance events = omega (arith, let_through-le events [])

  -- How many requests of the bucket there are.
  abbrev pub asked_for : List Event → ℕ
  asked_for [] = 0
  asked_for (asks route key now ∷ events) =
      let rest = asked_for events in
      if same_text (bucket_key route key (the_window_start now)) bucket then rest + 1 else rest
  asked_for (gives_back route key now ∷ events) = asked_for events

  let_through-exactly :
      (events : List Event) (rows : List Bucket)
      → given_back events ≡ 0
      → let_through events rows + min (count_of bucket rows) (allowance environment limit)
        ≡ min (count_of bucket rows + asked_for events) (allowance environment limit)
  unfolding let_through within_the_limit give_the_allowance_back is_within_the_allowance
  let_through-exactly [] rows h = ground arith
  let_through-exactly (asks route key now ∷ events) rows h =
      let window_start = the_window_start now in
      let asked = bucket_key route key window_start in
      ground (
        arith,
        same_text_iff asked bucket,
        add_one-count_of asked window_start rows,
        count_of-add_one asked bucket window_start rows,
        let_through-exactly events (add_one asked window_start rows).1 h,
      )
  let_through-exactly (gives_back route key now ∷ events) rows h =
      let returned = bucket_key route key (the_window_start now) in
      let others : given_back events ≡ 0 = ground arith in
      let elsewhere : same_text returned bucket ≡ false = ground arith in
      ground (
        arith,
        count_of-take_one returned bucket rows,
        let_through-exactly events (take_one returned rows) others,
      )

  -- Over a history of an empty table in which none of its allowances is given back, a bucket lets
  -- through exactly its requests up to the allowance of the limit.
  pub let_through-eq-min :
      (events : List Event)
      → given_back events ≡ 0
      → let_through events [] ≡ min (asked_for events) (allowance environment limit)
  let_through-eq-min events h = omega (arith, let_through-exactly events [] h)
