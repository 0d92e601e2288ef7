-- ===== src/Server/Refused.antt =====
-- apps/web/src/server/positions/whyTheChainRefused.ts: which sentence a failure of the chain is.
use accrue.Base.{
  ℕ, ◌+◌, leb, ◌==◌, Bool, false, ◌&&◌, ◌||◌, Option, none, some, List, [], ◌∷◌, ◌++◌,
  if◌then◌else◌,
}
use accrue.Base.Text.{includes, Text, text, join}
use accrue.Keeper.Loop.{Thrown, reasons_of}
use accrue.Keeper.Shorten.{shorten_every_address}
use accrue.Server.Respond.{
  FailureCode, build_expired, stale_oracle, account_missing, simulation_failed,
}

-- What a call of the chain throws: its messages, and its context as JSON where it has one.
pub record ChainFailure : Type 0 where
  pub thrown : Thrown
  pub context : Option Text

unfoldable pub every_reason : ChainFailure → Text
unfolding reasons_of shorten_every_address
every_reason failure = shorten_every_address (
    join (text " <- ") (
      reasons_of 5 failure.thrown
      ++ elim failure.context [ none ↦ [] | some context ↦ context ∷ [] ]))

-- What `toLowerCase` makes of a character, as far as it has Latin letters of ASCII in it; another one
-- stands for itself.
unfoldable pub lower : ℕ → Text
lower c =
    if leb b'A' c && leb c b'Z'
    then (c + 32) ∷ []
    else if c == 0x212A
    then b'k' ∷ []
    else if c == 0x130
    then b'i' ∷ 0x307 ∷ []
    else c ∷ []

unfoldable pub to_lower_case : Text → Text
unfolding lower
to_lower_case [] = []
to_lower_case (c ∷ cs) = lower c ++ to_lower_case cs

abbrev pub what_the_chain_says : List (Text × FailureCode)
what_the_chain_says =
    (text "blockhash not found", build_expired)
    ∷ (text "blockhashnotfound", build_expired)
    ∷ (text "block height exceeded", build_expired)
    ∷ (text "pricetooold", stale_oracle)
    ∷ (text "price too old", stale_oracle)
    ∷ (text "oraclepriceisstale", stale_oracle)
    ∷ (text "priceisstale", stale_oracle)
    ∷ (text "stale", stale_oracle)
    ∷ (text "account not found", account_missing)
    ∷ (text "accountnotfound", account_missing)
    ∷ []

abbrev pub refused_it_outright : List Text
refused_it_outright =
    text "simulation failed"
    ∷ text "custom program error"
    ∷ text "insufficient funds"
    ∷ text "preflight"
    ∷ text "transaction error"
    ∷ []

-- `phrases.some((phrase) => said.includes(phrase))`
unfoldable pub says_one_of : Text → List Text → Bool
unfolding includes
says_one_of said [] = false
says_one_of said (phrase ∷ phrases) = includes said phrase || says_one_of said phrases

-- The first known phrase that is said.
unfoldable pub first_known : Text → List (Text × FailureCode) → Option FailureCode
unfolding includes
first_known said [] = none
first_known said ((phrase, code) ∷ known) =
    let others = first_known said known in if includes said phrase then some code else others

unfoldable pub why_the_chain_refused : ChainFailure → Option FailureCode
unfolding every_reason to_lower_case first_known says_one_of
why_the_chain_refused failure =
    let said = to_lower_case (every_reason failure) in
    elim (first_known said what_the_chain_says) [
      | some code ↦ some code
      | none ↦ if says_one_of said refused_it_outright then some simulation_failed else none
    ]
