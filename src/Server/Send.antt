-- ===== src/Server/Send.antt =====
-- apps/web/src/app/api/positions/submit/route.ts: what is signed is compared with what was built and
-- sent to the chain, and what came of it is written down. The chain's calls act on a state of the
-- chain that the route only passes on; the decoder of a transaction is a function that fails where the
-- source throws.
use accrue.Base.{ℕ, ltb, ◌==◌, Bool, true, false, Option, none, some, List, [], ◌∷◌, if◌then◌else◌}
use accrue.Base.Outcome.{Outcome, ok, throw}
use accrue.Base.Text.{Text, text, same_text}
use accrue.Core.Freshness.{the_quote_is_stale}
use accrue.Server.Env.{Environment}
use accrue.Server.Record.{Taking, mark_it_open, mark_it_failed, record_the_signatures}
use accrue.Server.Refused.{ChainFailure, why_the_chain_refused}
use accrue.Server.Respond.{
  FailureCode, Response, answer, refuse_with, build_expired, stale_quote, something_went_wrong,
}
use accrue.Server.Tables.{
  PositionRow, Tables, StoredBuild, FailureReason, a_code, the_chain_refused_it,
}

-- The clock when the age of the quote is read and when a row is written.
pub record SendTimes : Type 0 where
  pub quoted_at : ℕ
  pub written_at : ℕ

pub record SubmitAnswer : Type 0 where
  pub signature : Option Text
  pub signatures : List Text

pub record ChainServices (Chain : Type 0) : Type 0 where
  pub environment : Environment
  pub fingerprint_of : Text → Text
  pub is_uuid : Text → Bool
  -- `messageBytesOf`
  pub message_bytes_of : Text → Option Text
  pub takes : Taking
  -- `getBlockHeight().send()`
  pub block_height : Chain → Outcome ChainFailure ℕ × Chain
  -- `sendTransaction(…).send()`
  pub send : Text → Chain → Outcome ChainFailure Text × Chain

pub record World (Chain : Type 0) : Type 0 where
  pub tables : Tables
  pub chain : Chain

abbrev pub head : List Text → Option Text
head [] = none
head (value ∷ values) = some value

-- `messages[index] === given`, of the messages from the index on.
abbrev pub is_next : Text → List Text → Bool
is_next given [] = false
is_next given (message ∷ messages) = same_text given message

abbrev pub rest_of : List Text → List Text
rest_of [] = []
rest_of (message ∷ messages) = messages

-- `why ?? 'the chain refused it'`
unfoldable pub failure_reason_of : Option FailureCode → FailureReason
failure_reason_of none = the_chain_refused_it
failure_reason_of (some code) = a_code code

abbrev pub refusal_of : Option FailureCode → Response SubmitAnswer
refusal_of none = refuse_with something_went_wrong 502
refusal_of (some code) = refuse_with code 409

abbrev pub Submitted : Type 0 → Type 0
Submitted Chain = Response SubmitAnswer × World Chain

module _ {Chain : Type 0} (services : ChainServices Chain) where
  open services use {message_bytes_of, takes, block_height, send}

  -- A read that fails is no answer.
  abbrev past : ℕ → Outcome ChainFailure ℕ × Chain → Bool × Chain
  past last_good_height (ok height, chain) = (ltb last_good_height height, chain)
  past last_good_height (throw failure, chain) = (false, chain)

  unfoldable pub the_blockhash_is_past : Option ℕ → Chain → Bool × Chain
  the_blockhash_is_past none chain = (false, chain)
  the_blockhash_is_past (some last_good_height) chain = elim (last_good_height == 0) [
    | true ↦ (false, chain)
    | false ↦ past last_good_height (block_height chain)
  ]

  -- The status of the refusal of what was signed, against the messages from the same index on.
  unfoldable pub why_not_the_build : List Text → List Text → Option ℕ
  why_not_the_build [] messages = none
  why_not_the_build (signed ∷ others) messages =
      let rest = why_not_the_build others (rest_of messages) in
      elim (message_bytes_of signed) [
        | none ↦ some 400
        | some given ↦ if is_next given messages then rest else some 409
      ]

  abbrev pub after_the_first :
      Text → Outcome ChainFailure (List Text) × Chain → Outcome ChainFailure (List Text) × Chain
  after_the_first signature (ok signatures, chain) = (ok (signature ∷ signatures), chain)
  after_the_first signature (throw failure, chain) = (throw failure, chain)

  abbrev pub and_send :
      (Chain → Outcome ChainFailure (List Text) × Chain)
      → Outcome ChainFailure Text × Chain
      → Outcome ChainFailure (List Text) × Chain
  and_send others (throw failure, chain) = (throw failure, chain)
  and_send others (ok signature, chain) = after_the_first signature (others chain)

  -- The loop of sends, which the first failure ends.
  unfoldable pub send_all : List Text → Chain → Outcome ChainFailure (List Text) × Chain
  send_all [] chain = (ok [], chain)
  send_all (signed ∷ others) chain = and_send (send_all others) (send signed chain)

  -- `markItOpen` or `markItFailed` where the build opens a position.
  abbrev pub opens : StoredBuild → Option Text
  opens build = if same_text build.kind (text "open") then build.position_id else none

  abbrev pub open_it : Text → List Text → ℕ → List PositionRow → Option Text → List PositionRow
  open_it wallet signatures now rows none = rows
  open_it wallet signatures now rows (some id) = mark_it_open takes wallet id signatures now rows

  abbrev pub fail_it : Text → FailureReason → ℕ → List PositionRow → Option Text → List PositionRow
  fail_it wallet reason now rows none = rows
  fail_it wallet reason now rows (some id) = mark_it_failed takes wallet id reason now rows

  unfoldable pub it_landed :
      Text → StoredBuild → List Text → SendTimes → World Chain → Submitted Chain
  unfolding record_the_signatures mark_it_open
  it_landed wallet build signatures times w =
      let builds =
        record_the_signatures takes build.id signatures times.written_at w.tables.builds in
      let positions = open_it wallet signatures times.written_at w.tables.positions (opens build) in
      (
        answer (record { signature = head signatures; signatures = signatures }),
        record w { tables = record w.tables { builds = builds; positions = positions } },
      )

  unfoldable pub it_did_not_land :
      Text → StoredBuild → ChainFailure → SendTimes → World Chain → Submitted Chain
  unfolding mark_it_failed failure_reason_of why_the_chain_refused
  it_did_not_land wallet build failure times w =
      let why = why_the_chain_refused failure in
      let positions =
        fail_it wallet (failure_reason_of why) times.written_at w.tables.positions (opens build) in
      (refusal_of why, record w { tables = record w.tables { positions = positions } })

  unfoldable pub after_sending :
      Text
      → StoredBuild
      → SendTimes
      → Tables
      → Outcome ChainFailure (List Text) × Chain
      → Submitted Chain
  unfolding it_landed it_did_not_land
  after_sending wallet build times tables (ok signatures, chain) =
      it_landed wallet build signatures times (record { tables = tables; chain = chain })
  after_sending wallet build times tables (throw failure, chain) =
      it_did_not_land wallet build failure times (record { tables = tables; chain = chain })

  unfoldable pub send_the_build :
      Text → StoredBuild → List Text → SendTimes → Tables → Bool × Chain → Submitted Chain
  unfolding send_all after_sending
  send_the_build wallet build signed times tables (true, chain) =
      (refuse_with build_expired 409, record { tables = tables; chain = chain })
  send_the_build wallet build signed times tables (false, chain) =
      if the_quote_is_stale build.created_at times.quoted_at
      then (refuse_with stale_quote 409, record { tables = tables; chain = chain })
      else after_sending wallet build times tables (send_all signed chain)
