-- ===== src/Server/Submit.antt =====
-- apps/web/src/app/api/positions/submit/route.ts: the guards of the route that takes a signed build, or
-- what the wallet itself sent.
pub mod Sent
pub mod Partial
mod Examples
use accrue.Base.{
  ℕ, leb, ◌==◌, Bool, true, not, ◌&&◌, Option, none, some, List, [], ◌∷◌, length, if◌then◌else◌,
}
use accrue.Base.Outcome.{Outcome, ok, throw}
use accrue.Base.Text.{Text, text}
use accrue.Server.Limits.{submit, Bucket, LimitVerdict, within_the_limit}
use accrue.Server.Record.{build_for}
use accrue.Server.Respond.{
  Response, refuse_with, too_many, sign_in_first, not_yours, not_the_transaction_we_built,
  read_body,
}
use accrue.Server.Session.{wallet_of_the_session}
use accrue.Server.Tables.{StoredBuild}
use accrue.Server.Send.{
  SubmitAnswer, ChainServices, World, Submitted, SendTimes, it_landed, why_not_the_build,
  the_blockhash_is_past, send_the_build,
}

-- The fields of a body whose types are right.
pub record SubmitBody : Type 0 where
  pub build_id : Text
  pub signed_transactions : Option (List Text)
  pub signatures : Option (List Text)

pub record SubmitRequest : Type 0 where
  pub cookie : Option Text
  pub body : Option SubmitBody
  -- The clock when the session is looked up and when the limit is taken.
  pub asked_at : ℕ
  pub limited_at : ℕ
  pub times : SendTimes

-- `array(z.string().min(…).max(…)).min(1).max(3)`, of a field that may be absent.
unfoldable pub of_lengths : ℕ → ℕ → List Text → Bool
of_lengths least most [] = true
of_lengths least most (value ∷ values) =
    leb least (length value) && leb (length value) most && of_lengths least most values

unfoldable pub up_to_three : ℕ → ℕ → Option (List Text) → Bool
unfolding of_lengths
up_to_three least most none = true
up_to_three least most (some values) =
    leb 1 (length values) && leb (length values) 3 && of_lengths least most values

module _ {Chain : Type 0} (services : ChainServices Chain) where
  open services use {environment, fingerprint_of, is_uuid}

  unfoldable pub submit_body : SubmitBody → Option SubmitBody
  unfolding up_to_three
  submit_body body =
      if is_uuid body.build_id
        && up_to_three 1 8_000 body.signed_transactions
        && up_to_three 32 120 body.signatures
      then some body
      else none

  unfoldable pub submit_signed :
      Text → StoredBuild → List Text → SubmitRequest → World Chain → Submitted Chain
  unfolding why_not_the_build the_blockhash_is_past send_the_build
  submit_signed wallet build signed request w =
      if not (length signed == length build.messages)
      then (refuse_with not_the_transaction_we_built 409, w)
      else elim (why_not_the_build services signed build.messages) [
        | some status ↦ (refuse_with not_the_transaction_we_built status, w)
        | none ↦
            send_the_build services wallet build signed request.times w.tables
              (the_blockhash_is_past services build.blockhash_expires_at_slot w.chain)
      ]

  unfoldable pub sent_by_the_wallet :
      Text → StoredBuild → List Text → SubmitRequest → World Chain → Submitted Chain
  unfolding it_landed
  sent_by_the_wallet wallet build signatures request w =
      if not (length signatures == length build.messages)
      then (refuse_with not_the_transaction_we_built 409, w)
      else it_landed services wallet build signatures request.times w

  unfoldable pub submit_the_build :
      Text → SubmitBody → SubmitRequest → World Chain → Option StoredBuild → Submitted Chain
  unfolding submit_signed sent_by_the_wallet
  submit_the_build wallet body request w none = (refuse_with not_yours 404, w)
  submit_the_build wallet body request w (some build) = elim body.signatures [
    | some signatures ↦ sent_by_the_wallet wallet build signatures request w
    | none ↦ elim body.signed_transactions [
      | none ↦ (refuse_with not_the_transaction_we_built 400, w)
      | some signed ↦ submit_signed wallet build signed request w
    ]
  ]

  unfoldable pub take_the_submission :
      Text
      → SubmitRequest
      → World Chain
      → Outcome (Response SubmitAnswer) SubmitBody
      → Submitted Chain
  unfolding build_for submit_the_build
  take_the_submission wallet request w (throw response) = (response, w)
  take_the_submission wallet request w (ok body) =
      submit_the_build wallet body request w (build_for wallet body.build_id w.tables.builds)

  unfoldable pub within_the_submit_limit :
      Text → SubmitRequest → World Chain → LimitVerdict × List Bucket → Submitted Chain
  unfolding take_the_submission read_body submit_body
  within_the_submit_limit wallet request w (verdict, buckets) =
      let limited = record w { tables = record w.tables { buckets = buckets } } in
      if not verdict.allowed
      then (too_many verdict.retry_after_seconds, limited)
      else take_the_submission wallet request limited (read_body submit_body request.body)

  unfoldable pub submit_as : SubmitRequest → World Chain → Option Text → Submitted Chain
  unfolding within_the_submit_limit within_the_limit
  submit_as request w none = (refuse_with sign_in_first 401, w)
  submit_as request w (some wallet) = within_the_submit_limit wallet request w (
      within_the_limit environment submit (text "positions/submit") wallet request.limited_at
        w.tables.buckets)

  -- `POST`
  unfoldable pub post_submit : SubmitRequest → World Chain → Submitted Chain
  unfolding submit_as wallet_of_the_session
  post_submit request w =
      submit_as request w
        (wallet_of_the_session fingerprint_of request.cookie request.asked_at w.tables.sessions)
