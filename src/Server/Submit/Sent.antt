-- ===== src/Server/Submit/Sent.antt =====
-- What the route sends to the chain: only the messages of a build of the wallet of the session.
use accrue.Base.{
  ℕ, ◌+◌, ◌<◌, ◌==◌, ==_iff, ◌≡◌, refl, arith, ◌⊎◌, inl, inr, Bool, true, false, Bool-cases,
  Option-cases, Option, none, some, List, [], ◌∷◌, map, length,
}
use accrue.Base.Outcome.{Outcome, ok, throw}
use accrue.Base.Text.{Text, text, same_text_iff}
use accrue.Core.Freshness.{the_quote_is_stale}
use accrue.Server.Limits.{Bucket, LimitVerdict, submit, within_the_limit}
use accrue.Server.Record.{build_for}
use accrue.Server.Refused.{ChainFailure}
use accrue.Server.Respond.{Response, read_body}
use accrue.Server.Send.{
  SubmitAnswer, ChainServices, World, SendTimes, after_sending, it_landed, it_did_not_land,
  why_not_the_build, the_blockhash_is_past, send_the_build, send_all,
}
use accrue.Server.Session.{wallet_of_the_session}
use accrue.Server.Submit.{
  SubmitBody, SubmitRequest, submit_body, submit_signed, sent_by_the_wallet, submit_the_build,
  take_the_submission, within_the_submit_limit, submit_as, post_submit,
}
use accrue.Server.Tables.{Tables, StoredBuild}

-- A quote that is not stale is at most 60 whole seconds old.
fresh-lt : (created now : ℕ) → the_quote_is_stale created now ≡ false → now < created + 61_000
unfolding the_quote_is_stale
fresh-lt created now h = ground arith

-- The build that is found is the one that was asked for, of the wallet.
build_for-some :
    (wallet id : Text) (builds : List StoredBuild) (build : StoredBuild)
    → build_for wallet id builds ≡ some build
    → (build.id ≡ id) × (build.wallet_address ≡ wallet)
unfolding build_for
build_for-some wallet id [] build h = cc
build_for-some wallet id (first ∷ others) build h = ground (
  arith,
  same_text_iff first.id id,
  same_text_iff first.wallet_address wallet,
  build_for-some wallet id others build,
)

module _ {Chain : Type 0} (services : ChainServices Chain) where
  open services use {fingerprint_of, message_bytes_of, environment}

  -- The chain is as it was, but for a height that was read.
  unfoldable pub IsOnlyRead : Chain → Chain → Type 0
  IsOnlyRead before after =
      (slot : Option ℕ) × (after ≡ (the_blockhash_is_past services slot before).1)

  -- The messages are those of the build, its blockhash is not known to be past, its quote is fresh,
  -- which is less than 61 seconds old, and the transactions went to the chain in their order, up to
  -- the first that failed.
  unfoldable pub IsSentAsBuilt : StoredBuild → List Text → SendTimes → Chain → Chain → Type 0
  IsSentAsBuilt build signed times before after =
      (map message_bytes_of signed ≡ map some build.messages)
      × ((the_blockhash_is_past services build.blockhash_expires_at_slot before).0 ≡ false)
      × (the_quote_is_stale build.created_at times.quoted_at ≡ false)
      × (times.quoted_at < build.created_at + 61_000)
      × (after
          ≡ (send_all services signed
              (the_blockhash_is_past services build.blockhash_expires_at_slot before).1).1)

  untouched : (chain : Chain) → IsOnlyRead chain chain
  unfolding IsOnlyRead the_blockhash_is_past
  untouched chain = (none, refl)

  -- What passes the comparison is the build, message by message.
  why_not_the_build-none :
      (signed messages : List Text)
      → length signed ≡ length messages
      → why_not_the_build services signed messages ≡ none
      → map message_bytes_of signed ≡ map some messages
  unfolding why_not_the_build
  why_not_the_build-none [] [] same h = refl
  why_not_the_build-none [] (message ∷ messages) same h = ground (arith, same)
  why_not_the_build-none (one ∷ signed) [] same h = ground (arith, same)
  why_not_the_build-none (one ∷ signed) (message ∷ messages) same h =
      elim (Option-cases (message_bytes_of one)) [
        | inl unread ↦ ground (arith, h, unread)
        | inr (given, is_read) ↦ ground (
          arith,
          h,
          is_read,
          same,
          same_text_iff given message,
          why_not_the_build-none signed messages (omega (arith, same)),
        )
      ]

  after_sending-chain :
      (wallet : Text) (build : StoredBuild) (times : SendTimes) (tables : Tables)
      (result : Outcome ChainFailure (List Text) × Chain)
      → (after_sending services wallet build times tables result).1.chain ≡ result.1
  unfolding after_sending it_landed it_did_not_land
  after_sending-chain wallet build times tables (ok signatures, chain) = refl
  after_sending-chain wallet build times tables (throw failure, chain) = refl

  send_the_build-chain :
      (wallet : Text) (build : StoredBuild) (signed : List Text) (times : SendTimes)
      (tables : Tables) (result : Bool × Chain)
      → ((send_the_build services wallet build signed times tables result).1.chain ≡ result.1)
        ⊎ ((result.0 ≡ false)
            × (the_quote_is_stale build.created_at times.quoted_at ≡ false)
            × ((send_the_build services wallet build signed times tables result).1.chain
                ≡ (send_all services signed result.1).1))
  unfolding send_the_build
  send_the_build-chain wallet build signed times tables (true, chain) = inl refl
  send_the_build-chain wallet build signed times tables (false, chain) =
      elim (Bool-cases (the_quote_is_stale build.created_at times.quoted_at)) [
        | inl stale ↦ inl (rw stale)
        | inr fresh ↦ inr (
          refl,
          fresh,
          rw fresh (after_sending-chain wallet build times tables (send_all services signed chain)),
        )
      ]

  submit_signed-IsSentAsBuilt :
      (wallet : Text) (build : StoredBuild) (signed : List Text) (request : SubmitRequest)
      (w : World Chain)
      → IsOnlyRead w.chain (submit_signed services wallet build signed request w).1.chain
        ⊎ IsSentAsBuilt build signed request.times w.chain
            (submit_signed services wallet build signed request w).1.chain
  unfolding submit_signed IsSentAsBuilt IsOnlyRead
  submit_signed-IsSentAsBuilt wallet build signed request w =
      elim (Bool-cases (length signed == length build.messages)) [
        | inr other ↦ inl (none, rw (submit_signed, other))
        | inl same ↦ elim (Option-cases (why_not_the_build services signed build.messages)) [
          | inr (status, refused) ↦ inl (none, rw (submit_signed, same, refused))
          | inl as_built ↦
              elim (send_the_build-chain wallet build signed request.times w.tables
                (the_blockhash_is_past services build.blockhash_expires_at_slot w.chain)) [
                  | inl only_read ↦ inl (
                    build.blockhash_expires_at_slot,
                    rw (submit_signed, same, as_built) only_read,
                  )
                  | inr (not_past, fresh, sent) ↦ inr (
                    why_not_the_build-none signed build.messages
                        ((==_iff (length signed) (length build.messages)).0 same) as_built,
                    not_past,
                    fresh,
                    fresh-lt build.created_at request.times.quoted_at fresh,
                    rw (submit_signed, same, as_built) sent,
                  )
                ]
        ]
      ]

  -- What the chain has after the route, of a build of a wallet.
  unfoldable pub IsSentFor : Text → SubmitRequest → Tables → Chain → Chain → Type 0
  unfolding IsSentAsBuilt
  IsSentFor wallet request tables before after =
      (body : SubmitBody) × (build : StoredBuild) × (signed : List Text) × (build_for wallet
          body.build_id tables.builds
        ≡ some build)
      × (build.id ≡ body.build_id)
      × (build.wallet_address ≡ wallet)
      × IsSentAsBuilt build signed request.times before after

  sent_by_the_wallet-IsOnlyRead :
      (wallet : Text) (build : StoredBuild) (signatures : List Text) (request : SubmitRequest)
      (w : World Chain)
      → IsOnlyRead w.chain (sent_by_the_wallet services wallet build signatures request w).1.chain
  unfolding sent_by_the_wallet it_landed IsOnlyRead the_blockhash_is_past
  sent_by_the_wallet-IsOnlyRead wallet build signatures request w =
      elim (Bool-cases (length signatures == length build.messages)) [
        | inl same ↦ (none, rw (sent_by_the_wallet, same))
        | inr other ↦ (none, rw (sent_by_the_wallet, other))
      ]

  submit_the_build-IsSentAsBuilt :
      (wallet : Text) (body : SubmitBody) (request : SubmitRequest) (w : World Chain)
      (found : Option StoredBuild)
      → IsOnlyRead w.chain (submit_the_build services wallet body request w found).1.chain
        ⊎ ((build : StoredBuild) × (signed : List Text) × (found ≡ some build)
            × IsSentAsBuilt build signed request.times w.chain
                (submit_the_build services wallet body request w found).1.chain)
  unfolding submit_the_build
  submit_the_build-IsSentAsBuilt wallet body request w none = inl (untouched w.chain)
  submit_the_build-IsSentAsBuilt wallet body request w (some build) =
      elim (Option-cases body.signatures) [
        | inr (signatures, by_the_wallet) ↦ inl (
            rw (submit_the_build, by_the_wallet)
              (sent_by_the_wallet-IsOnlyRead wallet build signatures request w))
        | inl by_us ↦ elim (Option-cases body.signed_transactions) [
          | inl nothing ↦ inl (rw (submit_the_build, by_us, nothing) (untouched w.chain))
          | inr (signed, given) ↦ elim (submit_signed-IsSentAsBuilt wallet build signed request w) [
            | inl only_read ↦ inl (rw (submit_the_build, by_us, given) only_read)
            | inr sent ↦ inr (build, signed, refl, rw (submit_the_build, by_us, given) sent)
          ]
        ]
      ]

  take_the_submission-IsSentFor :
      (wallet : Text) (request : SubmitRequest) (w : World Chain)
      (parsed : Outcome (Response SubmitAnswer) SubmitBody)
      → IsOnlyRead w.chain (take_the_submission services wallet request w parsed).1.chain
        ⊎ IsSentFor wallet request w.tables w.chain
            (take_the_submission services wallet request w parsed).1.chain
  unfolding take_the_submission IsSentFor
  take_the_submission-IsSentFor wallet request w (throw response) = inl (untouched w.chain)
  take_the_submission-IsSentFor wallet request w (ok body) =
      elim (submit_the_build-IsSentAsBuilt wallet body request w
        (build_for wallet body.build_id w.tables.builds)) [
          | inl only_read ↦ inl only_read
          | inr (build, signed, found, sent) ↦
              let (asked_for, of_the_wallet) =
                build_for-some wallet body.build_id w.tables.builds build found in
              inr (body, build, signed, found, asked_for, of_the_wallet, sent)
        ]

  within_the_submit_limit-IsSentFor :
      (wallet : Text) (request : SubmitRequest) (w : World Chain)
      (result : LimitVerdict × List Bucket)
      → IsOnlyRead w.chain (within_the_submit_limit services wallet request w result).1.chain
        ⊎ IsSentFor wallet request w.tables w.chain
            (within_the_submit_limit services wallet request w result).1.chain
  unfolding within_the_submit_limit IsSentFor
  within_the_submit_limit-IsSentFor wallet request w (verdict, buckets) =
      elim (Bool-cases verdict.allowed) [
        | inl allowed ↦
            rw (within_the_submit_limit, allowed)
              (take_the_submission-IsSentFor wallet request
                (record w { tables = record w.tables { buckets = buckets } })
                (read_body (submit_body services) request.body))
        | inr over ↦ inl (rw (within_the_submit_limit, over) (untouched w.chain))
      ]

  -- Whatever is asked of the route, the chain is either left alone but for a read of its height, or
  -- sent the transactions of the build that was asked for, which is one of the wallet of the session:
  -- message by message those that were built, in their order, with a quote that is fresh, so less than
  -- 61 seconds old, and a blockhash that is not known to be past.
  pub post_submit-IsSentFor :
      (request : SubmitRequest) (w : World Chain)
      → IsOnlyRead w.chain (post_submit services request w).1.chain
        ⊎ ((wallet : Text) × (wallet_of_the_session fingerprint_of request.cookie request.asked_at
                w.tables.sessions
              ≡ some wallet)
            × IsSentFor wallet request w.tables w.chain (post_submit services request w).1.chain)
  unfolding post_submit submit_as
  post_submit-IsSentFor request w =
      elim (Option-cases
        (wallet_of_the_session fingerprint_of request.cookie request.asked_at w.tables.sessions)) [
          | inl nobody ↦ inl (rw (submit_as, nobody) (untouched w.chain))
          | inr (wallet, somebody) ↦
              elim (within_the_submit_limit-IsSentFor wallet request w (
                within_the_limit environment submit (text "positions/submit") wallet
                  request.limited_at w.tables.buckets)) [
                    | inl only_read ↦ inl (rw (submit_as, somebody) only_read)
                    | inr sent ↦ inr (wallet, somebody, rw (submit_as, somebody) sent)
                  ]
        ]
