-- ===== src/Server/Submit/Partial.antt =====
-- What is written down of a build of several transactions of which only the first ones land.
use accrue.Base.{
  ℕ, ◌≡◌, ◌≢◌, ◌⊎◌, inl, inr, refl, true, false, Bool, Bool-cases, some, List, [], ◌∷◌, ◌++◌, map,
  if◌then◌else◌,
}
use accrue.Base.Outcome.{ok, throw}
use accrue.Base.Text.{Text, text, same_text, same_text_iff}
use accrue.Core.Freshness.{the_quote_is_stale}
use accrue.Server.Record.{is_of, mark_it_failed}
use accrue.Server.Refused.{ChainFailure, why_the_chain_refused}
use accrue.Server.Send.{
  ChainServices, World, SendTimes, Submitted, failure_reason_of, refusal_of, send_all,
  after_sending, it_did_not_land, send_the_build,
}
use accrue.Server.Tables.{Tables, PositionRow, FailureReason, StoredBuild, failed}

-- The rows before and after: those of the wallet's position have failed, and the others are as they
-- were.
pub data HaveFailed (wallet id : Text) (reason : FailureReason) (now : ℕ)
    : List PositionRow → List PositionRow → Type 0 where
  nothing : HaveFailed wallet id reason now [] []
  marked :
      {row : PositionRow} {rows rows' : List PositionRow}
      → row.id ≡ id
      → row.wallet_address ≡ wallet
      → HaveFailed wallet id reason now rows rows'
      → HaveFailed wallet id reason now
          (row ∷ rows)
          (record row { status = failed; failure_reason = some reason; updated_at = now } ∷ rows')
  kept :
      {row : PositionRow} {rows rows' : List PositionRow}
      → (row.id ≢ id) ⊎ (row.wallet_address ≢ wallet)
      → HaveFailed wallet id reason now rows rows'
      → HaveFailed wallet id reason now (row ∷ rows) (row ∷ rows')

differs : (s t : Text) → same_text s t ≡ false → s ≢ t
differs s t h same = cc (h, (same_text_iff s t).1 same)

module _ (wallet id : Text) (reason : FailureReason) (now : ℕ) where
  abbrev as_marked : PositionRow → PositionRow
  as_marked row =
      if is_of wallet id row
      then record row { status = failed; failure_reason = some reason; updated_at = now }
      else row

  as_marked-HaveFailed :
      (rows : List PositionRow) → HaveFailed wallet id reason now rows (map as_marked rows)
  unfolding is_of
  as_marked-HaveFailed [] = nothing
  as_marked-HaveFailed (row ∷ rows) =
      let rest = as_marked-HaveFailed rows in
      elim (Bool-cases (same_text row.id id)) [
        | inr other ↦ rw other (kept (inl (differs row.id id other)) rest)
        | inl this_one ↦ elim (Bool-cases (same_text row.wallet_address wallet)) [
          | inr others ↦
              rw (this_one, others) (kept (inr (differs row.wallet_address wallet others)) rest)
          | inl theirs ↦
              rw (this_one, theirs)
                (marked ((same_text_iff row.id id).0 this_one)
                  ((same_text_iff row.wallet_address wallet).0 theirs) rest)
        ]
      ]

  mark_it_failed-HaveFailed :
      (takes : ℕ → Bool) (rows : List PositionRow)
      → takes now ≡ true
      → HaveFailed wallet id reason now rows (mark_it_failed takes wallet id reason now rows)
  unfolding mark_it_failed
  mark_it_failed-HaveFailed takes rows taken = rw taken (as_marked-HaveFailed rows)

module _ {Chain : Type 0} (services : ChainServices Chain) where
  open services use {send, takes}

  -- The chain took every one of the transactions, in their order.
  pub data Lands : List Text → Chain → Chain → Type 0 where
    none_left : {chain : Chain} → Lands [] chain chain
    one_more :
        {first signature : Text} {others : List Text} {before between after : Chain}
        → send first before ≡ (ok signature, between)
        → Lands others between after
        → Lands (first ∷ others) before after

  send_all-partly :
      (failing : Text) (unsent : List Text) (failure : ChainFailure) (after : Chain)
      {landed : List Text} {before between : Chain}
      → Lands landed before between
      → send failing between ≡ (throw failure, after)
      → send_all services (landed ++ failing ∷ unsent) before ≡ (throw failure, after)
  unfolding send_all
  send_all-partly failing unsent failure after none_left fails = rw fails refl
  send_all-partly failing unsent failure after (one_more lands others) fails =
      rw (lands, send_all-partly failing unsent failure after others fails) refl

  -- The answer and the tables after a send that failed.
  pub record IsMarkedFailed (wallet id : Text) (failure : ChainFailure) (now : ℕ) (tables : Tables)
      (after : Chain) (submitted : Submitted Chain) : Type 0 where
    pub refused : submitted.0 ≡ refusal_of (why_the_chain_refused failure)
    pub on_the_chain : submitted.1.chain ≡ after
    pub no_signatures : submitted.1.tables.builds ≡ tables.builds
    pub has_failed :
        HaveFailed wallet id
          (failure_reason_of (why_the_chain_refused failure))
          now
          tables.positions
          submitted.1.tables.positions

  it_did_not_land-IsMarkedFailed :
      (wallet id : Text) (build : StoredBuild) (failure : ChainFailure) (times : SendTimes)
      (w : World Chain)
      → build.kind ≡ text "open"
      → build.position_id ≡ some id
      → takes times.written_at ≡ true
      → IsMarkedFailed wallet id failure times.written_at w.tables w.chain
          (it_did_not_land services wallet build failure times w)
  unfolding it_did_not_land
  it_did_not_land-IsMarkedFailed wallet id build failure times w opens of_it taken =
      let opening = (same_text_iff build.kind (text "open")).1 opens in
      record {
        refused = refl;
        on_the_chain = refl;
        no_signatures = refl;
        has_failed =
            rw (opening, of_it)
              (mark_it_failed-HaveFailed wallet id
                (failure_reason_of (why_the_chain_refused failure)) times.written_at takes
                w.tables.positions taken);
      }

  -- When the chain has taken the first transactions of a build that opens a position and refuses the
  -- next one, every row of that position of the wallet is marked failed with the reason of the refusal,
  -- provided that the database takes the write. The transactions that landed stay on the chain, no
  -- signature is written down of the build, what was not sent stays unsent, and the answer is the
  -- refusal.
  pub a_partial_landing-IsMarkedFailed :
      (wallet first failing id : Text) (others unsent : List Text) (build : StoredBuild)
      (failure : ChainFailure) (times : SendTimes) (tables : Tables) (before between after : Chain)
      → the_quote_is_stale build.created_at times.quoted_at ≡ false
      → build.kind ≡ text "open"
      → build.position_id ≡ some id
      → takes times.written_at ≡ true
      → Lands (first ∷ others) before between
      → send failing between ≡ (throw failure, after)
      → IsMarkedFailed wallet id failure times.written_at tables after (
          send_the_build services wallet build
            ((first ∷ others) ++ failing ∷ unsent)
            times
            tables
            (false, before))
  unfolding send_the_build after_sending
  a_partial_landing-IsMarkedFailed wallet first failing id others unsent build failure times tables
        before between after fresh opens of_it taken lands fails =
      rw (send_the_build, fresh, send_all-partly failing unsent failure after lands fails)
        (it_did_not_land-IsMarkedFailed wallet id build failure times
          (record { tables = tables; chain = after }) opens of_it taken)
