-- ===== src/Server/Submit/Examples.antt =====
-- A chain that takes every transaction but the one named `bad` and lists what it took; a build of two
-- transactions on it; and the witnesses of the theorems on the route.
use accrue.Base.{◌≡◌, refl, ◌⊎◌, true, false, none, some, List, [], ◌∷◌, if◌then◌else◌}
use accrue.Base.Outcome.{ok, throw}
use accrue.Base.Text.{Text, text, same_text}
use accrue.Core.Freshness.{the_quote_is_stale}
use accrue.Keeper.Loop.{an_error, no_error}
use accrue.Server.Refused.{ChainFailure}
use accrue.Server.Send.{ChainServices, World, SendTimes, send_the_build}
use accrue.Server.Session.{wallet_of_the_session}
use accrue.Server.Submit.{SubmitRequest, post_submit}
use accrue.Server.Submit.Partial.{
  one_more, none_left, IsMarkedFailed, a_partial_landing-IsMarkedFailed,
}
use accrue.Server.Submit.Sent.{IsOnlyRead, IsSentFor, post_submit-IsSentFor}
use accrue.Server.Tables.{Tables, StoredBuild, building, PositionRow}

abbrev refusal : ChainFailure
refusal = record { thrown = an_error (text "Simulation failed") no_error; context = none }

abbrev services : ChainServices (List Text)
services = record {
  environment = record { variable = λ name. none; finite_number = λ name. none };
  fingerprint_of = λ value. value;
  is_uuid = λ value. true;
  message_bytes_of = λ signed. some signed;
  takes = λ now. true;
  block_height = λ chain. (ok 100, chain);
  send = λ signed chain.
      if same_text signed (text "bad") then (throw refusal, chain) else (ok signed, signed ∷ chain);
}

abbrev build_of : List Text → StoredBuild
build_of messages = record {
  id = text "build";
  wallet_address = text "wallet";
  position_id = some (text "position");
  kind = text "open";
  messages = messages;
  signatures = none;
  blockhash_expires_at_slot = some 150;
  created_at = 1_000;
  submitted_at = none;
}

abbrev row : PositionRow
row = record {
  id = text "position";
  wallet_address = text "wallet";
  status = building;
  open_signatures = none;
  failure_reason = none;
  opened_at = none;
  updated_at = 1_000;
}

abbrev tables_with : List Text → Tables
tables_with messages = record {
  buckets = [];
  nonces = [];
  sessions =
      record {
        id = text "secret";
        wallet_address = text "wallet";
        expires_at = 900_000;
        revoked_at = none;
        user_agent_hash = none;
      }
      ∷ [];
  wallets = [];
  positions = row ∷ [];
  builds = build_of messages ∷ [];
  audit_log = [];
}

abbrev times : SendTimes
times = record { quoted_at = 2_000; written_at = 2_001 }

abbrev request_for : List Text → SubmitRequest
request_for signed = record {
  cookie = some (text "secret");
  body =
      some
        (record { build_id = text "build"; signed_transactions = some signed; signatures = none });
  asked_at = 1_998;
  limited_at = 1_999;
  times = times;
}

abbrev both : List Text
both = text "first" ∷ text "second" ∷ []

abbrev one_bad : List Text
one_bad = text "first" ∷ text "bad" ∷ []

abbrev world_with : List Text → World (List Text)
world_with messages = record { tables = tables_with messages; chain = [] }

both_are_sent :
    (post_submit services (request_for both) (world_with both)).1.chain
    ≡ text "second" ∷ text "first" ∷ []
unfolding post_submit the_quote_is_stale
both_are_sent = refl

another_is_not_sent : (post_submit services (request_for both) (world_with one_bad)).1.chain ≡ []
unfolding post_submit
another_is_not_sent = refl

post_submit-IsSentFor_example :
    IsOnlyRead services [] (post_submit services (request_for both) (world_with both)).1.chain
    ⊎ ((wallet : Text) × (wallet_of_the_session
            (λ value. value)
            (some (text "secret"))
            1_998
            (tables_with both).sessions
          ≡ some wallet)
        × IsSentFor services wallet
            (request_for both)
            (tables_with both)
            []
            (post_submit services (request_for both) (world_with both)).1.chain)
post_submit-IsSentFor_example = post_submit-IsSentFor services (request_for both) (world_with both)

fresh : the_quote_is_stale 1_000 2_000 ≡ false
unfolding the_quote_is_stale
fresh = refl

taken : services.send (text "first") [] ≡ (ok (text "first"), text "first" ∷ [])
unfolding same_text
taken = refl

refused : services.send (text "bad") (text "first" ∷ []) ≡ (throw refusal, text "first" ∷ [])
unfolding same_text
refused = refl

a_partial_landing-IsMarkedFailed_example :
    IsMarkedFailed services
      (text "wallet")
      (text "position")
      refusal
      2_001
      (tables_with one_bad)
      (text "first" ∷ [])
      (send_the_build services
        (text "wallet")
        (build_of one_bad)
        one_bad
        times
        (tables_with one_bad)
        (false, []))
a_partial_landing-IsMarkedFailed_example =
    a_partial_landing-IsMarkedFailed services (text "wallet") (text "first") (text "bad")
      (text "position") [] [] (build_of one_bad) refusal times (tables_with one_bad) []
      (text "first" ∷ []) (text "first" ∷ []) fresh refl refl refl (one_more taken none_left)
      refused
