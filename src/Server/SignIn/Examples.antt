-- ===== src/Server/SignIn/Examples.antt =====
-- A sign-in on a platform whose signatures are the messages themselves, and its witness.
use accrue.Base.{ℕ, ltb, ◌≡◌, refl, true, none, some, [], ◌∷◌, if◌then◌else◌}
use accrue.Base.Outcome.{ok}
use accrue.Base.Text.{Text, text}
use accrue.Server.Respond.{answer, read_body}
use accrue.Server.Session.{session_days, session_expires_at, spend_nonce, wallet_of_the_session}
use accrue.Server.SignIn.{Platform, VerifyBody, VerifyRequest, SignedIn, verify_body, post_verify}
use accrue.Server.SignIn.Proven.{HasSigned, post_verify-IsProven}
use accrue.Server.Tables.{Tables}

abbrev platform : Platform
platform = record {
  environment = record {
    variable = λ name. some (text "accrue.example");
    finite_number = λ name. none;
  };
  in_production = true;
  is_address = λ value. true;
  to_iso_string = λ now. text "2026-01-01T00:00:00.000Z";
  fingerprint_of = λ value. value;
  signed_by = λ wallet signature message. some true;
  takes_the_entry = λ entry. true;
}

abbrev nonce : Text
nonce = text "abcdefghijklmnop"

abbrev tables : Tables
tables = record {
  buckets = [];
  nonces =
      record { nonce = nonce; wallet_address = text "wallet"; expires_at = 10_000; used_at = none }
      ∷ [];
  sessions = [];
  wallets = [];
  positions = [];
  builds = [];
  audit_log = [];
}

abbrev request : VerifyRequest
request = record {
  caller = text "203.0.113.7";
  body = some (record {
    wallet = some (text "wallet");
    nonce = some nonce;
    issued_at = some (text "2026-01-01T00:00:00.000Z");
    signature =
        some (text "0123456789012345678901234567890123456789012345678901234567890123456789");
  });
  user_agent = none;
  secret = text "secret";
  limited_at = 1_000;
  spent_at = 1_001;
  started_at = 1_002;
}

abbrev signed : SignedIn
signed = record {
  wallet = text "wallet";
  cookie = text "secret";
  rules = record {
    http_only = true;
    secure = true;
    same_site = text "strict";
    path = text "/";
    max_age = 604_800;
  };
}

is_signed_in :
    post_verify platform request tables
    ≡ (ok (answer signed), (post_verify platform request tables).1)
unfolding post_verify
is_signed_in = refl

post_verify-IsProven_example :
    (body : VerifyBody) × (read_body {Body = SignedIn} (verify_body platform) request.body
      ≡ ok body)
    × ((spend_nonce body.wallet body.nonce request.spent_at tables.nonces).0 ≡ true)
    × HasSigned platform body
    × (signed.wallet ≡ body.wallet)
    × ((later : ℕ)
        → wallet_of_the_session platform.fingerprint_of
            (some signed.cookie)
            later
            (post_verify platform request tables).1.sessions
          ≡ (if ltb later
                (session_expires_at request.started_at (session_days platform.environment))
              then some signed.wallet
              else none))
post_verify-IsProven_example =
    post_verify-IsProven platform request tables signed (post_verify platform request tables).1
      is_signed_in
