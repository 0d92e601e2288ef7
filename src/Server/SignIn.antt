-- ===== src/Server/SignIn.antt =====
-- apps/web/src/app/api/auth: the routes that issue a nonce, take a signature for a session, and end
-- the session. The check of a signature, the hash and the form of an address are functions of
-- libraries. The readings of the clock and the random secrets of a request are part of it.
pub mod Proven
mod Examples
use accrue.Base.{
  ℕ, leb, Bool, true, false, not, ◌&&◌, Option, none, some, List, ◌∷◌, length, if◌then◌else◌,
}
use accrue.Base.Outcome.{Outcome, ok, throw}
use accrue.Base.Text.{Text, text}
use accrue.Server.Env.{Environment}
use accrue.Server.Limits
use accrue.Server.Limits.{verify, LimitVerdict, Bucket, within_the_limit}
use accrue.Server.Respond.{
  Response, answer, refuse_with, too_many, sign_in_expired, signature_does_not_match, read_body,
  read_query,
}
use accrue.Server.Session.{
  SessionFailure, IssuedNonce, issue_nonce, the_signature_cannot_be_checked, CookieRules,
  session_days, sign_in_message, spend_nonce, see_the_wallet, start_session, cookie_rules,
  end_session,
}
use accrue.Server.Tables.{Tables, Nonce, Session, AuditAction, AuditEntry, sign_in}

pub record Platform : Type 0 where
  pub environment : Environment
  pub in_production : Bool
  pub is_address : Text → Bool
  pub to_iso_string : ℕ → Text
  pub fingerprint_of : Text → Text
  -- Whether a signature of a message is the wallet's, where the key can be read.
  pub signed_by : Text → Text → Text → Option Bool
  -- Whether the database takes an entry of the audit log.
  pub takes_the_entry : AuditEntry → Bool

-- A body that is an object: what it has of each field that is a string.
pub record RawBody : Type 0 where
  pub wallet : Option Text
  pub nonce : Option Text
  pub issued_at : Option Text
  pub signature : Option Text

pub record VerifyBody : Type 0 where
  pub wallet : Text
  pub nonce : Text
  pub issued_at : Text
  pub signature : Text

-- `z.string().min(…).max(…)`
abbrev of_length : ℕ → ℕ → Text → Bool
of_length least most value = leb least (length value) && leb (length value) most

pub record VerifyRequest : Type 0 where
  pub caller : Text
  pub body : Option RawBody
  pub user_agent : Option Text
  pub secret : Text
  pub limited_at : ℕ
  pub spent_at : ℕ
  pub started_at : ℕ

-- The body of the answer, and the cookie that is set with it.
pub record SignedIn : Type 0 where
  pub wallet : Text
  pub cookie : Text
  pub rules : CookieRules

abbrev pub Answered : Type 0
Answered = Outcome SessionFailure (Response SignedIn) × Tables

module _ (platform : Platform) where
  open platform use {
    environment, in_production, is_address, to_iso_string, fingerprint_of, signed_by,
    takes_the_entry,
  }

  -- The schema of the body.
  unfoldable pub verify_body : RawBody → Option VerifyBody
  verify_body raw = elim raw.wallet [
    | none ↦ none
    | some wallet ↦ elim raw.nonce [
      | none ↦ none
      | some nonce ↦ elim raw.issued_at [
        | none ↦ none
        | some issued_at ↦ elim raw.signature [
          | none ↦ none
          | some signature ↦
              if is_address wallet
                && of_length 16 128 nonce
                && of_length 10 40 issued_at
                && of_length 64 128 signature
              then some (record {
                wallet = wallet;
                nonce = nonce;
                issued_at = issued_at;
                signature = signature;
              })
              else none
        ]
      ]
    ]
  ]

  unfoldable pub record_in_the_audit_log : Text → AuditAction → Option ℕ → Tables → Tables
  record_in_the_audit_log actor action version tables =
      let entry : AuditEntry = record { actor = actor; action = action; version = version } in
      if takes_the_entry entry
      then record tables { audit_log = entry ∷ tables.audit_log }
      else tables

  -- What follows a call of `startSession`.
  unfoldable pub signed_in :
      VerifyRequest → Text → Tables → Outcome SessionFailure (List Session) → Answered
  unfolding record_in_the_audit_log cookie_rules session_days
  signed_in request wallet tables (throw failure) = (throw failure, tables)
  signed_in request wallet tables (ok sessions) = (
    ok (
        answer (record {
          wallet = wallet;
          cookie = request.secret;
          rules = cookie_rules (session_days environment) in_production;
        })),
    record_in_the_audit_log wallet sign_in none (record tables { sessions = sessions }),
  )

  unfoldable pub after_the_check : VerifyRequest → Text → Tables → Option Bool → Answered
  unfolding see_the_wallet start_session signed_in session_days
  after_the_check request wallet tables none = (throw the_signature_cannot_be_checked, tables)
  after_the_check request wallet tables (some false) =
      (ok (refuse_with signature_does_not_match 401), tables)
  after_the_check request wallet tables (some true) =
      signed_in request wallet
        (record tables { wallets = see_the_wallet wallet request.started_at tables.wallets })
        (start_session fingerprint_of (session_days environment) wallet request.user_agent
          request.secret request.started_at tables.sessions)

  unfoldable pub check_the_signature :
      VerifyRequest → VerifyBody → Tables → Outcome SessionFailure Text → Answered
  unfolding after_the_check
  check_the_signature request body tables (throw failure) = (throw failure, tables)
  check_the_signature request body tables (ok message) =
      after_the_check request body.wallet tables (signed_by body.wallet body.signature message)

  unfoldable pub after_spending : VerifyRequest → VerifyBody → Tables → Bool × List Nonce → Answered
  unfolding check_the_signature sign_in_message
  after_spending request body tables (false, nonces) =
      (ok (refuse_with sign_in_expired 401), record tables { nonces = nonces })
  after_spending request body tables (true, nonces) =
      check_the_signature request body (record tables { nonces = nonces })
        (sign_in_message environment body.wallet body.nonce body.issued_at)

  unfoldable pub take_the_body :
      VerifyRequest → Tables → Outcome (Response SignedIn) VerifyBody → Answered
  unfolding spend_nonce after_spending
  take_the_body request tables (throw response) = (ok response, tables)
  take_the_body request tables (ok body) =
      after_spending request body tables
        (spend_nonce body.wallet body.nonce request.spent_at tables.nonces)

  unfoldable pub within_the_verify_limit :
      VerifyRequest → Tables → LimitVerdict × List Bucket → Answered
  unfolding take_the_body read_body verify_body
  within_the_verify_limit request tables (verdict, buckets) =
      let limited = record tables { buckets = buckets } in
      if not verdict.allowed
      then (ok (too_many verdict.retry_after_seconds), limited)
      else take_the_body request limited (read_body verify_body request.body)

  -- `POST` of auth/verify
  unfoldable pub post_verify : VerifyRequest → Tables → Answered
  unfolding within_the_verify_limit within_the_limit
  post_verify request tables = within_the_verify_limit request tables (
      within_the_limit environment verify (text "auth/verify") request.caller request.limited_at
        tables.buckets)

  -- `POST` of auth/signout
  unfoldable pub post_signout : Option Text → ℕ → Tables → Response (Unit {0}) × Tables
  unfolding end_session
  post_signout cookie now tables = (
    answer tt,
    record tables { sessions = end_session fingerprint_of cookie now tables.sessions },
  )

pub record NonceRequest : Type 0 where
  pub caller : Text
  -- The parameter `wallet` of the query.
  pub wallet : Option Text
  pub nonce : Text
  pub limited_at : ℕ
  pub issued_at : ℕ

abbrev pub NonceAnswered : Type 0
NonceAnswered = Outcome SessionFailure (Response IssuedNonce) × Tables

module _ (platform : Platform) where
  open platform use {environment, is_address, to_iso_string}

  unfoldable pub nonce_query : Option Text → Option Text
  nonce_query none = none
  nonce_query (some wallet) = if is_address wallet then some wallet else none

  -- What follows a call of `issueNonce`.
  unfoldable pub issued : Tables → Outcome SessionFailure IssuedNonce × List Nonce → NonceAnswered
  issued tables (throw failure, nonces) = (throw failure, record tables { nonces = nonces })
  issued tables (ok given, nonces) = (ok (answer given), record tables { nonces = nonces })

  unfoldable pub take_the_query :
      NonceRequest → Tables → Outcome (Response IssuedNonce) Text → NonceAnswered
  unfolding issue_nonce issued
  take_the_query request tables (throw response) = (ok response, tables)
  take_the_query request tables (ok wallet) =
      issued tables
        (issue_nonce environment to_iso_string wallet request.nonce request.issued_at tables.nonces)

  unfoldable pub within_the_nonce_limit :
      NonceRequest → Tables → LimitVerdict × List Bucket → NonceAnswered
  unfolding take_the_query read_query nonce_query
  within_the_nonce_limit request tables (verdict, buckets) =
      let limited = record tables { buckets = buckets } in
      if not verdict.allowed
      then (ok (too_many verdict.retry_after_seconds), limited)
      else take_the_query request limited (read_query nonce_query request.wallet)

  -- `GET` of auth/nonce
  unfoldable pub get_nonce : NonceRequest → Tables → NonceAnswered
  unfolding within_the_nonce_limit within_the_limit
  get_nonce request tables = within_the_nonce_limit request tables (
      within_the_limit environment Limits.nonce (text "auth/nonce") request.caller
        request.limited_at tables.buckets)
