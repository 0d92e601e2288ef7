-- ===== src/Server/Session.antt =====
-- apps/web/src/server/session.ts and sessionRules.ts: nonces to sign in with, and sessions. Random
-- secrets, readings of the clock and the cookie of a request are arguments; the hash and the text of
-- an instant are functions of the platform.
pub mod Nonces
pub mod Sessions
pub mod History
mod Examples
use accrue.Base.{
  ℕ, ◌+◌, ◌*◌, ltb, Bool, true, false, not, ◌&&◌, ◌||◌, Option, none, some, List, [], ◌∷◌, ◌++◌,
  map, if◌then◌else◌,
}
use accrue.Base.Outcome.{Outcome, ok, throw, ◌>>=◌}
use accrue.Base.Text.{Text, text, join, same_text}
use accrue.Server.Env.{Environment, Unset, required, number}
use accrue.Server.Tables.{Nonce, Session, Wallet}

abbrev pub a_day_in_milliseconds : ℕ
a_day_in_milliseconds = 86_400_000

abbrev pub a_minute_in_milliseconds : ℕ
a_minute_in_milliseconds = 60_000

unfoldable pub session_expires_at : ℕ → ℕ → ℕ
session_expires_at now days = now + days * a_day_in_milliseconds

unfoldable pub nonce_expires_at : ℕ → ℕ → ℕ
nonce_expires_at now minutes = now + minutes * a_minute_in_milliseconds

unfoldable pub message_for : Text → Text → Text → Text → Text
message_for domain wallet_address nonce issued_at = join (10 ∷ []) (
    (domain ++ text " wants you to sign in with your Solana account:")
    ∷ wallet_address
    ∷ []
    ∷ text
        "Sign this message to prove the wallet is yours. It authorises nothing and moves nothing."
    ∷ []
    ∷ (text "Nonce: " ++ nonce)
    ∷ (text "Issued at: " ++ issued_at)
    ∷ [])

-- What the calls of the database and of the environment throw.
pub data SessionFailure : Type 0 where
  a_duplicate_key : SessionFailure
  a_setting : Unset → SessionFailure
  the_signature_cannot_be_checked : SessionFailure

unfoldable pub session_days : Environment → ℕ
unfolding number
session_days environment = number environment (text "SESSION_TTL_DAYS") 7

unfoldable pub nonce_minutes : Environment → ℕ
unfolding number
nonce_minutes environment = number environment (text "AUTH_NONCE_TTL_MINUTES") 5

unfoldable pub auth_domain : Environment → Outcome SessionFailure Text
unfolding required
auth_domain environment = elim (required environment (text "AUTH_DOMAIN")) [
  | ok domain ↦ ok domain
  | throw unset ↦ throw (a_setting unset)
]

unfoldable pub sign_in_message : Environment → Text → Text → Text → Outcome SessionFailure Text
unfolding auth_domain message_for
sign_in_message environment wallet_address nonce issued_at =
    auth_domain environment >>= λ domain. ok (message_for domain wallet_address nonce issued_at)

unfoldable pub has_the_nonce : Text → List Nonce → Bool
has_the_nonce nonce [] = false
has_the_nonce nonce (row ∷ rows) = same_text row.nonce nonce || has_the_nonce nonce rows

-- `insert` into a table whose key is the nonce.
unfoldable pub insert_nonce : Nonce → List Nonce → Outcome SessionFailure (List Nonce)
unfolding has_the_nonce
insert_nonce row rows =
    if has_the_nonce row.nonce rows then throw a_duplicate_key else ok (row ∷ rows)

pub record IssuedNonce : Type 0 where
  pub nonce : Text
  pub issued_at : Text
  pub message : Text

module _ (environment : Environment) (to_iso_string : ℕ → Text) where
  -- The row stays when the message cannot be made.
  unfoldable pub issued_with_its_row :
      Text
      → Text
      → ℕ
      → Outcome SessionFailure Text
      → List Nonce
      → Outcome SessionFailure IssuedNonce × List Nonce
  issued_with_its_row wallet_address nonce now (throw failure) rows = (throw failure, rows)
  issued_with_its_row wallet_address nonce now (ok message) rows =
      (ok (record { nonce = nonce; issued_at = to_iso_string now; message = message }), rows)

  unfoldable pub issue_nonce :
      Text → Text → ℕ → List Nonce → Outcome SessionFailure IssuedNonce × List Nonce
  unfolding insert_nonce nonce_expires_at nonce_minutes sign_in_message issued_with_its_row
  issue_nonce wallet_address nonce now rows =
      elim (insert_nonce
        (record {
          nonce = nonce;
          wallet_address = wallet_address;
          expires_at = nonce_expires_at now (nonce_minutes environment);
          used_at = none;
        })
        rows) [
          | throw failure ↦ (throw failure, rows)
          | ok rows' ↦
              issued_with_its_row wallet_address nonce now
                (sign_in_message environment wallet_address nonce (to_iso_string now)) rows'
        ]

-- `isNull`
abbrev pub is_null : Option ℕ → Bool
is_null none = true
is_null (some at) = false

-- The `where` of the update that spends a nonce.
unfoldable pub can_be_spent : Text → Text → ℕ → Nonce → Bool
can_be_spent wallet_address nonce now row =
    same_text row.nonce nonce
    && same_text row.wallet_address wallet_address
    && is_null row.used_at
    && ltb now row.expires_at

-- Whether the update returned a row, and the rows after it.
unfoldable pub spend_nonce : Text → Text → ℕ → List Nonce → Bool × List Nonce
unfolding can_be_spent
spend_nonce wallet_address nonce now [] = (false, [])
spend_nonce wallet_address nonce now (row ∷ rows) =
    let (spent, rows') = spend_nonce wallet_address nonce now rows in
    if can_be_spent wallet_address nonce now row
    then (true, record row { used_at = some now } ∷ rows')
    else (spent, row ∷ rows')

-- `insert … on conflict do update set last_seen_at`
unfoldable pub see_the_wallet : Text → ℕ → List Wallet → List Wallet
see_the_wallet address now [] =
    record {
      address = address;
      last_seen_at = now;
      terms_version = none;
      terms_accepted_at = none;
      risk_acknowledgement_version = none;
      risk_acknowledged_at = none;
    }
    ∷ []
see_the_wallet address now (row ∷ rows) =
    let rows' = see_the_wallet address now rows in
    if same_text row.address address then record row { last_seen_at = now } ∷ rows else row ∷ rows'

unfoldable pub has_the_session : Text → List Session → Bool
has_the_session id [] = false
has_the_session id (row ∷ rows) = same_text row.id id || has_the_session id rows

-- `insert` into a table whose key is the identifier.
unfoldable pub insert_session : Session → List Session → Outcome SessionFailure (List Session)
unfolding has_the_session
insert_session row rows =
    if has_the_session row.id rows then throw a_duplicate_key else ok (row ∷ rows)

pub record CookieRules : Type 0 where
  pub http_only : Bool
  pub secure : Bool
  pub same_site : Text
  pub path : Text
  pub max_age : ℕ

unfoldable pub cookie_rules : ℕ → Bool → CookieRules
cookie_rules days in_production = record {
  http_only = true;
  secure = in_production;
  same_site = text "strict";
  path = text "/";
  max_age = days * 24 * 60 * 60;
}

module _ (fingerprint_of : Text → Text) where
  -- The row of a session that starts now; the cookie of its secret follows a row that is in.
  unfoldable pub start_session :
      ℕ → Text → Option Text → Text → ℕ → List Session → Outcome SessionFailure (List Session)
  unfolding insert_session session_expires_at
  start_session days wallet_address user_agent secret now rows =
      insert_session
        (record {
          id = fingerprint_of secret;
          wallet_address = wallet_address;
          expires_at = session_expires_at now days;
          revoked_at = none;
          user_agent_hash = elim user_agent [
            | none ↦ none
            | some agent ↦ some (fingerprint_of agent)
          ];
        })
        rows

  -- `update … set revoked_at where id = …`
  unfoldable pub revoke : Text → ℕ → List Session → List Session
  revoke id now rows =
      map (λ row. if same_text row.id id then record row { revoked_at = some now } else row) rows

  unfoldable pub end_session : Option Text → ℕ → List Session → List Session
  unfolding revoke
  end_session none now rows = rows
  end_session (some secret) now rows = revoke (fingerprint_of secret) now rows

  -- The `where` of the session of a cookie.
  unfoldable pub is_live : Text → ℕ → Session → Bool
  is_live id now row = same_text row.id id && is_null row.revoked_at && ltb now row.expires_at

  -- `select … limit 1`
  unfoldable pub wallet_of_the_row : Text → ℕ → List Session → Option Text
  unfolding is_live
  wallet_of_the_row id now [] = none
  wallet_of_the_row id now (row ∷ rows) =
      let others = wallet_of_the_row id now rows in
      if is_live id now row then some row.wallet_address else others

  unfoldable pub wallet_of_the_session : Option Text → ℕ → List Session → Option Text
  unfolding wallet_of_the_row
  wallet_of_the_session none now rows = none
  wallet_of_the_session (some secret) now rows = wallet_of_the_row (fingerprint_of secret) now rows
