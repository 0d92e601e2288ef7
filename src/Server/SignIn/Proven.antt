-- ===== src/Server/SignIn/Proven.antt =====
-- Who is signed in: only a wallet that signed the message of a nonce that it had been given.
use accrue.Base.{
  ℕ, ltb, ◌≡◌, ◌≢◌, refl, arith, sym, ap, ◌∙◌, Bool, true, false, not, Option-cases, inl, inr,
  Option, none, some, List, if◌then◌else◌,
}
use accrue.Base.Outcome.{Outcome, ok, throw}
use accrue.Base.Text.{Text, text}
use accrue.Server.Limits.{verify, within_the_limit, Bucket, LimitVerdict}
use accrue.Server.Respond.{Response, answer, refuse, read_body}
use accrue.Server.Session.Sessions.{wallet_of_the_session_started}
use accrue.Server.Session.{
  SessionFailure, session_days, session_expires_at, sign_in_message, spend_nonce, start_session,
  wallet_of_the_session,
}
use accrue.Server.SignIn.{
  Platform, RawBody, VerifyBody, VerifyRequest, SignedIn, verify_body, record_in_the_audit_log,
  signed_in, after_the_check, check_the_signature, after_spending, take_the_body,
  within_the_verify_limit, post_verify,
}
use accrue.Server.Tables.{Tables, Nonce, Session}

abbrev not_the_shape : Response SignedIn
not_the_shape = refuse (text "That request is not in the shape this route takes.") 400

past_the_guard {ℓ} :
    {A : Type ℓ} (passes : Bool) (refusal rest result : A)
    → refusal ≢ result
    → (if not passes then refusal else rest) ≡ result
    → (passes ≡ true) × (rest ≡ result)
past_the_guard true refusal rest result other h = (refl, h)
past_the_guard false refusal rest result other h = absurd (other h)

module _ (platform : Platform) where
  open platform use {environment, fingerprint_of, signed_by}

  -- The session of a wallet has started: its cookie is the wallet's until it expires, and the tables
  -- have no other session of that cookie.
  Started : VerifyRequest → Text → List Session → SignedIn → Tables → Type 0
  Started request wallet sessions signed after =
      (signed.wallet ≡ wallet)
      × (signed.cookie ≡ request.secret)
      × (start_session fingerprint_of (session_days environment) wallet request.user_agent
            request.secret request.started_at sessions
          ≡ ok after.sessions)

  signed_in-Started :
      (request : VerifyRequest) (wallet : Text) (tables : Tables)
      (sessions : Outcome SessionFailure (List Session)) (signed : SignedIn) (after : Tables)
      → signed_in platform request wallet tables sessions ≡ (ok (answer signed), after)
      → (signed.wallet ≡ wallet) × (signed.cookie ≡ request.secret) × (sessions ≡ ok after.sessions)
  unfolding signed_in record_in_the_audit_log
  signed_in-Started request wallet tables (throw failure) signed after h = cc
  signed_in-Started request wallet tables (ok sessions) signed after h =
      (ground (arith, h), ground (arith, h), ground (arith, h))

  after_the_check-Started :
      (request : VerifyRequest) (wallet : Text) (tables : Tables) (checked : Option Bool)
      (signed : SignedIn) (after : Tables)
      → after_the_check platform request wallet tables checked ≡ (ok (answer signed), after)
      → (checked ≡ some true) × Started request wallet tables.sessions signed after
  unfolding after_the_check Started
  after_the_check-Started request wallet tables none signed after h = cc
  after_the_check-Started request wallet tables (some false) signed after h = cc
  after_the_check-Started request wallet tables (some true) signed after h =
      (refl, signed_in-Started request wallet _ _ signed after h)

  check_the_signature-Started :
      (request : VerifyRequest) (body : VerifyBody) (tables : Tables)
      (made : Outcome SessionFailure Text) (signed : SignedIn) (after : Tables)
      → check_the_signature platform request body tables made ≡ (ok (answer signed), after)
      → (message : Text) × (made ≡ ok message)
        × (signed_by body.wallet body.signature message ≡ some true)
        × Started request body.wallet tables.sessions signed after
  unfolding check_the_signature
  check_the_signature-Started request body tables (throw failure) signed after h = cc
  check_the_signature-Started request body tables (ok message) signed after h =
      let (checked, started) =
        after_the_check-Started request body.wallet tables _ signed after h in
      (message, refl, checked, started)

  -- The wallet of a body signed the message of its nonce.
  unfoldable pub HasSigned : VerifyBody → Type 0
  HasSigned body =
      (message : Text) × (sign_in_message environment body.wallet body.nonce body.issued_at
        ≡ ok message)
      × (signed_by body.wallet body.signature message ≡ some true)

  after_spending-Started :
      (request : VerifyRequest) (body : VerifyBody) (tables : Tables) (result : Bool × List Nonce)
      (signed : SignedIn) (after : Tables)
      → after_spending platform request body tables result ≡ (ok (answer signed), after)
      → (result.0 ≡ true)
        × HasSigned body
        × Started request body.wallet tables.sessions signed after
  unfolding after_spending HasSigned
  after_spending-Started request body tables (false, nonces) signed after h = cc
  after_spending-Started request body tables (true, nonces) signed after h =
      let (message, made, checked, started) =
        check_the_signature-Started request body _ _ signed after h in
      (refl, (message, made, checked), started)

  take_the_body-Started :
      (request : VerifyRequest) (tables : Tables) (raw : Option RawBody) (signed : SignedIn)
      (after : Tables)
      → take_the_body platform request tables (read_body (verify_body platform) raw)
        ≡ (ok (answer signed), after)
      → (body : VerifyBody) × (read_body {Body = SignedIn} (verify_body platform) raw ≡ ok body)
        × ((spend_nonce body.wallet body.nonce request.spent_at tables.nonces).0 ≡ true)
        × HasSigned body
        × Started request body.wallet tables.sessions signed after
  unfolding take_the_body read_body
  take_the_body-Started request tables none signed after h = cc
  take_the_body-Started request tables (some raw) signed after h =
      elim (Option-cases (verify_body platform raw)) [
        | inl unread ↦
            let refused : read_body (verify_body platform) (some raw) ≡ throw not_the_shape =
              rw (read_body, unread) in
            let h' = sym (ap (take_the_body platform request tables) refused) ∙ h in cc
        | inr (body, is_read) ↦
            let parsed : read_body {Body = SignedIn} (verify_body platform) (some raw) ≡ ok body =
              rw (read_body, is_read) in
            let h' = sym (ap (take_the_body platform request tables) parsed) ∙ h in
            let (spent, has_signed, started) =
              after_spending-Started request body tables
                (spend_nonce body.wallet body.nonce request.spent_at tables.nonces) signed after
                h' in
            (body, parsed, spent, has_signed, started)
      ]

  within_the_verify_limit-Started :
      (request : VerifyRequest) (tables : Tables) (result : LimitVerdict × List Bucket)
      (signed : SignedIn) (after : Tables)
      → within_the_verify_limit platform request tables result ≡ (ok (answer signed), after)
      → (result.0.allowed ≡ true)
        × (take_the_body platform request
              (record tables { buckets = result.1 })
              (read_body (verify_body platform) request.body)
            ≡ (ok (answer signed), after))
  unfolding within_the_verify_limit
  within_the_verify_limit-Started request tables (verdict, buckets) signed after h =
      past_the_guard verdict.allowed _ _ _ (λ over. cc) h

  -- A wallet is signed in only by a body of the route's shape whose nonce could be spent by the wallet
  -- and whose signature of the message of that nonce is the wallet's. The cookie then is a session of
  -- the wallet until it expires, and of nobody after that.
  pub post_verify-IsProven :
      (request : VerifyRequest) (tables : Tables) (signed : SignedIn) (after : Tables)
      → post_verify platform request tables ≡ (ok (answer signed), after)
      → (body : VerifyBody) × (read_body {Body = SignedIn} (verify_body platform) request.body
          ≡ ok body)
        × ((spend_nonce body.wallet body.nonce request.spent_at tables.nonces).0 ≡ true)
        × HasSigned body
        × (signed.wallet ≡ body.wallet)
        × ((later : ℕ)
            → wallet_of_the_session fingerprint_of (some signed.cookie) later after.sessions ≡ (
                if ltb later (session_expires_at request.started_at (session_days environment))
                then some signed.wallet
                else none))
  unfolding post_verify Started
  post_verify-IsProven request tables signed after h =
      let (allowed, taken) =
        within_the_verify_limit-Started request tables
          (within_the_limit environment verify (text "auth/verify") request.caller
            request.limited_at tables.buckets)
          signed after h in
      let (body, parsed, spent, has_signed, (of_the_wallet, with_the_cookie, started)) =
        take_the_body-Started request
          (record tables {
            buckets =
                (within_the_limit environment verify (text "auth/verify") request.caller
                  request.limited_at tables.buckets).1;
          })
          request.body signed after taken in
      (
        body,
        parsed,
        spent,
        has_signed,
        of_the_wallet,
        λ later.
            rw (with_the_cookie, of_the_wallet)
              (wallet_of_the_session_started fingerprint_of (session_days environment) body.wallet
                request.user_agent request.secret request.started_at later tables.sessions
                after.sessions started),
      )
