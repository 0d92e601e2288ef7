-- ===== src/Server/Session/History.antt =====
-- The table of sessions does what its events promise: a secret that was started is its wallet's until
-- it expires or is ended, and is never taken for another.
use accrue.Base.{
  ℕ, ◌≡◌, refl, sym, ap, ◌∙◌, false, Bool-cases, inl, inr, Option, none, some, List, [], ◌∷◌,
  if◌then◌else◌,
}
use accrue.Base.Outcome.{Outcome, ok, throw}
use accrue.Base.Text.{Text, same_text, same_text_iff}
use accrue.Server.Env.{Environment}
use accrue.Server.Session.{
  SessionFailure, session_days, has_the_session, insert_session, session_expires_at, start_session,
  end_session, wallet_of_the_session,
}
use accrue.Server.Session.Sessions.{
  Promise, Promises, answers, end, begin, promise_of, promised_by, AreApart, nothing_without_a_row,
  something_with_a_row, wallet_of_the_row-answers, revoke-AreApart, promised_by-revoke,
}
use accrue.Server.Tables.{Session}

-- A session is started by a wallet, or the one of a cookie is ended.
pub data Event : Type 0 where
  starts : Text → Option Text → Text → ℕ → Event
  ends : Option Text → ℕ → Event

-- The table after an insert that may have been refused.
abbrev rows_after : Outcome SessionFailure (List Session) → List Session → List Session
rows_after (ok rows') rows = rows'
rows_after (throw failure) rows = rows

module _ (environment : Environment) (fingerprint_of : Text → Text) where
  abbrev started : Text → ℕ → Promise
  started wallet_address now = record {
    wallet_address = wallet_address;
    expires_at = session_expires_at now (session_days environment);
    ended = false;
  }

  -- One event on the table.
  unfoldable pub step : Event → List Session → List Session
  step (starts wallet_address user_agent secret now) rows =
      rows_after
        (start_session fingerprint_of (session_days environment) wallet_address user_agent secret
          now rows)
        rows
  step (ends cookie now) rows = end_session fingerprint_of cookie now rows

  -- One event on what is promised.
  unfoldable pub promise_step : Event → Promises → Promises
  promise_step (starts wallet_address user_agent secret now) promises id =
      if same_text (fingerprint_of secret) id
      then begin (started wallet_address now) (promises id)
      else promises id
  promise_step (ends none now) promises id = promises id
  promise_step (ends (some secret) now) promises id =
      if same_text (fingerprint_of secret) id then end (promises id) else promises id

  unfoldable pub table_after : List Event → List Session → List Session
  unfolding step
  table_after [] rows = rows
  table_after (event ∷ events) rows = table_after events (step event rows)

  unfoldable pub promises_after : List Event → Promises → Promises
  unfolding promise_step
  promises_after [] promises = promises
  promises_after (event ∷ events) promises = promises_after events (promise_step event promises)

  step-AreApart : (event : Event) (rows : List Session) → AreApart rows → AreApart (step event rows)
  unfolding step start_session insert_session AreApart end_session
  step-AreApart (starts wallet_address user_agent secret now) rows apart =
      elim (Bool-cases (has_the_session (fingerprint_of secret) rows)) [
        | inl known ↦ rw (insert_session, known) apart
        | inr fresh ↦ rw (insert_session, fresh) (fresh, apart)
      ]
  step-AreApart (ends none now) rows apart = apart
  step-AreApart (ends (some secret) now) rows apart =
      revoke-AreApart fingerprint_of (fingerprint_of secret) now rows apart

  promised_by-step :
      (event : Event) (id : Text) (rows : List Session)
      → promised_by (step event rows) id ≡ promise_step event (promised_by rows) id
  unfolding step promise_step start_session insert_session end_session promised_by promise_of
  promised_by-step (starts wallet_address user_agent secret now) id rows =
      elim (Bool-cases (has_the_session (fingerprint_of secret) rows)) [
        | inl known ↦
            let (promise, before) = something_with_a_row (fingerprint_of secret) rows known in
            elim (Bool-cases (same_text (fingerprint_of secret) id)) [
              | inl same ↦
                  let is_id = (same_text_iff (fingerprint_of secret) id).0 same in
                  let here : promised_by rows id ≡ some promise = rw (sym is_id) before in
                  rw (insert_session, known, same, here)
              | inr other ↦ rw (insert_session, known, other)
            ]
        | inr fresh ↦
            let before = nothing_without_a_row (fingerprint_of secret) rows fresh in
            elim (Bool-cases (same_text (fingerprint_of secret) id)) [
              | inl same ↦
                  let is_id = (same_text_iff (fingerprint_of secret) id).0 same in
                  let here : promised_by rows id ≡ none = rw (sym is_id) before in
                  rw (insert_session, fresh, same, here)
              | inr other ↦ rw (insert_session, fresh, other)
            ]
      ]
  promised_by-step (ends none now) id rows = refl
  promised_by-step (ends (some secret) now) id rows =
      promised_by-revoke fingerprint_of (fingerprint_of secret) id now rows

  promise_step-same :
      (event : Event) (promises others : Promises)
      → ((id : Text) → promises id ≡ others id)
      → (id : Text) → promise_step event promises id ≡ promise_step event others id
  unfolding promise_step
  promise_step-same (starts wallet_address user_agent secret now) promises others same id =
      rw (same id)
  promise_step-same (ends none now) promises others same id = same id
  promise_step-same (ends (some secret) now) promises others same id = rw (same id)

  table_after-promises :
      (events : List Event) (rows : List Session) (promises : Promises)
      → AreApart rows
      → ((id : Text) → promised_by rows id ≡ promises id)
      → AreApart (table_after events rows)
        × ((id : Text)
            → promised_by (table_after events rows) id ≡ promises_after events promises id)
  unfolding table_after promises_after
  table_after-promises [] rows promises apart kept = (apart, kept)
  table_after-promises (event ∷ events) rows promises apart kept =
      table_after-promises events (step event rows) (promise_step event promises)
        (step-AreApart event rows apart)
        (λ id.
          promised_by-step event id rows
          ∙ promise_step-same event (promised_by rows) promises kept id)

  -- After any history of sessions started and ended, the wallet of a cookie at an instant is the one
  -- that the history promises for the fingerprint of the cookie's secret.
  pub wallet_of_the_session-promised :
      (events : List Event) (cookie : Text) (now : ℕ)
      → wallet_of_the_session fingerprint_of (some cookie) now (table_after events [])
        ≡ answers now (promises_after events (λ id. none) (fingerprint_of cookie))
  unfolding wallet_of_the_session AreApart promised_by
  wallet_of_the_session-promised events cookie now =
      let (apart, kept) = table_after-promises events [] (λ id. none) tt (λ id. refl) in
      wallet_of_the_row-answers fingerprint_of (fingerprint_of cookie) now (table_after events [])
        apart
      ∙ ap (answers now) (kept (fingerprint_of cookie))
