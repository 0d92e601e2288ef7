-- ===== src/Server/Session/Sessions.antt =====
-- What the table of sessions promises of a fingerprint, whatever the order of its rows.
use accrue.Base.{
  ℕ, ltb, ◌≡◌, refl, arith, Bool, true, false, not, ◌&&◌, Bool-cases, inl, inr, Option, none, some,
  List, [], ◌∷◌, if◌then◌else◌,
}
use accrue.Base.Text.{Text, same_text, same_text_iff}
use accrue.Base.Outcome.{ok}
use accrue.Server.Session.{
  insert_session, start_session, session_expires_at, wallet_of_the_session, is_null,
  has_the_session, revoke, is_live, wallet_of_the_row,
}
use accrue.Server.Tables.{Session}

-- What there is to know of a session: whose it is, until when, and whether it was ended.
pub record Promise : Type 0 where
  pub wallet_address : Text
  pub expires_at : ℕ
  pub ended : Bool

-- The sessions by the fingerprint of their secret.
abbrev pub Promises : Type 0
Promises = Text → Option Promise

-- The wallet that a promise answers for at an instant.
abbrev pub answers : ℕ → Option Promise → Option Text
answers now none = none
answers now (some promise) =
    if not promise.ended && ltb now promise.expires_at then some promise.wallet_address else none

abbrev pub end : Option Promise → Option Promise
end none = none
end (some promise) = some (record promise { ended = true })

-- What a secret that is started promises, unless it was started before.
abbrev pub begin : Promise → Option Promise → Option Promise
begin promise none = some promise
begin promise (some before) = some before

unfoldable pub promise_of : Session → Promise
promise_of row = record {
  wallet_address = row.wallet_address;
  expires_at = row.expires_at;
  ended = not (is_null row.revoked_at);
}

-- What the table promises of a fingerprint.
unfoldable pub promised_by : List Session → Promises
unfolding promise_of
promised_by [] id = none
promised_by (row ∷ rows) id =
    let rest = promised_by rows id in if same_text row.id id then some (promise_of row) else rest

-- No two rows have one identifier.
unfoldable pub AreApart : List Session → Type 0
AreApart [] = Unit
AreApart (row ∷ rows) = (has_the_session row.id rows ≡ false) × AreApart rows

pub nothing_without_a_row :
    (id : Text) (rows : List Session) → has_the_session id rows ≡ false → promised_by rows id ≡ none
unfolding has_the_session promised_by
nothing_without_a_row id [] h = refl
nothing_without_a_row id (row ∷ rows) h = ground (arith, nothing_without_a_row id rows)

pub something_with_a_row :
    (id : Text) (rows : List Session)
    → has_the_session id rows ≡ true
    → (promise : Promise) × (promised_by rows id ≡ some promise)
unfolding has_the_session promised_by
something_with_a_row id [] h = cc
something_with_a_row id (row ∷ rows) h = elim (Bool-cases (same_text row.id id)) [
  | inl same ↦ (promise_of row, rw same)
  | inr other ↦
      let (promise, is_promised) = something_with_a_row id rows (ground arith) in
      (promise, rw other is_promised)
]

no_answer_without_a_row :
    (fingerprint_of : Text → Text) (id : Text) (now : ℕ) (rows : List Session)
    → has_the_session id rows ≡ false
    → wallet_of_the_row fingerprint_of id now rows ≡ none
unfolding has_the_session wallet_of_the_row is_live
no_answer_without_a_row fingerprint_of id now [] h = refl
no_answer_without_a_row fingerprint_of id now (row ∷ rows) h =
    ground (arith, no_answer_without_a_row fingerprint_of id now rows)

pub wallet_of_the_row-answers :
    (fingerprint_of : Text → Text) (id : Text) (now : ℕ) (rows : List Session)
    → AreApart rows
    → wallet_of_the_row fingerprint_of id now rows ≡ answers now (promised_by rows id)
unfolding wallet_of_the_row is_live promised_by promise_of AreApart
wallet_of_the_row-answers fingerprint_of id now [] apart = refl
wallet_of_the_row-answers fingerprint_of id now (row ∷ rows) (alone, apart) =
    elim (Bool-cases (same_text row.id id)) [
      | inl same ↦
          let is_id : row.id ≡ id = (same_text_iff row.id id).0 same in
          let none_after =
            no_answer_without_a_row fingerprint_of id now rows (ground (arith, is_id, alone)) in
          ground (arith, none_after)
      | inr other ↦ ground (arith, wallet_of_the_row-answers fingerprint_of id now rows apart)
    ]

pub has_the_session-revoke :
    (fingerprint_of : Text → Text) (id other : Text) (now : ℕ) (rows : List Session)
    → has_the_session other (revoke fingerprint_of id now rows) ≡ has_the_session other rows
unfolding has_the_session revoke
has_the_session-revoke fingerprint_of id other now [] = refl
has_the_session-revoke fingerprint_of id other now (row ∷ rows) =
    ground (arith, has_the_session-revoke fingerprint_of id other now rows)

pub revoke-AreApart :
    (fingerprint_of : Text → Text) (id : Text) (now : ℕ) (rows : List Session)
    → AreApart rows
    → AreApart (revoke fingerprint_of id now rows)
unfolding AreApart revoke
revoke-AreApart fingerprint_of id now [] apart = tt
revoke-AreApart fingerprint_of id now (row ∷ rows) (alone, apart) = (
  ground (arith, alone, has_the_session-revoke fingerprint_of id row.id now rows),
  revoke-AreApart fingerprint_of id now rows apart,
)

pub promised_by-revoke :
    (fingerprint_of : Text → Text) (id other : Text) (now : ℕ) (rows : List Session)
    → promised_by (revoke fingerprint_of id now rows) other
      ≡ (if same_text id other then end (promised_by rows other) else promised_by rows other)
unfolding revoke promised_by promise_of
promised_by-revoke fingerprint_of id other now [] = ground arith
promised_by-revoke fingerprint_of id other now (row ∷ rows) = ground (
  arith,
  same_text_iff row.id id,
  same_text_iff row.id other,
  same_text_iff id other,
  promised_by-revoke fingerprint_of id other now rows,
)

-- A session that has started is its wallet's until it expires.
pub wallet_of_the_session_started :
    (fingerprint_of : Text → Text) (days : ℕ) (wallet_address : Text) (user_agent : Option Text)
    (secret : Text) (now later : ℕ) (rows rows' : List Session)
    → start_session fingerprint_of days wallet_address user_agent secret now rows ≡ ok rows'
    → wallet_of_the_session fingerprint_of (some secret) later rows'
      ≡ (if ltb later (session_expires_at now days) then some wallet_address else none)
unfolding start_session insert_session wallet_of_the_session wallet_of_the_row is_live
wallet_of_the_session_started fingerprint_of days wallet_address user_agent secret now later rows
      rows' h =
    elim (Bool-cases (has_the_session (fingerprint_of secret) rows)) [
      | inl known ↦ ground (arith, known, h)
      | inr fresh ↦
          let alone =
            no_answer_without_a_row fingerprint_of (fingerprint_of secret) later rows fresh in
          ground
            (arith, fresh, h, alone, same_text_iff (fingerprint_of secret) (fingerprint_of secret))
    ]
