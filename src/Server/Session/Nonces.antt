-- ===== src/Server/Session/Nonces.antt =====
-- A nonce is spent at most once, over any history of nonces issued and spent.
use accrue.Base.{
  Bool-cases, inl, inr, ℕ, ◌+◌, ◌-◌, ◌≤◌, ◌==◌, ◌≡◌, refl, arith, not, ◌&&◌, none, List, [], ◌∷◌,
  if◌then◌else◌,
}
use accrue.Base.Outcome.{Outcome, ok, throw}
use accrue.Base.Text.{Text, same_text, same_text_iff}
use accrue.Server.Env.{Environment}
use accrue.Server.Session.{
  SessionFailure, nonce_expires_at, nonce_minutes, is_null, can_be_spent, spend_nonce,
  has_the_nonce, insert_nonce, issued_with_its_row, issue_nonce,
}
use accrue.Server.Tables.{Nonce}

-- What happens to the table: a nonce is issued to a wallet, or one is handed in for a wallet.
pub data Event : Type 0 where
  issues hands_in : Text → Text → ℕ → Event

-- How many rows carry the nonce, and how many of these have not been used.
abbrev occurrences : Text → List Nonce → ℕ
occurrences nonce [] = 0
occurrences nonce (row ∷ rows) =
    let rest = occurrences nonce rows in if same_text row.nonce nonce then rest + 1 else rest

abbrev unused : Text → List Nonce → ℕ
unused nonce [] = 0
unused nonce (row ∷ rows) =
    let rest = unused nonce rows in
    if same_text row.nonce nonce && is_null row.used_at then rest + 1 else rest

unused-le : (nonce : Text) (rows : List Nonce) → unused nonce rows ≤ occurrences nonce rows
unused-le nonce [] = omega arith
unused-le nonce (row ∷ rows) = ground (arith, unused-le nonce rows)

occurrences-spend_nonce :
    (wallet_address nonce other : Text) (now : ℕ) (rows : List Nonce)
    → occurrences other (spend_nonce wallet_address nonce now rows).1 ≡ occurrences other rows
unfolding spend_nonce
occurrences-spend_nonce wallet_address nonce other now [] = refl
occurrences-spend_nonce wallet_address nonce other now (row ∷ rows) =
    ground (arith, occurrences-spend_nonce wallet_address nonce other now rows)

-- Handing a nonce in uses one of its rows up exactly when it is taken, and no row of another nonce.
unused-spend_nonce :
    (wallet_address nonce other : Text) (now : ℕ) (rows : List Nonce)
    → unused other (spend_nonce wallet_address nonce now rows).1
        + (if (spend_nonce wallet_address nonce now rows).0 && same_text nonce other then 1 else 0)
      ≤ unused other rows
unfolding spend_nonce can_be_spent
unused-spend_nonce wallet_address nonce other now [] = ground arith
unused-spend_nonce wallet_address nonce other now (row ∷ rows) = ground (
  arith,
  same_text_iff row.nonce nonce,
  same_text_iff row.nonce other,
  same_text_iff nonce other,
  unused-spend_nonce wallet_address nonce other now rows,
)

occurrences-has_the_nonce :
    (nonce : Text) (rows : List Nonce)
    → has_the_nonce nonce rows ≡ not (occurrences nonce rows == 0)
unfolding has_the_nonce
occurrences-has_the_nonce nonce [] = refl
occurrences-has_the_nonce nonce (row ∷ rows) = ground (arith, occurrences-has_the_nonce nonce rows)

module _ (environment : Environment) (to_iso_string : ℕ → Text) where
  issued_with_its_row_rows :
      (wallet_address nonce : Text) (now : ℕ) (message : Outcome SessionFailure Text)
      (rows : List Nonce)
      → (issued_with_its_row environment to_iso_string wallet_address nonce now message rows).1
        ≡ rows
  unfolding issued_with_its_row
  issued_with_its_row_rows wallet_address nonce now (ok message) rows = refl
  issued_with_its_row_rows wallet_address nonce now (throw failure) rows = refl

  -- The rows after a nonce is issued: its own is added where none carries it.
  issue_nonce_rows :
      (wallet_address nonce : Text) (now : ℕ) (rows : List Nonce)
      → (row : Nonce) × (row.nonce ≡ nonce)
        × (row.used_at ≡ none)
        × ((issue_nonce environment to_iso_string wallet_address nonce now rows).1
            ≡ (if has_the_nonce nonce rows then rows else row ∷ rows))
  unfolding issue_nonce insert_nonce
  issue_nonce_rows wallet_address nonce now rows = (
    record {
      nonce = nonce;
      wallet_address = wallet_address;
      expires_at = nonce_expires_at now (nonce_minutes environment);
      used_at = none;
    },
    refl,
    refl,
    elim (Bool-cases (has_the_nonce nonce rows)) [
      | inl known ↦ rw (issue_nonce, known)
      | inr fresh ↦ rw (issue_nonce, fresh, issued_with_its_row_rows)
    ],
  )

  -- Issuing a nonce that no row carries adds a row of it that has not been used; nothing else
  -- changes the counts of a nonce.
  issue_nonce-counts :
      (wallet_address nonce other : Text) (now : ℕ) (rows : List Nonce)
      → (occurrences other (issue_nonce environment to_iso_string wallet_address nonce now rows).1
          ≡ (if same_text nonce other && occurrences other rows == 0
              then 1
              else occurrences other rows))
        × (unused other (issue_nonce environment to_iso_string wallet_address nonce now rows).1 ≡ (
            if same_text nonce other && occurrences other rows == 0 then 1 else unused other rows))
  issue_nonce-counts wallet_address nonce other now rows =
      let (row, is_for, is_unused, after) = issue_nonce_rows wallet_address nonce now rows in
      let known = occurrences-has_the_nonce nonce rows in
      let same = same_text_iff nonce other in
      (
        rw after (ground (arith, is_for, is_unused, known, same, unused-le other rows)),
        rw after (ground (arith, is_for, is_unused, known, same, unused-le other rows)),
      )

  -- How often the nonce is taken.
  unfoldable pub times_spent : Text → List Event → List Nonce → ℕ
  times_spent nonce [] rows = 0
  times_spent nonce (issues wallet_address other now ∷ events) rows =
      times_spent nonce events
        (issue_nonce environment to_iso_string wallet_address other now rows).1
  times_spent nonce (hands_in wallet_address other now ∷ events) rows =
      let (spent, rows') = spend_nonce wallet_address other now rows in
      let rest = times_spent nonce events rows' in
      if spent && same_text other nonce then rest + 1 else rest

  -- What is left to spend of a nonce that a row carries.
  times_spent-le :
      (nonce : Text) (events : List Event) (rows : List Nonce)
      → occurrences nonce rows ≤ 1
      → times_spent nonce events rows
          + (if occurrences nonce rows == 0 then 0 else 1 - unused nonce rows)
        ≤ 1
  unfolding times_spent
  times_spent-le nonce [] rows h = ground arith
  times_spent-le nonce (issues wallet_address other now ∷ events) rows h =
      let rows' = (issue_nonce environment to_iso_string wallet_address other now rows).1 in
      let counts = issue_nonce-counts wallet_address other nonce now rows in
      ground (arith, counts, times_spent-le nonce events rows' (ground (arith, counts)))
  times_spent-le nonce (hands_in wallet_address other now ∷ events) rows h =
      let rows' = (spend_nonce wallet_address other now rows).1 in
      let same = occurrences-spend_nonce wallet_address other nonce now rows in
      ground (
        arith,
        same,
        unused-spend_nonce wallet_address other nonce now rows,
        unused-le nonce rows,
        times_spent-le nonce events rows' (omega (arith, same)),
      )

  -- Over any history of nonces issued to wallets and handed in for them, a nonce is taken at most
  -- once.
  pub times_spent_at_most_once :
      (nonce : Text) (events : List Event) → times_spent nonce events [] ≤ 1
  times_spent_at_most_once nonce events =
      omega (arith, times_spent-le nonce events [] (omega arith))
