-- ===== src/Server/Record.antt =====
-- apps/web/src/server/positions/record.ts: the rows of builds and of positions. A call of the database
-- that is caught is one that it may refuse; the identifiers of new rows are the database's.
use accrue.Base.{
  ℕ, Bool, false, ◌&&◌, ◌||◌, Option, none, some, List, [], ◌∷◌, map, find, if◌then◌else◌,
}
use accrue.Base.Text.{Text, same_text}
use accrue.Server.Tables.{FailureReason, PositionRow, StoredBuild, open_position, failed}

-- Whether the database takes a write at an instant.
abbrev pub Taking : Type 0
Taking = ℕ → Bool

-- `where id = … and wallet_address = …`
unfoldable pub is_of : Text → Text → PositionRow → Bool
is_of wallet id row = same_text row.id id && same_text row.wallet_address wallet

module _ (takes : Taking) where
  unfoldable pub mark_it_open : Text → Text → List Text → ℕ → List PositionRow → List PositionRow
  unfolding is_of
  mark_it_open wallet id signatures now rows =
      if takes now
      then map
          (λ row.
            if is_of wallet id row
            then record row {
              status = open_position;
              open_signatures = some signatures;
              opened_at = some now;
              updated_at = now;
            }
            else row)
          rows
      else rows

  unfoldable pub mark_it_failed :
      Text → Text → FailureReason → ℕ → List PositionRow → List PositionRow
  unfolding is_of
  mark_it_failed wallet id reason now rows =
      if takes now
      then map
          (λ row.
            if is_of wallet id row
            then record row { status = failed; failure_reason = some reason; updated_at = now }
            else row)
          rows
      else rows

  unfoldable pub record_the_signatures : Text → List Text → ℕ → List StoredBuild → List StoredBuild
  record_the_signatures id signatures now rows =
      if takes now
      then map
          (λ row.
            if same_text row.id id
            then record row { signatures = some signatures; submitted_at = some now }
            else row)
          rows
      else rows

unfoldable pub build_for : Text → Text → List StoredBuild → Option StoredBuild
build_for wallet id rows =
    find (λ row. same_text row.id id && same_text row.wallet_address wallet) rows

-- `signatures.includes(signature)`
unfoldable pub is_among : Text → List Text → Bool
is_among signature [] = false
is_among signature (other ∷ others) = same_text other signature || is_among signature others

-- Whether one of the rows of the wallet has the signature; false where the read is refused.
unfoldable pub the_wallet_owns_the_signature : Bool → Text → Text → List StoredBuild → Bool
unfolding is_among
the_wallet_owns_the_signature reads wallet signature [] = false
the_wallet_owns_the_signature reads wallet signature (row ∷ rows) =
    reads
    && ((same_text row.wallet_address wallet
          && elim row.signatures [ none ↦ false | some signatures ↦ is_among signature signatures ])
        || the_wallet_owns_the_signature reads wallet signature rows)
