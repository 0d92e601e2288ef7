-- ===== src/Server/Gates/Standing.antt =====
-- What a wallet has accepted, after it accepts something.
use accrue.Base.{
  ℕ, ◌==◌, ◌≡◌, refl, arith, Bool, true, false, ◌&&◌, Bool-cases, inl, inr, Option, none, some,
  List, [], ◌∷◌, find, if◌then◌else◌,
}
use accrue.Base.Text.{Text, same_text, same_text_iff}
use accrue.Core.Freshness.{current_terms_version, terms_are_current}
use accrue.Server.Gates.{standing_of, set_for, accept_terms}
use accrue.Server.SignIn.{Platform, record_in_the_audit_log}
use accrue.Server.Tables.{Tables, Wallet}

-- The row of a wallet, where it has one.
abbrev pub row_of : Text → List Wallet → Option Wallet
row_of address wallets = find (λ wallet. same_text wallet.address address) wallets

abbrev pub has_a_row : Option Wallet → Bool
has_a_row none = false
has_a_row (some row) = true

abbrev changed : Bool → (Wallet → Wallet) → Option Wallet → Option Wallet
changed here change none = none
changed here change (some row) = some (if here then change row else row)

row_of-set_for :
    (address other : Text) (change : Wallet → Wallet) (wallets : List Wallet)
    → ((row : Wallet) → (change row).address ≡ row.address)
    → row_of other (set_for address change wallets)
      ≡ changed (same_text address other) change (row_of other wallets)
unfolding set_for
row_of-set_for address other change [] keeps = refl
row_of-set_for address other change (row ∷ wallets) keeps = ground (
  arith,
  keeps row,
  same_text_iff row.address address,
  same_text_iff row.address other,
  same_text_iff address other,
  row_of-set_for address other change wallets keeps,
)

wallets-record_in_the_audit_log :
    (platform : Platform) (actor : Text) (action : _) (version : Option ℕ) (tables : Tables)
    → (record_in_the_audit_log platform actor action version tables).wallets ≡ tables.wallets
unfolding record_in_the_audit_log
wallets-record_in_the_audit_log platform actor action version tables = ground arith

-- The columns that accepting the terms sets.
abbrev accepting : ℕ → ℕ → Wallet → Wallet
accepting version now row = record row {
  terms_version = some version;
  terms_accepted_at = some now;
}

-- Accepting the terms takes the current version only. A wallet with a row then stands as having
-- accepted them; the terms of other wallets, and what anyone acknowledged of the risks, stay.
pub accept_terms-Standing :
    (platform : Platform) (address other : Text) (version now : ℕ) (tables : Tables)
    → ((accept_terms platform address version now tables).0 ≡ (version == current_terms_version))
      × ((standing_of other
            (accept_terms platform address version now tables).1.wallets).terms_accepted
          ≡ (if (version == current_terms_version)
                && same_text address other
                && has_a_row (row_of other tables.wallets)
              then true
              else (standing_of other tables.wallets).terms_accepted))
      × ((standing_of other
            (accept_terms platform address version now tables).1.wallets).risks_acknowledged
          ≡ (standing_of other tables.wallets).risks_acknowledged)
unfolding accept_terms standing_of terms_are_current
accept_terms-Standing platform address other version now tables =
    elim (Bool-cases (version == current_terms_version)) [
      | inr another ↦
          (rw (accept_terms, another), rw (accept_terms, another), rw (accept_terms, another))
      | inl current ↦
          let after : (accept_terms platform address version now tables).1.wallets
              ≡ set_for address (accepting version now) tables.wallets =
            rw (accept_terms, current, wallets-record_in_the_audit_log) in
          let found =
            row_of-set_for address other (accepting version now) tables.wallets (λ row. refl) in
          (
            rw (accept_terms, current),
            rw (after, found) (ground (arith, current)),
            rw (after, found) (ground arith),
          )
    ]
