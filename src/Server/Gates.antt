-- ===== src/Server/Gates.antt =====
-- apps/web/src/server/gates.ts: what a wallet has accepted. The writing of an entry of the audit log is in
-- Server/SignIn.

pub mod Standing
mod Examples
use accrue.Base.{
  ℕ, ◌==◌, Bool, true, false, not, Option, none, some, List, map, find, if◌then◌else◌,
}
use accrue.Base.Text.{Text, same_text}
use accrue.Core.Freshness.{
  current_terms_version, current_risk_acknowledgement_version, terms_are_current,
  acknowledgement_is_current,
}
use accrue.Server.SignIn.{Platform, record_in_the_audit_log}
use accrue.Server.Tables.{Tables, Wallet, AuditAction, terms_accepted, risk_acknowledged}

pub record WalletStanding : Type 0 where
  pub address : Text
  pub terms_version : Option ℕ
  pub terms_accepted : Bool
  pub risk_acknowledgement_version : Option ℕ
  pub risks_acknowledged : Bool

-- The columns of the row that was found, where one was.
abbrev terms_of : Option Wallet → Option ℕ
terms_of none = none
terms_of (some row) = row.terms_version

abbrev risks_of : Option Wallet → Option ℕ
risks_of none = none
risks_of (some row) = row.risk_acknowledgement_version

unfoldable pub standing_of : Text → List Wallet → WalletStanding
unfolding terms_are_current acknowledgement_is_current
standing_of address wallets =
    let row = find (λ wallet. same_text wallet.address address) wallets in
    record {
      address = address;
      terms_version = terms_of row;
      terms_accepted = terms_are_current (terms_of row);
      risk_acknowledgement_version = risks_of row;
      risks_acknowledged = acknowledgement_is_current (risks_of row);
    }

-- `update wallets set … where address = …`
unfoldable pub set_for : Text → (Wallet → Wallet) → List Wallet → List Wallet
set_for address change wallets =
    map (λ row. if same_text row.address address then change row else row) wallets

module _ (platform : Platform) where
  unfoldable pub accept_terms : Text → ℕ → ℕ → Tables → Bool × Tables
  unfolding set_for record_in_the_audit_log
  accept_terms address version now tables =
      if not (version == current_terms_version) then (false, tables) else (
        true,
        record_in_the_audit_log platform address AuditAction.terms_accepted (some version)
            (record tables {
              wallets =
                  set_for address
                    (λ row. record row {
                      terms_version = some version;
                      terms_accepted_at = some now;
                    })
                    tables.wallets;
            }),
      )

  unfoldable pub acknowledge_risks : Text → ℕ → ℕ → Tables → Bool × Tables
  unfolding set_for record_in_the_audit_log
  acknowledge_risks address version now tables =
      if not (version == current_risk_acknowledgement_version) then (false, tables) else (
        true,
        record_in_the_audit_log platform address risk_acknowledged (some version) (record tables {
          wallets =
              set_for address
                (λ row. record row {
                  risk_acknowledgement_version = some version;
                  risk_acknowledged_at = some now;
                })
                tables.wallets;
        }),
      )
