-- ===== src/Server/Tables.antt =====
-- packages/db/src/schema: the tables that the routes read and write, each the list of its rows, in an
-- order that nothing relies on. A row has the columns that the modelled code reads or writes; an
-- instant is a number of milliseconds.
use accrue.Base.{ℕ, Option, List}
use accrue.Base.Text.{Text}
use accrue.Server.Limits.{Bucket}
use accrue.Server.Respond.{FailureCode}

-- `auth_nonces`, whose key is the nonce.
pub record Nonce : Type 0 where
  pub nonce : Text
  pub wallet_address : Text
  pub expires_at : ℕ
  pub used_at : Option ℕ

-- `sessions`, whose key is the identifier.
pub record Session : Type 0 where
  pub id : Text
  pub wallet_address : Text
  pub expires_at : ℕ
  pub revoked_at : Option ℕ
  pub user_agent_hash : Option Text

-- `wallets`, whose key is the address.
pub record Wallet : Type 0 where
  pub address : Text
  pub last_seen_at : ℕ
  pub terms_version : Option ℕ
  pub terms_accepted_at : Option ℕ
  pub risk_acknowledgement_version : Option ℕ
  pub risk_acknowledged_at : Option ℕ

pub data PositionStatus : Type 0 where
  building submitted open_position unwinding closed liquidated left failed expired abandoned :
      PositionStatus

-- The text of a reason: a code, or `the chain refused it`.
pub data FailureReason : Type 0 where
  a_code : FailureCode → FailureReason
  the_chain_refused_it : FailureReason

-- `positions`, whose key is the identifier.
pub record PositionRow : Type 0 where
  pub id : Text
  pub wallet_address : Text
  pub status : PositionStatus
  pub open_signatures : Option (List Text)
  pub failure_reason : Option FailureReason
  pub opened_at : Option ℕ
  pub updated_at : ℕ

-- `transaction_builds`, whose key is the identifier.
pub record StoredBuild : Type 0 where
  pub id : Text
  pub wallet_address : Text
  pub position_id : Option Text
  pub kind : Text
  pub messages : List Text
  pub signatures : Option (List Text)
  pub blockhash_expires_at_slot : Option ℕ
  pub created_at : ℕ
  pub submitted_at : Option ℕ

pub data AuditAction : Type 0 where
  sign_in terms_accepted build_refused_terms risk_acknowledged build_refused_acknowledgement
        build_refused_cap build_refused_liquidity build_refused_strategy ltv_override_accepted
        position_opened position_closed protect_by_owner kill_switch_hit :
      AuditAction

-- `audit_log`; of the details, the version that was accepted.
pub record AuditEntry : Type 0 where
  pub actor : Text
  pub action : AuditAction
  pub version : Option ℕ

pub record Tables : Type 0 where
  pub buckets : List Bucket
  pub nonces : List Nonce
  pub sessions : List Session
  pub wallets : List Wallet
  pub positions : List PositionRow
  pub builds : List StoredBuild
  pub audit_log : List AuditEntry
