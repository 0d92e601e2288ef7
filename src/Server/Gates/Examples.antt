-- ===== src/Server/Gates/Examples.antt =====
-- A wallet that accepts the terms, and the witness of the theorem.
use accrue.Base.{◌==◌, ◌≡◌, refl, true, ◌&&◌, none, [], ◌∷◌, if◌then◌else◌}
use accrue.Base.Text.{text, same_text}
use accrue.Core.Freshness.{current_terms_version}
use accrue.Server.Gates.{standing_of, accept_terms}
use accrue.Server.Gates.Standing.{has_a_row, row_of, accept_terms-Standing}
use accrue.Server.SignIn.{Platform}
use accrue.Server.Tables.{Tables}

abbrev platform : Platform
platform = record {
  environment = record { variable = λ name. none; finite_number = λ name. none };
  in_production = true;
  is_address = λ value. true;
  to_iso_string = λ now. text "2026-01-01T00:00:00.000Z";
  fingerprint_of = λ value. value;
  signed_by = λ wallet signature message. none;
  takes_the_entry = λ entry. true;
}

abbrev tables : Tables
tables = record {
  buckets = [];
  nonces = [];
  sessions = [];
  wallets =
      record {
        address = text "wallet";
        last_seen_at = 1_000;
        terms_version = none;
        terms_accepted_at = none;
        risk_acknowledgement_version = none;
        risk_acknowledged_at = none;
      }
      ∷ [];
  positions = [];
  builds = [];
  audit_log = [];
}

stands_accepted :
    (standing_of
      (text "wallet")
      (accept_terms platform (text "wallet") 1 2_000 tables).1.wallets).terms_accepted
    ≡ true
unfolding standing_of accept_terms same_text
stands_accepted = refl

accept_terms-Standing_example :
    ((accept_terms platform (text "wallet") 1 2_000 tables).0 ≡ (1 == current_terms_version))
    × ((standing_of
          (text "wallet")
          (accept_terms platform (text "wallet") 1 2_000 tables).1.wallets).terms_accepted
        ≡ (if (1 == current_terms_version)
              && same_text (text "wallet") (text "wallet")
              && has_a_row (row_of (text "wallet") tables.wallets)
            then true
            else (standing_of (text "wallet") tables.wallets).terms_accepted))
    × ((standing_of
          (text "wallet")
          (accept_terms platform (text "wallet") 1 2_000 tables).1.wallets).risks_acknowledged
        ≡ (standing_of (text "wallet") tables.wallets).risks_acknowledged)
accept_terms-Standing_example =
    accept_terms-Standing platform (text "wallet") (text "wallet") 1 2_000 tables
