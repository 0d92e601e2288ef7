-- ===== src/Server/Abandon/Examples.antt =====
-- Two positions of which one's build has died, and the witness of the theorem.
use accrue.Base.Text.{same_text}
use accrue.Base.{ℕ, ◌≡◌, refl, none, some, List, [], ◌∷◌}
use accrue.Base.Text.{Text, text}
use accrue.Server.Abandon.{abandon_all}
use accrue.Server.Abandon.Given.{AreGivenUp, abandon_all-AreGivenUp}
use accrue.Server.Tables.{PositionRow, StoredBuild, building}

abbrev build_at : Text → ℕ → StoredBuild
build_at position height = record {
  id = text "build";
  wallet_address = text "wallet";
  position_id = some position;
  kind = text "open";
  messages = [];
  signatures = none;
  blockhash_expires_at_slot = some height;
  created_at = 1_000;
  submitted_at = none;
}

abbrev row_of : Text → PositionRow
row_of id = record {
  id = id;
  wallet_address = text "wallet";
  status = building;
  open_signatures = none;
  failure_reason = none;
  opened_at = none;
  updated_at = 1_000;
}

abbrev builds : List StoredBuild
builds = build_at (text "one") 100 ∷ build_at (text "two") 200 ∷ []

abbrev rows : List PositionRow
rows = row_of (text "one") ∷ row_of (text "two") ∷ []

one_is_given_up : (abandon_all 150 9_000 builds rows).0 ≡ 1
unfolding abandon_all same_text
one_is_given_up = refl

abandon_all-AreGivenUp_example :
    AreGivenUp 150 9_000 builds
      (abandon_all 150 9_000 builds rows).0
      rows
      (abandon_all 150 9_000 builds rows).1
abandon_all-AreGivenUp_example = abandon_all-AreGivenUp 150 9_000 builds rows
