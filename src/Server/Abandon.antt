-- ===== src/Server/Abandon.antt =====
-- apps/web/src/app/api/cron/abandon-builds/route.ts: the positions of builds that were never signed
-- are given up, and old buckets of the request limits are thrown away. The height of the chain and
-- the clock are arguments.
pub mod OnePass
pub mod Given
mod Examples
use accrue.Base.{
  ℕ, ◌+◌, ◌-◌, ltb, leb, Bool, true, false, not, ◌&&◌, Option, none, some, List, [], ◌∷◌, map,
  count_if, if◌then◌else◌,
}
use accrue.Base.Text.{Text, text, same_text}
use accrue.Server.Limits.{Bucket}
use accrue.Server.Tables.{PositionStatus, PositionRow, StoredBuild, building, abandoned}

abbrev pub an_hour_in_milliseconds : ℕ
an_hour_in_milliseconds = 3_600_000

-- The last height of a build, or 0.
abbrev pub last_good_height : Option ℕ → ℕ
last_good_height none = 0
last_good_height (some height) = height

-- The position of a build that opens one and that the chain takes no more.
unfoldable pub abandons : ℕ → StoredBuild → Option Text
abandons height build =
    if same_text build.kind (text "open")
      && not (leb height (last_good_height build.blockhash_expires_at_slot))
    then build.position_id
    else none

unfoldable pub is_building : PositionStatus → Bool
is_building building = true
is_building _ = false

-- The update of one position: how many rows it changed, and the rows.
unfoldable pub abandon_one : Text → ℕ → List PositionRow → ℕ × List PositionRow
unfolding is_building
abandon_one id now rows = (
  count_if (λ row. same_text row.id id && is_building row.status) rows,
  map
      (λ row.
        if same_text row.id id && is_building row.status
        then record row { status = abandoned; updated_at = now }
        else row)
      rows,
)

unfoldable pub abandon_all : ℕ → ℕ → List StoredBuild → List PositionRow → ℕ × List PositionRow
unfolding abandons abandon_one
abandon_all height now [] rows = (0, rows)
abandon_all height now (build ∷ builds) rows = elim (abandons height build) [
  | none ↦ abandon_all height now builds rows
  | some id ↦
      let (changed, rows') = abandon_one id now rows in
      let (later, rows'') = abandon_all height now builds rows' in (changed + later, rows'')
]

-- `delete … where window_start < now - an hour`
unfoldable pub keep_the_recent : ℕ → List Bucket → List Bucket
keep_the_recent now [] = []
keep_the_recent now (row ∷ rows) =
    let rest = keep_the_recent now rows in
    if ltb row.window_start (now - an_hour_in_milliseconds) then rest else row ∷ rest
