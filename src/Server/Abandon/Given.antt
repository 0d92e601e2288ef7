-- ===== src/Server/Abandon/Given.antt =====
-- Which positions are given up.
use accrue.Base.{
  ℕ, suc, ◌+◌, ◌<◌, leb, ◌≡◌, ◌≢◌, ◌↔◌, ◌⊎◌, refl, sym, ap, ◌∙◌, arith, true, false, Bool-cases,
  Option-cases, inl, inr, Option, none, some, List, [], ◌∷◌, map, count_if,
}
use accrue.Base.Text.{Text, text, same_text, same_text_iff}
use accrue.Server.Abandon.{last_good_height, abandons, is_building, abandon_all}
use accrue.Server.Abandon.OnePass.{is_left, is_given_up, given_up, abandon_all-map}
use accrue.Server.Tables.{PositionStatus, PositionRow, StoredBuild, building, abandoned}

-- A height is past the last one of a build, which is 0 where none is stored.
abbrev pub IsPast : ℕ → Option ℕ → Type 0
IsPast height none = 0 < height
IsPast height (some last) = last < height

-- One of the builds opens a position and can land no more.
pub data HasDied (height : ℕ) (id : Text) : List StoredBuild → Type 0 where
  this :
      {build : StoredBuild} {builds : List StoredBuild}
      → build.kind ≡ text "open"
      → build.position_id ≡ some id
      → IsPast height build.blockhash_expires_at_slot
      → HasDied height id (build ∷ builds)
  later :
      {build : StoredBuild} {builds : List StoredBuild}
      → HasDied height id builds
      → HasDied height id (build ∷ builds)

-- How many positions were given up, and the rows before and after.
pub data AreGivenUp (height now : ℕ) (builds : List StoredBuild)
    : ℕ → List PositionRow → List PositionRow → Type 0 where
  nothing : AreGivenUp height now builds 0 [] []
  given :
      {n : ℕ} {row : PositionRow} {rows rows' : List PositionRow}
      → row.status ≡ building
      → HasDied height row.id builds
      → AreGivenUp height now builds n rows rows'
      → AreGivenUp height now builds
          (suc n)
          (row ∷ rows)
          (record row { status = abandoned; updated_at = now } ∷ rows')
  kept :
      {n : ℕ} {row : PositionRow} {rows rows' : List PositionRow}
      → (row.status ≢ building) ⊎ (¬ HasDied height row.id builds)
      → AreGivenUp height now builds n rows rows'
      → AreGivenUp height now builds n (row ∷ rows) (row ∷ rows')

last_good_height-IsPast :
    (height : ℕ) (stored : Option ℕ)
    → (leb height (last_good_height stored) ≡ false) ↔ IsPast height stored
last_good_height-IsPast height none = (λ h. ground arith, λ h. ground arith)
last_good_height-IsPast height (some last) = (λ h. ground arith, λ h. ground arith)

abandons-some :
    (height : ℕ) (build : StoredBuild) (id : Text)
    → (abandons height build ≡ some id) ↔ (
        (build.kind ≡ text "open")
        × (build.position_id ≡ some id)
        × IsPast height build.blockhash_expires_at_slot)
unfolding abandons
abandons-some height build id =
    let opens = same_text_iff build.kind (text "open") in
    let past = last_good_height-IsPast height build.blockhash_expires_at_slot in
    (
      λ h. elim (Bool-cases (same_text build.kind (text "open"))) [
        | inr other ↦ cc (rw other at h)
        | inl opening ↦
            elim (Bool-cases (leb height (last_good_height build.blockhash_expires_at_slot))) [
              | inl lives ↦ cc (rw (opening, lives) at h)
              | inr died ↦ (opens.0 opening, rw (opening, died) at h, past.0 died)
            ]
      ],
      λ h. rw (opens.1 h.0, past.1 h.2) h.1,
    )

left-HasDied :
    (height : ℕ) (builds : List StoredBuild) (id : Text)
    → is_left height builds id ≡ true
    → HasDied height id builds
left-HasDied height [] id h = cc
left-HasDied height (build ∷ builds) id h = elim (Option-cases (abandons height build)) [
  | inl keeps ↦ later (left-HasDied height builds id (rw (is_left, keeps) at h))
  | inr (other, leaves) ↦ elim (Bool-cases (same_text id other)) [
    | inl same ↦
        let is_id : abandons height build ≡ some id =
          leaves ∙ ap some (sym ((same_text_iff id other).0 same)) in
        let (opens, of_it, past) = (abandons-some height build id).0 is_id in this opens of_it past
    | inr differs ↦ later (left-HasDied height builds id (rw (is_left, leaves, differs) at h))
  ]
]

left_by_another :
    (height : ℕ) (build : StoredBuild) (builds : List StoredBuild) (id : Text)
    → is_left height builds id ≡ true
    → is_left height (build ∷ builds) id ≡ true
left_by_another height build builds id h = elim (Option-cases (abandons height build)) [
  | inl keeps ↦ rw (is_left, keeps) h
  | inr (other, leaves) ↦ rw (is_left, leaves, h) (ground arith)
]

HasDied-left :
    (height : ℕ) (id : Text) {builds : List StoredBuild}
    → HasDied height id builds
    → is_left height builds id ≡ true
HasDied-left height id (this {build} opens of_it past) =
    let is_id = (abandons-some height build id).1 (opens, of_it, past) in
    rw (is_left, is_id, (same_text_iff id id).1 refl) refl
HasDied-left height id (later {build} {builds} died) =
    left_by_another height build builds id (HasDied-left height id died)

is_building_iff : (status : PositionStatus) → (is_building status ≡ true) ↔ (status ≡ building)
unfolding is_building
is_building_iff building = (λ h. refl, λ h. refl)
is_building_iff status = (λ h. ground arith, λ h. ground arith)

-- Of the rows, those that one of the builds leaves and that are being built are given up.
rows-AreGivenUp :
    (height now : ℕ) (builds : List StoredBuild) (rows : List PositionRow)
    → AreGivenUp height now builds
        (count_if (is_given_up height builds) rows)
        rows
        (map (given_up height now builds) rows)
rows-AreGivenUp height now builds [] = nothing
rows-AreGivenUp height now builds (row ∷ rows) =
    let rest = rows-AreGivenUp height now builds rows in
    let n : ℕ = count_if (is_given_up height builds) rows in
    let same_count : 0 + n ≡ n = omega arith in
    let one_more : 1 + n ≡ suc n = omega arith in
    elim (Bool-cases (is_left height builds row.id)) [
      | inr stays ↦
          let alive : ¬ HasDied height row.id builds =
            λ died. cc (stays, HasDied-left height row.id died) in
          rw stays (rw same_count (kept (inr alive) rest))
      | inl leaves ↦ elim (Bool-cases (is_building row.status)) [
        | inr other ↦
            let is_other : row.status ≢ building =
              λ same. cc (other, (is_building_iff row.status).1 same) in
            rw (leaves, other) (rw same_count (kept (inl is_other) rest))
        | inl still ↦
            let died = left-HasDied height builds row.id leaves in
            rw (leaves, still)
              (rw one_more (given ((is_building_iff row.status).0 still) died rest))
      ]
    ]

-- A position is given up exactly when it is still being built and one of the builds that open it is
-- past its last height; it becomes abandoned as of now. Every other row stays as it was, and the
-- count is that of the positions given up.
pub abandon_all-AreGivenUp :
    (height now : ℕ) (builds : List StoredBuild) (rows : List PositionRow)
    → AreGivenUp height now builds
        (abandon_all height now builds rows).0
        rows
        (abandon_all height now builds rows).1
abandon_all-AreGivenUp height now builds rows =
    rw (abandon_all-map height now builds rows) (rows-AreGivenUp height now builds rows)
