-- ===== src/Server/Abandon/OnePass.antt =====
-- The loop over the builds as one pass over the positions.
use accrue.Base.{
  ℕ, ◌+◌, ◌≡◌, refl, ◌∙◌, arith, Bool, false, ◌&&◌, ◌||◌, Option-cases, inl, inr, none, some, List,
  [], ◌∷◌, map, count_if, if◌then◌else◌,
}
use accrue.Base.Text.{Text, same_text, same_text_iff}
use accrue.Server.Abandon.{abandons, is_building, abandon_one, abandon_all}
use accrue.Server.Tables.{PositionRow, StoredBuild, abandoned}

-- Whether one of the builds gives a position up.
abbrev pub is_left : ℕ → List StoredBuild → Text → Bool
is_left height [] id = false
is_left height (build ∷ builds) id =
    let rest = is_left height builds id in
    elim (abandons height build) [ none ↦ rest | some left ↦ same_text id left || rest ]

abbrev pub is_given_up : ℕ → List StoredBuild → PositionRow → Bool
is_given_up height builds row = is_left height builds row.id && is_building row.status

abbrev pub given_up : ℕ → ℕ → List StoredBuild → PositionRow → PositionRow
given_up height now builds row =
    if is_given_up height builds row
    then record row { status = abandoned; updated_at = now }
    else row

nothing_is_given_up :
    (height now : ℕ) (rows : List PositionRow)
    → (count_if (is_given_up height []) rows ≡ 0) × (map (given_up height now []) rows ≡ rows)
nothing_is_given_up height now [] = (refl, refl)
nothing_is_given_up height now (row ∷ rows) =
    let rest = nothing_is_given_up height now rows in ground (arith, rest)

one_more :
    (height now : ℕ) (build : StoredBuild) (builds : List StoredBuild) (id : Text)
    (rows : List PositionRow)
    → abandons height build ≡ some id
    → ((abandon_one id now rows).0
          + count_if (is_given_up height builds) (abandon_one id now rows).1
        ≡ count_if (is_given_up height (build ∷ builds)) rows)
      × (map (given_up height now builds) (abandon_one id now rows).1
          ≡ map (given_up height now (build ∷ builds)) rows)
unfolding abandon_one is_building
one_more height now build builds id [] h = (refl, refl)
one_more height now build builds id (row ∷ rows) h =
    let rest = one_more height now build builds id rows h in
    ground (arith, h, rest, same_text_iff row.id id, same_text_iff id row.id)

none_more :
    (height now : ℕ) (build : StoredBuild) (builds : List StoredBuild) (rows : List PositionRow)
    → abandons height build ≡ none
    → (count_if (is_given_up height builds) rows
        ≡ count_if (is_given_up height (build ∷ builds)) rows)
      × (map (given_up height now builds) rows ≡ map (given_up height now (build ∷ builds)) rows)
none_more height now build builds [] h = (refl, refl)
none_more height now build builds (row ∷ rows) h =
    let rest = none_more height now build builds rows h in ground (arith, h, rest)

-- The loop over the builds is one pass over the positions.
pub abandon_all-map :
    (height now : ℕ) (builds : List StoredBuild) (rows : List PositionRow)
    → abandon_all height now builds rows
      ≡ (count_if (is_given_up height builds) rows, map (given_up height now builds) rows)
unfolding abandon_all
abandon_all-map height now [] rows =
    let nothing = nothing_is_given_up height now rows in rw (nothing.0, nothing.1)
abandon_all-map height now (build ∷ builds) rows = elim (Option-cases (abandons height build)) [
  | inl keeps ↦
      let same = none_more height now build builds rows keeps in
      rw (abandon_all, keeps) (abandon_all-map height now builds rows ∙ rw (same.0, same.1))
  | inr (id, leaves) ↦
      let same = one_more height now build builds id rows leaves in
      rw (
        abandon_all,
        leaves,
        abandon_all-map height now builds (abandon_one id now rows).1,
        same.0,
        same.1,
      )
]
