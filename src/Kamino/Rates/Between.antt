-- ===== src/Kamino/Rates/Between.antt =====
-- No rate is above the curve, and nobody earns more than is paid.
use native.Mathlib.Nat.{div-le_of_le-mul, div-lt_iff_lt-mul, mul-le-mul_left, mul-le-mul_right}
use accrue.Base.{
  ℕ, ◌+◌, ◌-◌, ◌*◌, ◌/◌, ◌≤◌, ◌<◌, leb, ◌==◌, ◌≡◌, arith, Bool-cases, inl, inr, List, [], ◌∷◌, All,
}
use accrue.Base.Int.{pos, ◌≤ℤ◌, sub_ℕ}
use accrue.Kamino.Rates.{
  utilisation_bps, usable_points, rate_between, rate_above, rate_at, borrow_rate_bps,
  supply_rate_bps, basis_points, percent, scaled_fraction_one,
}
use accrue.Kamino.Reserve.{BorrowCurvePoint, ReserveSnapshot}

abbrev pub IsUnder : ℕ → BorrowCurvePoint → Type 0
IsUnder most point = point.borrow_rate_bps ≤ most

usable_points-IsUnder :
    (most : ℕ) (points : List BorrowCurvePoint)
    → All (IsUnder most) points
    → All (IsUnder most) (usable_points points)
unfolding usable_points
usable_points-IsUnder most [] all = tt
usable_points-IsUnder most (point ∷ points) (under, all) =
    elim (Bool-cases (leb basis_points point.utilisation_bps)) [
      | inl full ↦ rw full (under, tt)
      | inr more ↦ rw more (under, usable_points-IsUnder most points all)
    ]

-- A weighed sum of two rates that are not above a bound.
weighed-le :
    (low high rest into span most : ℕ)
    → low ≤ most
    → high ≤ most
    → span ≡ rest + into
    → low * rest + high * into ≤ most * span
weighed-le low high rest into span most l h parts =
    rw parts (omega (arith, mul-le-mul_right rest l, mul-le-mul_right into h))

-- What is under the bound by less than a half rounds to the bound at most.
rounded-le :
    (weighed span most : ℕ)
    → 0 < span
    → weighed ≤ most * span
    → (2 * weighed + span) / (2 * span) ≤ most
rounded-le weighed span most positive h =
    let small : (2 * weighed + span) / (2 * span) < most + 1 =
      (div-lt_iff_lt-mul (omega arith)).1 (omega arith) in
    omega (arith, small)

rate_between-le :
    (below above : BorrowCurvePoint) (at most : ℕ)
    → below.borrow_rate_bps ≤ most
    → above.borrow_rate_bps ≤ most
    → below.utilisation_bps < at
    → at ≤ above.utilisation_bps
    → rate_between below above at ≤ most
unfolding rate_between
rate_between-le below above at most l h after upto =
    let span = above.utilisation_bps - below.utilisation_bps in
    let into = at - below.utilisation_bps in
    rounded-le (below.borrow_rate_bps * (span - into) + above.borrow_rate_bps * into) span most
      (omega arith)
      (weighed-le below.borrow_rate_bps above.borrow_rate_bps (span - into) into span most l h
        (omega arith))

rate_above-le :
    (at : ℕ) (below : BorrowCurvePoint) (points : List BorrowCurvePoint) (most : ℕ)
    → below.utilisation_bps < at
    → below.borrow_rate_bps ≤ most
    → All (IsUnder most) points
    → rate_above at below points ≤ most
unfolding rate_above
rate_above-le at below [] most after l all = l
rate_above-le at below (above ∷ points) most after l (h, all) =
    elim (Bool-cases (leb at above.utilisation_bps)) [
      | inr beyond ↦ rw beyond (rate_above-le at above points most (ground (arith, beyond)) h all)
      | inl upto ↦ elim (Bool-cases (leb above.utilisation_bps below.utilisation_bps)) [
        | inl back ↦ rw (upto, back) h
        | inr apart ↦
            rw (upto, apart) (rate_between-le below above at most l h after (ground (arith, upto)))
      ]
    ]

rate_at-le :
    (at : ℕ) (points : List BorrowCurvePoint) (most : ℕ)
    → All (IsUnder most) points
    → rate_at at points ≤ most
unfolding rate_at
rate_at-le at [] most all = omega arith
rate_at-le at (first ∷ points) most (l, all) = elim (Bool-cases (leb at first.utilisation_bps)) [
  | inl upto ↦ rw upto l
  | inr beyond ↦ rw beyond (rate_above-le at first points most (ground (arith, beyond)) l all)
]

share-le : (part whole : ℕ) → part ≤ whole → part * basis_points / whole ≤ basis_points
share-le part whole h = div-le_of_le-mul whole (mul-le-mul_right basis_points h)

utilisation_bps-le : (reserve : ReserveSnapshot) → utilisation_bps reserve ≤ basis_points
unfolding utilisation_bps
utilisation_bps-le reserve =
    let borrowed = reserve.liquidity_borrowed_scaled / scaled_fraction_one in
    let total = borrowed + reserve.liquidity_available_amount in
    elim (Bool-cases (total == 0)) [
      | inl nothing ↦ rw nothing (omega arith)
      | inr something ↦ rw something (share-le borrowed total (omega arith))
    ]

-- A share of a rate, less what is kept of it, is not above the rate.
earned-le :
    (rate share take : ℕ)
    → share ≤ basis_points
    → sub_ℕ (rate * share / basis_points) (rate * share / basis_points * take / percent) ≤ℤ pos rate
earned-le rate share take h =
    let paid : rate * share / basis_points ≤ rate =
      div-le_of_le-mul basis_points (omega (arith, mul-le-mul_left rate h)) in
    ground (arith, paid)

-- The rate that a borrower pays is not above the points of the curve, and a depositor does not earn
-- more than that.
pub rates-le :
    (reserve : ReserveSnapshot) (most : ℕ)
    → All (IsUnder most) reserve.borrow_rate_curve
    → (borrow_rate_bps reserve ≤ most) × (supply_rate_bps reserve ≤ℤ pos (borrow_rate_bps reserve))
unfolding borrow_rate_bps supply_rate_bps
rates-le reserve most all = (
  rate_at-le (utilisation_bps reserve) (usable_points reserve.borrow_rate_curve) most
      (usable_points-IsUnder most reserve.borrow_rate_curve all),
  earned-le (borrow_rate_bps reserve) (utilisation_bps reserve) reserve.protocol_take_rate_pct
      (utilisation_bps-le reserve),
)
