-- ===== src/Core/TopUp/Room.antt =====
-- A top up never borrows past the target, and keeps to it when the price has moved a little.
use accrue.Base.{
  ℕ, ◌+◌, ◌-◌, ◌*◌, ◌/◌, ◌≤◌, ◌≡◌, ◌⊎◌, ◌↔◌, refl, arith, ◌==◌, Bool, true, false, Bool-cases, inl,
  inr, if◌then◌else◌,
}
use native.Mathlib.Nat.{le_trans, mul-le-mul_right, div-le_of_le-mul}
use accrue.Base.Division.{div-mul-le, le-div_iff}
use accrue.Core.TopUp.{
  valued_for_borrowing, the_borrow_to_ask_for, a_cent_scaled, PositionNow, borrow_for_added_value,
  loan_to_value_bps_after, size_a_top_up,
}

-- What the target allows against some collateral.
abbrev pub allowed_against : ℕ → ℕ → ℕ
allowed_against collateral target = collateral * target / 10_000

-- What is asked for is the room less a cent at least, and less a tenth of a percent of the room,
-- or nothing, which is asked for only when the margin takes the whole room.
pub the_borrow_to_ask_for_lem :
    (room : ℕ)
    → let ask = the_borrow_to_ask_for room in
      ((ask + a_cent_scaled ≤ room) × (ask + room * 10 / 10_000 ≤ room))
      ⊎ ((ask ≡ 0) × ((room ≤ a_cent_scaled) ⊎ (room ≤ room * 10 / 10_000)))
unfolding the_borrow_to_ask_for
the_borrow_to_ask_for_lem room = ground arith

the_borrow_to_ask_for-le : (room : ℕ) → the_borrow_to_ask_for room ≤ room
unfolding the_borrow_to_ask_for
the_borrow_to_ask_for-le room = ground arith

-- The loan to value is at or under the target when the debt is at or under what is allowed.
loan_to_value_bps_after-le :
    (collateral debt target : ℕ)
    → debt ≤ allowed_against collateral target
    → loan_to_value_bps_after collateral debt ≤ target
unfolding loan_to_value_bps_after
loan_to_value_bps_after-le collateral debt target h = elim (Bool-cases (collateral == 0)) [
  | inl e ↦ rw e (omega arith)
  | inr e ↦
      let bound : debt * 10_000 ≤ collateral * target =
        le_trans (mul-le-mul_right 10_000 h) (div-mul-le (collateral * target) 10_000) in
      rw e (div-le_of_le-mul collateral bound)
]

valued_for_borrowing-le : (held : ℕ) → valued_for_borrowing held ≤ held
unfolding valued_for_borrowing
valued_for_borrowing-le held = omega arith

valued-le :
    (held counted : ℕ) → held * 9_900 ≤ counted * 10_000 → valued_for_borrowing held ≤ counted
unfolding valued_for_borrowing
valued-le held counted h = omega arith

allowed_against_mono :
    (c d target : ℕ) → c ≤ d → allowed_against c target ≤ allowed_against d target
allowed_against_mono c d target h =
    (le-div_iff (c * target / 10_000) (d * target) 10_000 (omega arith)).1
      (le_trans (div-mul-le (c * target) 10_000) (mul-le-mul_right target h))

-- The collateral as a top up counts it.
abbrev counted_at : PositionNow → ℕ → Bool → ℕ
counted_at p added leave =
    if leave
    then valued_for_borrowing (p.collateral_value_scaled + added)
    else p.collateral_value_scaled + added

counted_at-le :
    (p : PositionNow) (added : ℕ) (leave : Bool)
    → counted_at p added leave ≤ p.collateral_value_scaled + added
counted_at-le p added true = valued_for_borrowing-le (p.collateral_value_scaled + added)
counted_at-le p added false = omega arith

borrow_for_added_value-eq :
    (p : PositionNow) (added : ℕ) (leave : Bool)
    → borrow_for_added_value p added leave
      ≡ allowed_against (counted_at p added leave) p.target_ltv_bps - p.adjusted_debt_value_scaled
unfolding borrow_for_added_value
borrow_for_added_value-eq p added true = ground arith
borrow_for_added_value-eq p added false = ground arith

-- The borrow is at most the room under the collateral as it is counted.
borrow-le :
    (p : PositionNow) (added : ℕ) (leave : Bool)
    → (size_a_top_up p added leave).borrow_value_scaled
      ≤ allowed_against (counted_at p added leave) p.target_ltv_bps - p.adjusted_debt_value_scaled
unfolding size_a_top_up
borrow-le p added true = omega (
  arith,
  borrow_for_added_value-eq p added true,
  the_borrow_to_ask_for-le (borrow_for_added_value p added true),
)
borrow-le p added false = omega (arith, borrow_for_added_value-eq p added false)

debt_after-eq :
    (p : PositionNow) (added : ℕ) (leave : Bool)
    → (size_a_top_up p added leave).debt_value_after_scaled
      ≡ p.adjusted_debt_value_scaled + (size_a_top_up p added leave).borrow_value_scaled
unfolding size_a_top_up
debt_after-eq p added leave = refl

-- The debt after a top up stays under what is allowed against any collateral that allows the debt
-- before it and is worth what was counted.
debt_after-le :
    (p : PositionNow) (added : ℕ) (leave : Bool) (worth : ℕ)
    → p.adjusted_debt_value_scaled ≤ allowed_against worth p.target_ltv_bps
    → counted_at p added leave ≤ worth
    → (size_a_top_up p added leave).debt_value_after_scaled ≤ allowed_against worth p.target_ltv_bps
debt_after-le p added leave worth before counted = omega (
  arith,
  debt_after-eq p added leave,
  borrow-le p added leave,
  allowed_against_mono (counted_at p added leave) worth p.target_ltv_bps counted,
)

-- A top up of a position that the target allows more against, or just as much, lands at or under
-- the target, with or without room left.
pub size_a_top_up_under_target :
    (p : PositionNow) (added : ℕ) (leave : Bool)
    → p.adjusted_debt_value_scaled
      ≤ allowed_against (p.collateral_value_scaled + added) p.target_ltv_bps
    → (size_a_top_up p added leave).loan_to_value_after_bps ≤ p.target_ltv_bps
unfolding size_a_top_up
size_a_top_up_under_target p added leave h =
    loan_to_value_bps_after-le (p.collateral_value_scaled + added) _ p.target_ltv_bps (
      debt_after-le p added leave (p.collateral_value_scaled + added) h
        (counted_at-le p added leave))

-- Sized with room left, a top up lands at or under the target also when the market counts the
-- collateral at as little as ninety-nine hundredths of what the screen read, as long as that
-- collateral still allows the debt before the top up.
pub size_a_top_up_survives_a_fall :
    (p : PositionNow) (added counted : ℕ)
    → p.adjusted_debt_value_scaled ≤ allowed_against counted p.target_ltv_bps
    → (p.collateral_value_scaled + added) * 9_900 ≤ counted * 10_000
    → loan_to_value_bps_after counted (size_a_top_up p added true).debt_value_after_scaled
      ≤ p.target_ltv_bps
size_a_top_up_survives_a_fall p added counted before fell =
    loan_to_value_bps_after-le counted _ p.target_ltv_bps (
      debt_after-le p added true counted before
        (valued-le (p.collateral_value_scaled + added) counted fell))

-- A position with no room under the target borrows nothing: its debt is as it was.
pub size_a_top_up_over_target :
    (p : PositionNow) (added : ℕ) (leave : Bool)
    → allowed_against (p.collateral_value_scaled + added) p.target_ltv_bps
      ≤ p.adjusted_debt_value_scaled
    → ((size_a_top_up p added leave).borrow_value_scaled ≡ 0)
      × ((size_a_top_up p added leave).debt_value_after_scaled ≡ p.adjusted_debt_value_scaled)
size_a_top_up_over_target p added leave over = omega (
  arith,
  debt_after-eq p added leave,
  borrow-le p added leave,
  allowed_against_mono (counted_at p added leave) (p.collateral_value_scaled + added)
      p.target_ltv_bps (counted_at-le p added leave),
)

-- Without room left, the borrow is the greatest that the target allows: with room, it is the whole
-- of the room.
pub size_a_top_up_fills_the_room :
    (p : PositionNow) (added x : ℕ)
    → p.adjusted_debt_value_scaled
      ≤ allowed_against (p.collateral_value_scaled + added) p.target_ltv_bps
    → (x ≤ (size_a_top_up p added false).borrow_value_scaled) ↔ (
        (p.adjusted_debt_value_scaled + x) * 10_000
        ≤ (p.collateral_value_scaled + added) * p.target_ltv_bps)
unfolding size_a_top_up
size_a_top_up_fills_the_room p added x before =
    let room = borrow_for_added_value-eq p added false in
    let iff =
      le-div_iff (p.adjusted_debt_value_scaled + x)
        ((p.collateral_value_scaled + added) * p.target_ltv_bps) 10_000 (omega arith) in
    (λ k. iff.0 (omega (arith, room)), λ k. omega (arith, room, iff.1 k))
