-- ===== src/Core/Guard/Target.antt =====
-- What the guard repays or borrows, against the target that it aims at.
use accrue.Base.{
  ℕ, ◌+◌, ◌-◌, ◌*◌, ◌/◌, ◌≤◌, ◌<◌, ◌≡◌, ◌↔◌, arith, Bool-cases, leb, ltb, ◌==◌, inl, inr, true,
  if◌then◌else◌, false,
}
use native.Mathlib.Nat.{le_trans, mul-le-mul_right, le_of_mul-le-mul_right, div-le_of_le-mul}
use accrue.Base.Division.{ceil_div, ceil_div-le_iff, le-div_iff, div-mul-le}
use accrue.Base.Outcome.{ok}
use accrue.Core.Money.Rounding.{IsLeast, IsGreatest, IsLeast-unique, IsGreatest-unique}
use accrue.Core.Guard.{
  value_allowed_at_target, weighted_value_as_real_value, repay_to_reach_target,
  borrow_to_reach_target, loan_to_value_bps,
}

-- A debt taken off what is allowed, or the other way round, stops at zero.
surplus : (a b : ℕ) → (if ltb b a then a - b else 0) ≡ a - b
surplus a b = ground arith

module _ (w factor r : ℕ) where
  weighted_up :
      (weighted_value_as_real_value w factor true ≡ ok r)
      ↔ ((0 < factor) × IsLeast (λ x. w * 100 ≤ x * factor) r)
  unfolding weighted_value_as_real_value
  weighted_up = (sound, complete)
    where
      least : 0 < factor → IsLeast (λ x. w * 100 ≤ x * factor) (ceil_div (w * 100) factor)
      least h x = ceil_div-le_iff x (w * 100) factor h

      sound :
          weighted_value_as_real_value w factor true ≡ ok r
          → (0 < factor) × IsLeast (λ x. w * 100 ≤ x * factor) r
      sound h =
          let positive : 0 < factor = ground arith in
          let same : ceil_div (w * 100) factor ≡ r = ground arith in
          (positive, λ x. rw (← same) (least positive x))

      complete :
          (0 < factor) × IsLeast (λ x. w * 100 ≤ x * factor) r
          → weighted_value_as_real_value w factor true ≡ ok r
      complete (positive, h) = ground (
        arith,
        IsLeast-unique (λ x. w * 100 ≤ x * factor) (ceil_div (w * 100) factor) r (least positive) h,
      )

  weighted_down :
      (weighted_value_as_real_value w factor false ≡ ok r)
      ↔ ((0 < factor) × IsGreatest (λ x. x * factor ≤ w * 100) r)
  unfolding weighted_value_as_real_value
  weighted_down = (sound, complete)
    where
      greatest : 0 < factor → IsGreatest (λ x. x * factor ≤ w * 100) (w * 100 / factor)
      greatest h x = le-div_iff x (w * 100) factor h

      sound :
          weighted_value_as_real_value w factor false ≡ ok r
          → (0 < factor) × IsGreatest (λ x. x * factor ≤ w * 100) r
      sound h =
          let positive : 0 < factor = ground arith in
          let same : w * 100 / factor ≡ r = ground arith in
          (positive, λ x. rw (← same) (greatest positive x))

      complete :
          (0 < factor) × IsGreatest (λ x. x * factor ≤ w * 100) r
          → weighted_value_as_real_value w factor false ≡ ok r
      complete (positive, h) = ground (
        arith,
        IsGreatest-unique (λ x. x * factor ≤ w * 100) (w * 100 / factor) r (greatest positive) h,
      )

-- Nothing but zero fits under zero.
zero_room : (factor r : ℕ) → 0 < factor → (r * factor ≤ 0) ↔ (r ≤ 0)
zero_room factor r positive = (
  λ k. le_of_mul-le-mul_right (le_trans k (omega arith)) positive,
  λ k. le_trans (mul-le-mul_right factor k) (omega arith),
)

module _ (debt allowed factor r : ℕ) where
  -- The greatest borrow under the room that is left, without the subtraction.
  abbrev RoomIsBorrowed : Type 0
  RoomIsBorrowed =
      (debt ≤ allowed → IsGreatest (λ x. debt * 100 + x * factor ≤ allowed * 100) r)
      × (allowed < debt → r ≡ 0)

  room_iff : 0 < factor → (IsGreatest (λ x. x * factor ≤ (allowed - debt) * 100) r) ↔ RoomIsBorrowed
  room_iff positive = (there, back)
    where
      there : IsGreatest (λ x. x * factor ≤ (allowed - debt) * 100) r → RoomIsBorrowed
      there h = (
        λ fits x. (λ k. omega (arith, (h x).0 k), λ k. (h x).1 (omega arith)),
        λ over.
            omega (arith, (zero_room factor r positive).0 (omega (arith, (h r).0 (omega arith)))),
      )

      back : RoomIsBorrowed → IsGreatest (λ x. x * factor ≤ (allowed - debt) * 100) r
      back h x = elim (Bool-cases (leb debt allowed)) [
        | inl e ↦
            let greatest = h.0 (ground arith) x in
            let fits : debt ≤ allowed = ground arith in
            (λ k. omega (arith, greatest.0 k), λ k. greatest.1 (omega arith))
        | inr e ↦
            let over : allowed < debt = ground arith in
            let r_zero = h.1 over in
            (
              λ k. omega (arith, (zero_room factor x positive).1 (omega arith)),
              λ k. omega (arith, (zero_room factor x positive).0 (omega arith)),
            )
      ]

module _ (debt deposited target factor r : ℕ) where
  -- What the guard repays is given for a borrow factor above zero, and is the least real value
  -- that, weighted by the factor, brings the debt to the value allowed at target or under it.
  pub repay_to_reach_target_lem : (repay_to_reach_target debt deposited target factor ≡ ok r) ↔ (
      (0 < factor)
      × IsLeast (λ x. debt * 100 ≤ x * factor + value_allowed_at_target deposited target * 100) r)
  unfolding repay_to_reach_target
  repay_to_reach_target_lem =
      let allowed : ℕ = value_allowed_at_target deposited target in
      let weighted = weighted_up (debt - allowed) factor r in
      rw (surplus debt allowed) (
        λ h.
            let (positive, least) = weighted.0 h in
            (positive, λ x. (λ k. omega (arith, (least x).0 k), λ k. (least x).1 (omega arith))),
        λ h. weighted.1 (h.0, λ x. (λ k. omega (arith, (h.1 x).0 k), λ k. (h.1 x).1 (omega arith))),
      )

  -- What the guard borrows is given for a borrow factor above zero. With room under the target it
  -- is the greatest real value that, weighted by the factor, keeps the debt at the value allowed
  -- or under it; with the debt above that it is nothing.
  pub borrow_to_reach_target_lem : (borrow_to_reach_target debt deposited target factor ≡ ok r) ↔ (
      (0 < factor)
      × (debt ≤ value_allowed_at_target deposited target
          → IsGreatest
              (λ x. debt * 100 + x * factor ≤ value_allowed_at_target deposited target * 100)
              r)
      × (value_allowed_at_target deposited target < debt → r ≡ 0))
  unfolding borrow_to_reach_target
  borrow_to_reach_target_lem =
      let allowed : ℕ = value_allowed_at_target deposited target in
      let weighted = weighted_down (allowed - debt) factor r in
      rw (surplus allowed debt) (
        λ h.
            let (positive, greatest) = weighted.0 h in
            let (fits, over) = (room_iff debt allowed factor r positive).0 greatest in
            (positive, fits, over),
        λ h. weighted.1 (h.0, (room_iff debt allowed factor r h.0).1 (h.1, h.2)),
      )

-- A debt at or under the value allowed reads as a loan to value at or under the target.
loan_to_value_bps-le :
    (debt deposited target : ℕ)
    → debt ≤ value_allowed_at_target deposited target
    → loan_to_value_bps debt deposited ≤ target
unfolding loan_to_value_bps value_allowed_at_target
loan_to_value_bps-le debt deposited target h = elim (Bool-cases (deposited == 0)) [
  | inl e ↦ rw e (omega arith)
  | inr e ↦
      let bound : debt * 10_000 ≤ deposited * target =
        le_trans (mul-le-mul_right 10_000 h) (div-mul-le (deposited * target) 10_000) in
      rw e (div-le_of_le-mul deposited bound)
]

-- Repaying what the guard works out, or more, leaves a loan to value at or under the target.
-- `after` is any adjusted debt that the weighted repayment leaves.
pub repay_to_reach_target_reaches :
    (debt deposited target factor r paid after : ℕ)
    → repay_to_reach_target debt deposited target factor ≡ ok r
    → r ≤ paid
    → after * 100 + paid * factor ≤ debt * 100
    → loan_to_value_bps after deposited ≤ target
repay_to_reach_target_reaches debt deposited target factor r paid after h more owed =
    let (_, least) = (repay_to_reach_target_lem debt deposited target factor r).0 h in
    loan_to_value_bps-le after deposited target (omega (arith, (least paid).0 more))

-- Borrowing what the guard works out, or less, from at or under the value allowed keeps the loan
-- to value at or under the target. `after` is any adjusted debt up to the weighted sum.
pub borrow_to_reach_target_stays :
    (debt deposited target factor r borrowed after : ℕ)
    → borrow_to_reach_target debt deposited target factor ≡ ok r
    → debt ≤ value_allowed_at_target deposited target
    → borrowed ≤ r
    → after * 100 ≤ debt * 100 + borrowed * factor
    → loan_to_value_bps after deposited ≤ target
borrow_to_reach_target_stays debt deposited target factor r borrowed after h fits less owed =
    let (_, greatest, _) = (borrow_to_reach_target_lem debt deposited target factor r).0 h in
    loan_to_value_bps-le after deposited target (omega (arith, (greatest fits borrowed).0 less))
