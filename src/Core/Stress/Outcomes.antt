-- ===== src/Core/Stress/Outcomes.antt =====
-- The three ends of a stress test: liquidated, protected, untouched.
use accrue.Base.{
  ℕ, ◌+◌, ◌-◌, ◌*◌, ◌/◌, ◌≤◌, ◌<◌, ◌≡◌, ◌⊎◌, refl, arith, leb, ◌==◌, ==_iff, Bool, true, false,
  Bool-cases, inl, inr,
}
use native.Mathlib.Nat.{le_trans, mul-le-mul_right, div-le_of_le-mul}
use accrue.Base.Division.{div-mul-le, le-div_iff}
use accrue.Core.Stress.{
  StressInputs, StressResult, fall_of, protect_after_the_fall, stress_with_collateral_left,
  stress_the_position,
}

-- A test ends before the guard can act: nothing is repaid, and the debt is at or over the
-- liquidation threshold of what the collateral is worth, unless that is nothing.
pub record IsLiquidated (i : StressInputs) (r : StressResult) : Type 0 where
  pub nothing_repaid : r.protect_amount ≡ 0
  pub debt_stands : r.debt_after ≡ i.debt
  pub over_the_threshold :
      (r.collateral_after ≡ 0)
      ⊎ (i.liquidation_threshold_bps * r.collateral_after ≤ i.debt * 10_000)

-- A test that the position comes through.
pub record IsSurvived (i : StressInputs) (r : StressResult) : Type 0 where
  pub debt_is_split : r.protect_amount + r.debt_after ≡ i.debt
  pub under_the_threshold : i.debt * 10_000 < i.liquidation_threshold_bps * r.collateral_after
  pub distance_is_the_rest :
      r.loan_to_value_after_bps + r.distance_to_liquidation_bps ≡ i.liquidation_threshold_bps
  pub some_distance : 0 < r.distance_to_liquidation_bps
  -- The guard repays nothing, or the position ends at or under its target.
  pub guarded : (r.protect_amount ≡ 0) ⊎ (r.loan_to_value_after_bps ≤ i.target_ltv_bps)

-- The guard's branch splits the debt, and repays nothing after a liquidation; where it repays, what
-- is left is at or under the target's share of the collateral.
protect_lem :
    (i : StressInputs) (c ltv : ℕ) (liquidated : Bool)
    → let (repaid, left) = protect_after_the_fall i c ltv liquidated in
      (repaid + left ≡ i.debt)
      × (liquidated ≡ true → repaid ≡ 0)
      × ((repaid ≡ 0) ⊎ (left ≤ c * i.target_ltv_bps / 10_000))
unfolding protect_after_the_fall
protect_lem i c ltv liquidated = (ground arith, λ h. ground arith, ground arith)

-- A loan to value is at or over a threshold exactly when the debt is.
module _ (i : StressInputs) (fall c : ℕ) (some_left : 0 < c) where
  abbrev result : StressResult
  result = stress_with_collateral_left i fall c

  left-IsLiquidated : result.liquidated_before_the_guard_could_act ≡ true → IsLiquidated i result
  unfolding stress_with_collateral_left
  left-IsLiquidated h =
      let ltv : ℕ = i.debt * 10_000 / c in
      let (split, none_after, _) = protect_lem i c ltv (leb i.liquidation_threshold_bps ltv) in
      let over : i.liquidation_threshold_bps ≤ ltv = ground arith in
      record {
        nothing_repaid = none_after h;
        debt_stands = omega (arith, split, none_after h);
        over_the_threshold =
            inr ((le-div_iff i.liquidation_threshold_bps (i.debt * 10_000) c some_left).0 over);
      }

  ratio_mono : (a b : ℕ) → a ≤ b → a * 10_000 / c ≤ b * 10_000 / c
  ratio_mono a b h =
      (le-div_iff (a * 10_000 / c) (b * 10_000) c some_left).1
        (le_trans (div-mul-le (a * 10_000) c) (mul-le-mul_right 10_000 h))

  ratio-le : (left target : ℕ) → left ≤ c * target / 10_000 → left * 10_000 / c ≤ target
  ratio-le left target h =
      div-le_of_le-mul c (le_trans (mul-le-mul_right 10_000 h) (div-mul-le (c * target) 10_000))

  left-IsSurvived : result.liquidated_before_the_guard_could_act ≡ false → IsSurvived i result
  unfolding stress_with_collateral_left
  left-IsSurvived h =
      let ltv : ℕ = i.debt * 10_000 / c in
      let (split, _, reached) = protect_lem i c ltv (leb i.liquidation_threshold_bps ltv) in
      let under : ltv < i.liquidation_threshold_bps = ground arith in
      let not_over : ¬ (i.liquidation_threshold_bps * c ≤ i.debt * 10_000) = λ k.
        omega (arith, (le-div_iff i.liquidation_threshold_bps (i.debt * 10_000) c some_left).1 k) in
      let final : result.loan_to_value_after_bps ≤ ltv =
        ratio_mono result.debt_after i.debt (omega (arith, split)) in
      record {
        debt_is_split = split;
        under_the_threshold = omega (arith, not_over);
        distance_is_the_rest = omega (arith, final);
        some_distance = omega (arith, final);
        guarded = elim reached [
          | inl e ↦ inl e
          | inr e ↦ inr (ratio-le result.debt_after i.target_ltv_bps e)
        ];
      }

-- A test reports a liquidation exactly where the guard comes too late, and else the position is
-- short of the threshold by the distance reported, brought to its target where the guard acts.
pub stress_the_position_lem :
    (i : StressInputs)
    → ((stress_the_position i).liquidated_before_the_guard_could_act ≡ true
        → IsLiquidated i (stress_the_position i))
      × ((stress_the_position i).liquidated_before_the_guard_could_act ≡ false
          → IsSurvived i (stress_the_position i))
unfolding stress_the_position
stress_the_position_lem i =
    elim (Bool-cases (i.collateral_value * (10_000 - fall_of i.fall_bps) / 10_000 == 0)) [
      | inl e ↦ rw e (
        λ h. record {
          nothing_repaid = refl;
          debt_stands = refl;
          over_the_threshold = inl ((==_iff _ 0).0 e);
        },
        λ h. absurd (ground arith),
      )
      | inr e ↦
          let some_left : 0 < i.collateral_value * (10_000 - fall_of i.fall_bps) / 10_000 =
            ground arith in
          rw e (left-IsLiquidated i _ _ some_left, left-IsSurvived i _ _ some_left)
    ]
