-- ===== src/Core/Money/Floor.antt =====
-- The floor under a permissionless swap, and whole units of the lending market's fractions.
use accrue.Base.{ℕ, ◌-◌, ◌*◌, ◌/◌, ◌^◌, ◌≤◌, ◌≡◌, refl, arith, ap, ltb, Bool-cases, inl, inr}
use native.Mathlib.Nat.{mul-le-mul_right, mul-le-mul_left}
use accrue.Base.Division.{div-mul-le, ceil_div, ceil_div-le_iff}
use accrue.Base.Outcome.{ok, first_returned}
use accrue.Core.Money.{
  SwapSide, largest_unsigned_64, usd_value_of_scaled, raw_amount_worth_rounding_down,
  minimum_output_the_oracle_allows, scaled_fraction_one, divide_rounding_up,
  scaled_fraction_to_whole_units_rounding_up, whole_units_to_scaled_fraction,
}
use accrue.Core.Money.Rounding.{raw_amount_worth_rounding_down_lem, IsLeast, IsLeast-unique}
use accrue.Core.Money.Worth.{usd_value_of_scaled-mul-le}

-- Three bounds, each under the next, multiplied out.
chain :
    (m f v a k p q x y : ℕ)
    → m * 10_000 ≤ f * k
    → f * q ≤ v * y
    → v * x ≤ a * p
    → m * 10_000 * (q * x) ≤ a * p * (k * y)
chain m f v a k p q x y h₁ h₂ h₃ =
    omega
      (arith, mul-le-mul_right (q * x) h₁, mul-le-mul_right (k * x) h₂, mul-le-mul_right (k * y) h₃)

-- A floor that is given asks for no more than the slippage allowance leaves of what the sale is
-- worth at the two oracle prices, fits the chain, and is given only for an allowance up to the
-- whole trade.
pub minimum_output_the_oracle_allows_lem :
    (selling : SwapSide) (bd bp s m : ℕ)
    → minimum_output_the_oracle_allows selling bd bp s ≡ ok m
    → (s ≤ 10_000)
      × (m ≤ largest_unsigned_64)
      × (m * 10_000 * (bp * 10 ^ selling.decimals)
          ≤ selling.raw_amount * selling.price_scaled * ((10_000 - s) * 10 ^ bd))
unfolding minimum_output_the_oracle_allows
minimum_output_the_oracle_allows_lem selling bd bp s m h =
    let (fair, fair_ok, rest) = first_returned _ (raw_amount_worth_rounding_down v bd bp) h in
    let (_, fits, greatest) = (raw_amount_worth_rounding_down_lem v bd bp fair).0 fair_ok in
    elim (Bool-cases (ltb 10_000 s)) [
      | inl e ↦ absurd (ground arith)
      | inr e ↦
          let m_is : fair * (10_000 - s) / 10_000 ≡ m = ground arith in
          let m_le : m * 10_000 ≤ fair * (10_000 - s) =
            rw (← m_is) (div-mul-le (fair * (10_000 - s)) 10_000) in
          let small : fair * (10_000 - s) ≤ fair * 10_000 = mul-le-mul_left fair (omega arith) in
          (
            ground arith,
            omega (arith, fits, m_le, small),
            chain m fair v selling.raw_amount (10_000 - s) selling.price_scaled bp
                (10 ^ selling.decimals) (10 ^ bd) m_le ((greatest fair).0 (omega arith))
                (usd_value_of_scaled-mul-le selling.raw_amount selling.decimals
                  selling.price_scaled),
          )
    ]
  where
    v : ℕ
    v = usd_value_of_scaled selling.raw_amount selling.decimals selling.price_scaled

-- Whole units go to a scaled fraction and come back, and any fraction is rounded up to the least
-- number of whole units that covers it.
pub whole_units_round_trip :
    (n scaled : ℕ)
    → (scaled_fraction_to_whole_units_rounding_up (whole_units_to_scaled_fraction n) ≡ ok n)
      × ((r : ℕ) × (scaled_fraction_to_whole_units_rounding_up scaled ≡ ok r)
          × IsLeast (λ x. scaled ≤ whole_units_to_scaled_fraction x) r)
unfolding scaled_fraction_to_whole_units_rounding_up whole_units_to_scaled_fraction
    divide_rounding_up
whole_units_round_trip n scaled = (
  ap ok (
      IsLeast-unique (λ x. n * one ≤ x * one) _ n
        (λ x. ceil_div-le_iff x (n * one) one (omega arith))
        (λ x. (λ k. mul-le-mul_right one k, λ k. omega (arith, k)))),
  (ceil_div scaled one, refl, λ x. ceil_div-le_iff x scaled one (omega arith)),
)
  where
    one : ℕ
    one = scaled_fraction_one
