-- ===== src/Core/Money/Worth.antt =====
-- Raw amounts and dollar values, there and back.
use accrue.Base.{ℕ, ◌+◌, ◌*◌, ◌^◌, ◌≤◌, ◌<◌, ◌≡◌, ◌↔◌, arith}
use native.Mathlib.Nat.{
  mul-le-mul_right, le_trans, le_of_mul-le-mul_right, lt_of_mul-lt-mul_left, lt-div-mul-add,
  one-le-pow,
}
use accrue.Base.Division.{div-mul-le, le-div_iff}
use accrue.Base.Outcome.{ok}
use accrue.Core.Money.{
  largest_unsigned_64, ten_to_the, usd_value_of_scaled, raw_amount_worth_rounding_up,
  raw_amount_worth_rounding_down,
}
use accrue.Core.Money.Rounding.{
  raw_amount_worth_rounding_up_lem, raw_amount_worth_rounding_down_lem,
}

pub pow_pos : (d : ℕ) → 0 < 10 ^ d
pow_pos d = one-le-pow d 10 (omega arith)

-- The value of `x` raw is at or over `v` exactly when `x` covers `v` at that price.
pub le-usd_value_of_scaled_iff :
    (v x d p : ℕ) → (v ≤ usd_value_of_scaled x d p) ↔ (v * 10 ^ d ≤ x * p)
unfolding usd_value_of_scaled ten_to_the
le-usd_value_of_scaled_iff v x d p = le-div_iff v (x * p) (10 ^ d) (pow_pos d)

pub usd_value_of_scaled-mul-le : (x d p : ℕ) → usd_value_of_scaled x d p * 10 ^ d ≤ x * p
unfolding usd_value_of_scaled ten_to_the
usd_value_of_scaled-mul-le x d p = div-mul-le (x * p) (10 ^ d)

usd_value_of_scaled-lt : (x d p : ℕ) → x * p < usd_value_of_scaled x d p * 10 ^ d + 10 ^ d
unfolding usd_value_of_scaled ten_to_the
usd_value_of_scaled-lt x d p = lt-div-mul-add (pow_pos d)

-- The two roundings of one value bracket it: the amounts are one unit apart at most, the lower
-- one is worth no more than the value and the upper one no less.
pub roundings_bracket_the_value :
    (v d p q r : ℕ)
    → raw_amount_worth_rounding_down v d p ≡ ok q
    → raw_amount_worth_rounding_up v d p ≡ ok r
    → (q ≤ r) × (r ≤ q + 1) × (usd_value_of_scaled q d p ≤ v) × (v ≤ usd_value_of_scaled r d p)
roundings_bracket_the_value v d p q r down up =
    let (positive, _, greatest) = (raw_amount_worth_rounding_down_lem v d p q).0 down in
    let (_, _, least) = (raw_amount_worth_rounding_up_lem v d p r).0 up in
    let above : ¬ ((q + 1) * p ≤ v * 10 ^ d) = λ k. omega (arith, (greatest (q + 1)).1 k) in
    let worth_least : v * 10 ^ d ≤ r * p = (least r).0 (omega arith) in
    let worth_greatest : q * p ≤ v * 10 ^ d = (greatest q).0 (omega arith) in
    (
      le_of_mul-le-mul_right (le_trans worth_greatest worth_least) positive,
      (least (q + 1)).1 (omega arith),
      le_of_mul-le-mul_right (le_trans (usd_value_of_scaled-mul-le q d p) worth_greatest)
          (pow_pos d),
      (le-usd_value_of_scaled_iff v r d p).1 worth_least,
    )

-- A raw amount whose unit is worth at least one unit of the scale comes back from its value.
pub usd_value_round_trip :
    (x d p : ℕ)
    → 10 ^ d ≤ p
    → x ≤ largest_unsigned_64
    → raw_amount_worth_rounding_up (usd_value_of_scaled x d p) d p ≡ ok x
usd_value_round_trip x d p h small =
    (raw_amount_worth_rounding_up_lem v d p x).1
      (le_trans (pow_pos d) h, small, λ y. (covers y, least y))
  where
    v : ℕ
    v = usd_value_of_scaled x d p

    covers : (y : ℕ) → x ≤ y → v * 10 ^ d ≤ y * p
    covers y k = le_trans (usd_value_of_scaled-mul-le x d p) (mul-le-mul_right p k)

    near : (y : ℕ) → v * 10 ^ d ≤ y * p → p * x < p * (y + 1)
    near y k = omega (arith, usd_value_of_scaled-lt x d p)

    least : (y : ℕ) → v * 10 ^ d ≤ y * p → x ≤ y
    least y k = omega (arith, lt_of_mul-lt-mul_left p (near y k))
