-- ===== src/Core/Money/Rounding.antt =====
-- Each rounding of money.ts is the best whole amount on its side.
use accrue.Base.{
  ℕ, ◌-◌, ◌*◌, ◌/◌, ◌^◌, ◌≤◌, ◌<◌, ◌≡◌, ◌↔◌, arith, Bool-cases, leb, inl, inr, if◌then◌else◌,
}
use accrue.Base.Division.{ceil_div, ceil_div-le_iff, le-div_iff}
use accrue.Base.Outcome.{Outcome, ok, throw, ◌>>=◌}
use accrue.Core.Failure.{Asked, the_amount_the_guard_would_sell, Failure, divided_by_a_zero_price}
use accrue.Core.Money.{
  largest_unsigned_64, require_in_range, divide_rounding_up, ten_to_the,
  raw_amount_worth_rounding_up, raw_amount_worth_rounding_down, add_the_slippage_buffer,
}

-- `r` is the least amount that satisfies `Enough`, which larger amounts satisfy too.
abbrev pub IsLeast : (ℕ → Type 0) → ℕ → Type 0
IsLeast Enough r = (x : ℕ) → (r ≤ x) ↔ Enough x

-- `r` is the greatest amount that satisfies `Allowed`.
abbrev pub IsGreatest : (ℕ → Type 0) → ℕ → Type 0
IsGreatest Allowed r = (x : ℕ) → (x ≤ r) ↔ Allowed x

pub IsLeast-unique : (P : ℕ → Type 0) (r s : ℕ) → IsLeast P r → IsLeast P s → r ≡ s
IsLeast-unique P r s h k =
    omega (arith, (h s).1 ((k s).0 (omega arith)), (k r).1 ((h r).0 (omega arith)))

pub IsGreatest-unique : (P : ℕ → Type 0) (r s : ℕ) → IsGreatest P r → IsGreatest P s → r ≡ s
IsGreatest-unique P r s h k =
    omega (arith, (h s).1 ((k s).0 (omega arith)), (k r).1 ((h r).0 (omega arith)))

pub require_in_range-ok :
    (v : ℕ) (what : Asked) (r : ℕ)
    → (require_in_range v what ≡ ok r) ↔ ((v ≡ r) × (v ≤ largest_unsigned_64))
unfolding require_in_range
require_in_range-ok v what r = (λ h. ground arith, λ h. ground arith)

-- The quotient rounded up and checked, whatever is divided.
abbrev checked_up : ℕ → ℕ → Asked → Outcome Failure ℕ
checked_up n d what = do quotient ← divide_rounding_up n d; require_in_range quotient what

-- The quotient rounded down and checked.
abbrev checked_down : ℕ → ℕ → Asked → Outcome Failure ℕ
checked_down n d what =
    if leb d 0 then throw divided_by_a_zero_price else require_in_range (n / d) what

module _ (n d : ℕ) (what : Asked) (r : ℕ) where
  checked_up_sound :
      checked_up n d what ≡ ok r → (0 < d) × (r ≤ largest_unsigned_64) × IsLeast (λ x. n ≤ x * d) r
  unfolding divide_rounding_up
  checked_up_sound h = elim (Bool-cases (leb d 0)) [
    | inl e ↦ ground arith
    | inr e ↦
        let fits = (require_in_range-ok (ceil_div n d) what r).0 (ground arith) in
        let positive : 0 < d = ground arith in
        (
          positive,
          omega (arith, fits.0, fits.1),
          λ x. rw (← fits.0) (ceil_div-le_iff x n d positive),
        )
  ]

  checked_up_complete :
      (0 < d) × (r ≤ largest_unsigned_64) × IsLeast (λ x. n ≤ x * d) r → checked_up n d what ≡ ok r
  unfolding divide_rounding_up
  checked_up_complete (positive, small, least) =
      ground (arith, same, (require_in_range-ok (ceil_div n d) what r).1)
    where
      same : ceil_div n d ≡ r
      same =
          IsLeast-unique (λ x. n ≤ x * d) (ceil_div n d) r (λ x. ceil_div-le_iff x n d positive)
            least

  checked_down_sound :
      checked_down n d what ≡ ok r
      → (0 < d) × (r ≤ largest_unsigned_64) × IsGreatest (λ x. x * d ≤ n) r
  checked_down_sound h = elim (Bool-cases (leb d 0)) [
    | inl e ↦ ground arith
    | inr e ↦
        let fits = (require_in_range-ok (n / d) what r).0 (ground arith) in
        let positive : 0 < d = ground arith in
        (positive, omega (arith, fits.0, fits.1), λ x. rw (← fits.0) (le-div_iff x n d positive))
  ]

  checked_down_complete :
      (0 < d) × (r ≤ largest_unsigned_64) × IsGreatest (λ x. x * d ≤ n) r
      → checked_down n d what ≡ ok r
  checked_down_complete (positive, small, greatest) =
      ground (arith, same, (require_in_range-ok (n / d) what r).1)
    where
      same : n / d ≡ r
      same = IsGreatest-unique (λ x. x * d ≤ n) (n / d) r (λ x. le-div_iff x n d positive) greatest

-- Rounding up gives `r` exactly when the price is not zero, `r` fits the chain, and `r` is the
-- least raw amount that is worth the value.
pub raw_amount_worth_rounding_up_lem :
    (v d p r : ℕ)
    → (raw_amount_worth_rounding_up v d p ≡ ok r)
      ↔ ((0 < p) × (r ≤ largest_unsigned_64) × IsLeast (λ x. v * 10 ^ d ≤ x * p) r)
unfolding raw_amount_worth_rounding_up ten_to_the
raw_amount_worth_rounding_up_lem v d p r =
    (checked_up_sound (v * 10 ^ d) p _ r, checked_up_complete (v * 10 ^ d) p _ r)

-- Rounding down gives `r` exactly when the price is not zero, `r` fits the chain, and `r` is the
-- greatest raw amount that is worth no more than the value.
pub raw_amount_worth_rounding_down_lem :
    (v d p r : ℕ)
    → (raw_amount_worth_rounding_down v d p ≡ ok r)
      ↔ ((0 < p) × (r ≤ largest_unsigned_64) × IsGreatest (λ x. x * p ≤ v * 10 ^ d) r)
unfolding raw_amount_worth_rounding_down ten_to_the
raw_amount_worth_rounding_down_lem v d p r =
    (checked_down_sound (v * 10 ^ d) p _ r, checked_down_complete (v * 10 ^ d) p _ r)

-- The slippage buffer gives `r` exactly when the allowance leaves something of the trade, `r` fits
-- the chain, and `r` is the least amount of which the part that is left covers the amount asked.
pub add_the_slippage_buffer_lem :
    (a s r : ℕ)
    → (add_the_slippage_buffer a s ≡ ok r)
      ↔ ((s < 10_000) × (r ≤ largest_unsigned_64) × IsLeast (λ x. a * 10_000 ≤ x * (10_000 - s)) r)
unfolding add_the_slippage_buffer
add_the_slippage_buffer_lem a s r = (sound, complete)
  where
    sound :
        add_the_slippage_buffer a s ≡ ok r
        → (s < 10_000) × (r ≤ largest_unsigned_64) × IsLeast (λ x. a * 10_000 ≤ x * (10_000 - s)) r
    sound h = elim (Bool-cases (leb 10_000 s)) [
      | inl e ↦ ground arith
      | inr e ↦
          let (positive, fits, least) =
            checked_up_sound (a * 10_000) (10_000 - s) the_amount_the_guard_would_sell r
              (rw e at h) in
          (omega arith, fits, least)
    ]

    complete :
        (s < 10_000) × (r ≤ largest_unsigned_64) × IsLeast (λ x. a * 10_000 ≤ x * (10_000 - s)) r
        → add_the_slippage_buffer a s ≡ ok r
    complete (small, fits, least) = elim (Bool-cases (leb 10_000 s)) [
      | inl e ↦ ground arith
      | inr e ↦ rw e (
          checked_up_complete (a * 10_000) (10_000 - s) the_amount_the_guard_would_sell r
            (omega arith, fits, least))
    ]
