-- ===== src/Swap/Jupiter/Within.antt =====
-- The ceilings on the slippage and on the impact, and the floor of a quote.
use accrue.Base.{ℕ, ◌*◌, ◌/◌, ◌≤◌, ◌≡◌, refl, arith, ◌⊎◌, inl, inr, false, Option, none, some}
use accrue.Base.Int.{ℤ, pos, sub_ℕ, ◌≤ℤ◌}
use accrue.Swap.Jupiter.{QuoteResponse, at_most, minimum_of, is_past}
use accrue.Swap.Route.{
  RoundedNumber, whole, not_a_number, infinite, minus_infinite, less_the_slippage,
}

-- The slippage is within the ceiling, where there is one.
unfoldable pub IsWithin : Option ℕ → ℕ → Type 0
IsWithin none slippage = Unit
IsWithin (some ceiling) slippage = slippage ≤ ceiling

-- The impact is within the ceiling, where there is one and it is a number.
unfoldable pub ImpactIsWithin : Option ℕ → RoundedNumber → Type 0
ImpactIsWithin none impact = Unit
ImpactIsWithin (some ceiling) (whole impact) = impact ≤ℤ pos ceiling
ImpactIsWithin (some ceiling) not_a_number = Unit
ImpactIsWithin (some ceiling) infinite = ⊥
ImpactIsWithin (some ceiling) minus_infinite = Unit

-- The floor is the router's own, or else the quote less the slippage.
abbrev pub FloorIsOf : QuoteResponse → ℕ → ℕ → ℤ → Type 0
FloorIsOf response amount_out slippage floor =
    ((threshold : ℕ) × (response.other_amount_threshold ≡ some threshold) × (floor ≡ pos threshold))
    ⊎ ((response.other_amount_threshold ≡ none)
        × (floor ≡ sub_ℕ amount_out (amount_out * slippage / 10_000)))

pub at_most-IsWithin :
    (asked : ℕ) (ceiling : Option ℕ)
    → (at_most asked ceiling ≤ asked)
      × IsWithin ceiling (at_most asked ceiling)
      × ((at_most asked ceiling ≡ asked) ⊎ (ceiling ≡ some (at_most asked ceiling)))
unfolding IsWithin
at_most-IsWithin asked none = (omega arith, tt, inl (omega arith))
at_most-IsWithin asked (some ceiling) = (omega arith, omega arith, ground arith)

pub is_past-ImpactIsWithin :
    (ceiling : Option ℕ) (impact : RoundedNumber)
    → is_past ceiling impact ≡ false
    → ImpactIsWithin ceiling impact
unfolding is_past ImpactIsWithin
is_past-ImpactIsWithin none impact h = tt
is_past-ImpactIsWithin (some ceiling) (whole impact) h = ground arith
is_past-ImpactIsWithin (some ceiling) not_a_number h = tt
is_past-ImpactIsWithin (some ceiling) infinite h = cc
is_past-ImpactIsWithin (some ceiling) minus_infinite h = tt

pub minimum_of-FloorIsOf :
    (slippage amount_out : ℕ) (response : QuoteResponse) (threshold : Option ℕ)
    → response.other_amount_threshold ≡ threshold
    → FloorIsOf response amount_out slippage (minimum_of slippage amount_out response)
unfolding minimum_of less_the_slippage
minimum_of-FloorIsOf slippage amount_out response none h = inr (h, rw h refl)
minimum_of-FloorIsOf slippage amount_out response (some threshold) h = inl (threshold, h, rw h refl)
