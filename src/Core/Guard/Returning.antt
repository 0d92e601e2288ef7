-- ===== src/Core/Guard/Returning.antt =====
-- When the guard's sale is worked out, and what can stop it.
use accrue.Base.{
  ℕ, ◌-◌, ◌*◌, ◌/◌, ◌<◌, ◌≡◌, refl, ◌⊎◌, inl, inr, Bool-cases, ltb, arith, lt→leb_false,
}
use accrue.Base.Division.{ceil_div}
use accrue.Base.Outcome.{Outcome, ok, throw, ◌>>=◌}
use accrue.Core.Failure.{Asked, Failure, does_not_fit_the_chain}
use accrue.Core.Money.{
  raw_amount_worth_rounding_up, raw_amount_worth_rounding_down, add_the_slippage_buffer,
  require_in_range, largest_unsigned_64, divide_rounding_up, ten_to_the,
}
use accrue.Core.Guard.{
  ProtectSale, protect_amounts, repay_to_reach_target, weighted_value_as_real_value,
  destination_to_sell_for_protect,
}

-- A call gives a result, or throws because an amount does not fit the chain.
abbrev pub ReturnsOrDoesNotFit : Outcome Failure ℕ → Type 0
ReturnsOrDoesNotFit m =
    ((r : ℕ) × (m ≡ ok r)) ⊎ ((what : Asked) × (m ≡ throw (does_not_fit_the_chain what)))

require_in_range_total : (v : ℕ) (what : Asked) → ReturnsOrDoesNotFit (require_in_range v what)
unfolding require_in_range
require_in_range_total v what = elim (Bool-cases (ltb largest_unsigned_64 v)) [
  | inl e ↦ inr (what, rw e)
  | inr e ↦ inl (v, rw e)
]

rounding_up_total : (v d p : ℕ) → 0 < p → ReturnsOrDoesNotFit (raw_amount_worth_rounding_up v d p)
unfolding raw_amount_worth_rounding_up divide_rounding_up
rounding_up_total v d p h =
    rw (lt→leb_false 0 p h) (require_in_range_total (ceil_div (v * ten_to_the d) p) _)

rounding_down_total :
    (v d p : ℕ) → 0 < p → ReturnsOrDoesNotFit (raw_amount_worth_rounding_down v d p)
unfolding raw_amount_worth_rounding_down
rounding_down_total v d p h =
    rw (lt→leb_false 0 p h) (require_in_range_total (v * ten_to_the d / p) _)

buffer_total : (a s : ℕ) → s < 10_000 → ReturnsOrDoesNotFit (add_the_slippage_buffer a s)
unfolding add_the_slippage_buffer divide_rounding_up
buffer_total a s h =
    rw (lt→leb_false s 10_000 h, lt→leb_false 0 (10_000 - s) (omega arith))
      (require_in_range_total (ceil_div (a * 10_000) (10_000 - s)) _)

-- A step that gives a result or does not fit, before a rest that does.
bind_total :
    (m : Outcome Failure ℕ) (f : ℕ → Outcome Failure ℕ)
    → ReturnsOrDoesNotFit m
    → ((r : ℕ) → ReturnsOrDoesNotFit (f r))
    → ReturnsOrDoesNotFit (m >>= f)
bind_total m f (inl (r, e)) h = rw e (h r)
bind_total m f (inr (what, e)) h = inr (what, rw e)

-- With a borrow factor and two prices above zero and an allowance that leaves something of the
-- trade, the guard works out a sale, or finds that an amount on the way does not fit the chain.
pub destination_to_sell_for_protect_total :
    (sale : ProtectSale)
    → 0 < sale.borrow_factor_pct
    → 0 < sale.usdc_price_scaled
    → 0 < sale.destination_price_scaled
    → sale.max_slippage_bps < 10_000
    → ReturnsOrDoesNotFit (destination_to_sell_for_protect sale)
unfolding destination_to_sell_for_protect protect_amounts repay_to_reach_target
    weighted_value_as_real_value
destination_to_sell_for_protect_total sale factor usdc destination slippage =
    rw (lt→leb_false 0 sale.borrow_factor_pct factor) (
      bind_total _ _ (rounding_up_total _ _ _ usdc) λ repay.
        bind_total _ _ (rounding_down_total _ _ _ usdc) λ priced.
          bind_total _ _ (rounding_up_total _ _ _ destination)
            λ oracle. bind_total _ _ (buffer_total oracle _ slippage) λ buffered. inl (_, refl))
