-- ===== src/Core/Failure.antt =====
-- What the functions of packages/core/src throw: a constructor for each message.

-- The `what` of `requireInRange`.
pub data Asked : Type 0 where
  the_amount_the_oracle_price_asks_for the_amount_the_guard_would_sell : Asked

pub data Failure : Type 0 where
  does_not_fit_the_chain : Asked → Failure
  divided_by_a_zero_price : Failure
  the_oracle_reported_zero : Failure
  the_slippage_leaves_nothing : Failure
  a_borrow_factor_of_zero : Failure
