-- ===== src/Core/Guard/Leaving.antt =====
-- The signals on which the lending market hands a position back.
use accrue.Base.{ℕ, ◌+◌, ◌≤◌, ◌≡◌, ◌≢◌, ◌↔◌, arith, true}
use accrue.Core.Guard.{
  DeleverageSignals, a_margin_call_period_has_elapsed, there_is_a_reason_to_leave,
}

-- A limit was crossed at some time, and the margin call period has passed since.
abbrev pub HasRunOut : ℕ → ℕ → ℕ → Type 0
HasRunOut crossed_at period now = (crossed_at ≢ 0) × (crossed_at + period ≤ now)

-- Why the market hands a position back.
pub data Reason (s : DeleverageSignals) (now : ℕ) : Type 0 where
  the_reserve_is_obsolete : s.reserve_status_obsolete ≡ true → Reason s now
  the_program_is_retiring : s.program_is_retiring ≡ true → Reason s now
  a_margin_call_has_started : s.obligation_margin_call_started_at ≢ 0 → Reason s now
  the_deposit_limit_ran_out :
      s.market_autodeleverage_enabled ≡ true
      → s.reserve_autodeleverage_enabled ≡ true
      → HasRunOut s.deposit_limit_crossed_at s.margin_call_period_seconds now
      → Reason s now
  the_borrow_limit_ran_out :
      s.market_autodeleverage_enabled ≡ true
      → s.reserve_autodeleverage_enabled ≡ true
      → HasRunOut s.borrow_limit_crossed_at s.margin_call_period_seconds now
      → Reason s now

ruleset reasons = (
  the_reserve_is_obsolete, the_program_is_retiring, a_margin_call_has_started,
  the_deposit_limit_ran_out, the_borrow_limit_ran_out,
)

Reason-of_test :
    (s : DeleverageSignals) (now : ℕ) → there_is_a_reason_to_leave s now ≡ true → Reason s now
unfolding there_is_a_reason_to_leave a_margin_call_period_has_elapsed
Reason-of_test s now h = grind (arith, reasons)

test_of_Reason :
    (s : DeleverageSignals) (now : ℕ) → Reason s now → there_is_a_reason_to_leave s now ≡ true
unfolding there_is_a_reason_to_leave a_margin_call_period_has_elapsed
test_of_Reason s now (the_reserve_is_obsolete e) = ground arith
test_of_Reason s now (the_program_is_retiring e) = ground arith
test_of_Reason s now (a_margin_call_has_started e) = ground arith
test_of_Reason s now (the_deposit_limit_ran_out m r e) = ground arith
test_of_Reason s now (the_borrow_limit_ran_out m r e) = ground arith

-- The test passes exactly when one of the five reasons holds.
pub there_is_a_reason_to_leave_lem :
    (s : DeleverageSignals) (now : ℕ) → (there_is_a_reason_to_leave s now ≡ true) ↔ Reason s now
there_is_a_reason_to_leave_lem s now = (Reason-of_test s now, test_of_Reason s now)

-- A reason that holds at one time holds at every later time.
pub there_is_a_reason_to_leave_persists :
    (s : DeleverageSignals) (now later : ℕ)
    → now ≤ later
    → there_is_a_reason_to_leave s now ≡ true
    → there_is_a_reason_to_leave s later ≡ true
unfolding there_is_a_reason_to_leave a_margin_call_period_has_elapsed
there_is_a_reason_to_leave_persists s now later h k = ground arith
