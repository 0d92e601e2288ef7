-- ===== src/Keeper/Decide/Priorities.antt =====
-- Exactly when each action is proposed.
use accrue.Base.{ℕ, ◌+◌, ◌≤◌, ◌<◌, ◌≡◌, ◌≢◌, ◌⊎◌, ◌↔◌, arith, true, false}
use accrue.Core.Guard.{there_is_a_reason_to_leave}
use accrue.Keeper.Decide.{
  GuardLimits, PositionUnderWatch, Now, propose, protect, grow, leave, decide_what_to_do,
}

-- The chain lets an action repeat: it never ran, or its interval has passed.
abbrev pub MayRepeat : ℕ → ℕ → ℕ → Type 0
MayRepeat last now interval = (last ≡ 0) ⊎ (last + interval ≤ now)

abbrev pub PriceIsFresh : PositionUnderWatch → GuardLimits → Type 0
PriceIsFresh p limits = p.oldest_price_age_slots ≤ limits.max_price_age_slots

module _ (p : PositionUnderWatch) (limits : GuardLimits) (now : Now) where
  pub record CallsForProtect : Type 0 where
    pub is_open : p.is_open ≡ true
    pub at_the_guard_level : p.protect_ltv_bps ≤ p.loan_to_value_bps
    pub price_is_fresh : PriceIsFresh p limits
    pub something_to_sell : p.destination_balance ≢ 0
    pub may_repeat :
        MayRepeat p.last_protect_at now.unix_timestamp limits.min_protect_interval_seconds

  pub record CallsForGrow : Type 0 where
    pub is_open : p.is_open ≡ true
    pub under_the_guard_level : p.loan_to_value_bps < p.protect_ltv_bps
    pub at_the_grow_level : p.loan_to_value_bps ≤ p.grow_below_ltv_bps
    pub not_paused : limits.grow_paused ≡ false
    pub switched_on : p.grow_enabled ≡ true
    pub price_is_fresh : PriceIsFresh p limits
    pub may_repeat : MayRepeat p.last_grow_at now.unix_timestamp limits.min_grow_interval_seconds

  -- Why a position is handed back: the program retires, or the owner wants out on a flag and the
  -- market has raised one.
  abbrev pub IsHandedBack : Type 0
  IsHandedBack =
      (limits.sunset ≡ true)
      ⊎ ((p.exit_on_flag_enabled ≡ true)
          × (there_is_a_reason_to_leave
                (record (p.deleverage) { program_is_retiring = limits.sunset }) now.unix_timestamp
              ≡ true))

  pub record CallsForLeave : Type 0 where
    pub is_open : p.is_open ≡ true
    pub under_the_guard_level : p.loan_to_value_bps < p.protect_ltv_bps
    -- Growing was not considered, or the owner has switched it off while no pause is on.
    pub growing_is_passed_over :
        (p.grow_below_ltv_bps < p.loan_to_value_bps)
        ⊎ ((limits.grow_paused ≡ false) × (p.grow_enabled ≡ false))
    pub handed_back : IsHandedBack
    pub sellable : PriceIsFresh p limits ⊎ (p.destination_balance ≡ 0)

  -- A protect is proposed exactly for an open position at its guard level with a fresh price,
  -- something to sell, and an interval that has passed.
  pub decide-protect_iff : (decide_what_to_do p limits now ≡ propose protect) ↔ CallsForProtect
  unfolding decide_what_to_do
  decide-protect_iff = (λ h. ground arith, λ h. ground arith)

  -- A grow is proposed exactly for an open position under its guard level and at its grow level,
  -- with growing switched on and not paused, a fresh price, and an interval that has passed.
  pub decide-grow_iff : (decide_what_to_do p limits now ≡ propose grow) ↔ CallsForGrow
  unfolding decide_what_to_do
  decide-grow_iff = (λ h. ground arith, λ h. ground arith)

  -- A leave is proposed exactly for an open position under its guard level that is handed back,
  -- that growing was passed over for, and that a fresh price lets be sold or that holds nothing.
  pub decide-leave_iff : (decide_what_to_do p limits now ≡ propose leave) ↔ CallsForLeave
  unfolding decide_what_to_do
  decide-leave_iff = (λ h. ground arith, λ h. ground arith)
