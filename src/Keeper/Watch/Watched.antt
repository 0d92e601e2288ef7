-- ===== src/Keeper/Watch/Watched.antt =====
-- What is watched by apps/keeper/src/watch.ts decides as the chain stands.
use accrue.Base.{ℕ, ◌+◌, ◌≤◌, ◌↔◌, arith}
use accrue.Keeper.Watch.{ChainReading, ScopePrice, age_in_slots, position_under_watch}

age_in_slots-le_iff :
    (price : ScopePrice) (slot most : ℕ)
    → (age_in_slots price slot ≤ most) ↔ (slot ≤ price.last_updated_slot + most)
unfolding age_in_slots
age_in_slots-le_iff price slot most = (λ h. ground arith, λ h. ground arith)

-- The watched position is fresh for a limit in slots just when neither the price of the dollar nor
-- that of the yield token was last updated more than that many slots before the reading.
pub position_under_watch-fresh_iff :
    (reading : ChainReading) (most : ℕ)
    → ((position_under_watch reading).oldest_price_age_slots ≤ most) ↔ (
        (reading.market.current_slot ≤ reading.market.usdc_price.last_updated_slot + most)
        × (reading.market.current_slot ≤ reading.destination_price.last_updated_slot + most))
unfolding position_under_watch age_in_slots
position_under_watch-fresh_iff reading most = (λ h. (ground arith, ground arith), λ h. ground arith)
