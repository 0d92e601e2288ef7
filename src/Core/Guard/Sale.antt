-- ===== src/Core/Guard/Sale.antt =====
-- What the guard sells to protect a position, against the promises it makes the owner.
use accrue.Base.{
  ℕ, ◌+◌, ◌-◌, ◌*◌, ◌/◌, ◌^◌, ◌≤◌, ◌≡◌, ap, sym, ◌∙◌, ◌⊎◌, arith, inl, inr, Bool-cases, ltb,
}
use accrue.Base.Outcome.{ok, first_returned, ok-injective}
use accrue.Core.Money.{
  usd_value_of_scaled, raw_amount_worth_rounding_up, raw_amount_worth_rounding_down,
  add_the_slippage_buffer, ten_to_the,
}
use accrue.Core.Money.Rounding.{
  IsLeast, IsGreatest, raw_amount_worth_rounding_up_lem, raw_amount_worth_rounding_down_lem,
  add_the_slippage_buffer_lem,
}
use accrue.Core.Guard.{
  ProtectAmounts, ProtectSale, protect_amounts, repay_to_reach_target, smaller,
  value_allowed_at_target, destination_to_sell_for_protect,
}
use accrue.Core.Guard.Target.{repay_to_reach_target_lem}

-- What the guard sells, worked out step by step, each amount the best on its side.
pub record IsMadeFor (sale : ProtectSale) (sold : ℕ) : Type 0 where
  -- The value to repay, in scaled dollars, what it is in USDC, the bounty in USDC, and what both
  -- are in the destination at the oracle's price.
  pub value : ℕ
  pub repay : ℕ
  pub bounty : ℕ
  pub oracle : ℕ
  pub value_is_least :
      IsLeast
        (λ x.
          sale.adjusted_debt_value_scaled * 100
          ≤ x * sale.borrow_factor_pct
            + sale.deposited_value_scaled * sale.target_ltv_bps / 10_000 * 100)
        value
  pub repay_is_least :
      IsLeast (λ x. value * 10 ^ sale.usdc_decimals ≤ x * sale.usdc_price_scaled) repay
  pub bounty_is_greatest :
      IsGreatest
        (λ x.
          (x ≤ sale.keeper_bounty_cap_usdc)
          × (x * sale.usdc_price_scaled
              ≤ value * sale.keeper_bounty_bps / 10_000 * 10 ^ sale.usdc_decimals))
        bounty
  pub oracle_is_least :
      IsLeast
        (λ x.
          (repay + bounty)
            * sale.usdc_price_scaled
            / 10 ^ sale.usdc_decimals
            * 10 ^ sale.destination_decimals
          ≤ x * sale.destination_price_scaled)
        oracle
  pub sold_is_least :
      IsLeast
        (λ x.
          (sale.destination_balance ≤ x) ⊎ (oracle * 10_000 ≤ x * (10_000 - sale.max_slippage_bps)))
        sold

module _ {sale : ProtectSale} {sold : ℕ} (made : IsMadeFor sale sold) where
  pub within_the_balance : sold ≤ sale.destination_balance
  within_the_balance = (made.sold_is_least sale.destination_balance).1 (inl (omega arith))

smaller-IsLeast :
    (P : ℕ → Type 0) (a b : ℕ) → IsLeast P a → IsLeast (λ x. (b ≤ x) ⊎ P x) (smaller a b)
unfolding smaller
smaller-IsLeast P a b least x = (there, back)
  where
    there : smaller a b ≤ x → (b ≤ x) ⊎ P x
    there h = elim (Bool-cases (ltb a b)) [
      | inl e ↦ inr ((least x).0 (ground arith))
      | inr e ↦ inl (ground arith)
    ]

    back : (b ≤ x) ⊎ P x → smaller a b ≤ x
    back (inl h) = ground arith
    back (inr p) = ground (arith, (least x).1 p)

smaller-IsGreatest :
    (P : ℕ → Type 0) (a b : ℕ) → IsGreatest P a → IsGreatest (λ x. (x ≤ b) × P x) (smaller a b)
unfolding smaller
smaller-IsGreatest P a b greatest x = (there, back)
  where
    there : x ≤ smaller a b → (x ≤ b) × P x
    there h = (ground arith, (greatest x).0 (ground arith))

    back : (x ≤ b) × P x → x ≤ smaller a b
    back (h, p) = ground (arith, (greatest x).1 p)

IsLeast-at : (P : ℕ → Type 0) (a b : ℕ) → a ≡ b → IsLeast P a → IsLeast P b
IsLeast-at P a b same least = rw (← same) least

capped_bounty :
    (share of_it decimals price cap priced : ℕ)
    → share ≡ of_it
    → IsGreatest (λ x. x * price ≤ share * 10 ^ decimals) priced
    → IsGreatest (λ x. (x ≤ cap) × (x * price ≤ of_it * 10 ^ decimals)) (smaller priced cap)
capped_bounty share of_it decimals price cap priced same greatest =
    rw (← same) (smaller-IsGreatest (λ x. x * price ≤ share * 10 ^ decimals) priced cap greatest)

-- The amounts of a protect start from the repayment that reaches the target.
protect_amounts-ok :
    (debt deposited target bounty factor : ℕ) (amounts : ProtectAmounts)
    → protect_amounts debt deposited target bounty factor ≡ ok amounts
    → (repay_to_reach_target debt deposited target factor ≡ ok amounts.repay_usd_scaled)
      × (amounts.bounty_usd_scaled ≡ amounts.repay_usd_scaled * bounty / 10_000)
unfolding protect_amounts
protect_amounts-ok debt deposited target bounty factor amounts h =
    let (repay, repay_ok, rest) =
      first_returned _ (repay_to_reach_target debt deposited target factor) h in
    let is_repay : repay ≡ amounts.repay_usd_scaled =
      ap (λ (a : ProtectAmounts). a.repay_usd_scaled) (ok-injective rest) in
    let is_bounty : repay * bounty / 10_000 ≡ amounts.bounty_usd_scaled =
      ap (λ (a : ProtectAmounts). a.bounty_usd_scaled) (ok-injective rest) in
    (repay_ok ∙ ap ok is_repay, sym is_bounty ∙ ap (λ (v : ℕ). v * bounty / 10_000) is_repay)

-- Every sale that the guard works out is, of the amounts that sell the whole balance or cover what
-- is wanted after slippage, the least. What is wanted is the least repayment that reaches the target
-- and the share of it that goes to the keeper, up to its cap.
pub destination_to_sell_for_protect_lem :
    (sale : ProtectSale) (sold : ℕ)
    → destination_to_sell_for_protect sale ≡ ok sold
    → IsMadeFor sale sold
unfolding destination_to_sell_for_protect value_allowed_at_target usd_value_of_scaled ten_to_the
destination_to_sell_for_protect_lem sale sold h =
    let (amounts, amounts_ok, h₁) =
      first_returned _
        (protect_amounts sale.adjusted_debt_value_scaled sale.deposited_value_scaled
          sale.target_ltv_bps sale.keeper_bounty_bps sale.borrow_factor_pct)
        h in
    let (repay, repay_ok, h₂) =
      first_returned _
        (raw_amount_worth_rounding_up amounts.repay_usd_scaled sale.usdc_decimals
          sale.usdc_price_scaled)
        h₁ in
    let (priced, priced_ok, h₃) =
      first_returned _
        (raw_amount_worth_rounding_down amounts.bounty_usd_scaled sale.usdc_decimals
          sale.usdc_price_scaled)
        h₂ in
    let bounty : ℕ = smaller priced sale.keeper_bounty_cap_usdc in
    let (oracle, oracle_ok, h₄) =
      first_returned _
        (raw_amount_worth_rounding_up
          (usd_value_of_scaled (repay + bounty) sale.usdc_decimals sale.usdc_price_scaled)
          sale.destination_decimals sale.destination_price_scaled)
        h₃ in
    let (buffered, buffered_ok, h₅) =
      first_returned _ (add_the_slippage_buffer oracle sale.max_slippage_bps) h₄ in
    let (target_ok, share) =
      protect_amounts-ok sale.adjusted_debt_value_scaled sale.deposited_value_scaled
        sale.target_ltv_bps sale.keeper_bounty_bps sale.borrow_factor_pct amounts amounts_ok in
    let (_, value_least) =
      (repay_to_reach_target_lem sale.adjusted_debt_value_scaled sale.deposited_value_scaled
          sale.target_ltv_bps sale.borrow_factor_pct amounts.repay_usd_scaled).0
        target_ok in
    let (_, _, repay_least) =
      (raw_amount_worth_rounding_up_lem amounts.repay_usd_scaled sale.usdc_decimals
          sale.usdc_price_scaled repay).0
        repay_ok in
    let (_, _, priced_greatest) =
      (raw_amount_worth_rounding_down_lem amounts.bounty_usd_scaled sale.usdc_decimals
          sale.usdc_price_scaled priced).0
        priced_ok in
    let (_, _, oracle_least) =
      (raw_amount_worth_rounding_up_lem
          (usd_value_of_scaled (repay + bounty) sale.usdc_decimals sale.usdc_price_scaled)
          sale.destination_decimals sale.destination_price_scaled oracle).0
        oracle_ok in
    let (_, _, buffered_least) =
      (add_the_slippage_buffer_lem oracle sale.max_slippage_bps buffered).0 buffered_ok in
    record {
      value = amounts.repay_usd_scaled;
      repay = repay;
      bounty = bounty;
      oracle = oracle;
      value_is_least = value_least;
      repay_is_least = repay_least;
      bounty_is_greatest =
          capped_bounty amounts.bounty_usd_scaled
            (amounts.repay_usd_scaled * sale.keeper_bounty_bps / 10_000) sale.usdc_decimals
            sale.usdc_price_scaled sale.keeper_bounty_cap_usdc priced share priced_greatest;
      oracle_is_least = oracle_least;
      sold_is_least =
          IsLeast-at _ (smaller buffered sale.destination_balance) sold (ok-injective h₅)
            (smaller-IsLeast _ buffered sale.destination_balance buffered_least);
    }
