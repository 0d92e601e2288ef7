-- ===== src/Keeper/Guard/Asked.antt =====
-- The swap, the amounts and the accounts that apps/keeper/src/guard.ts builds an instruction of.
use accrue.Base.{
  ℕ, ◌+◌, ◌*◌, ◌/◌, ◌^◌, ◌≤◌, ◌<◌, ◌≡◌, sym, ap, ◌∙◌, arith, leb, Bool-cases, inl, inr, none, some,
  List, [], ◌∷◌, ◌++◌,
}
use mathlib.Core.List.{append-nil}
use accrue.Base.Outcome.{Outcome, ok, throw, first_returned}
use accrue.Core.Failure.{Failure}
use accrue.Core.Guard.{ProtectSale, value_allowed_at_target, borrow_to_reach_target}
use accrue.Core.Guard.Target.{borrow_to_reach_target_lem}
use accrue.Core.Money.Rounding.{IsGreatest, raw_amount_worth_rounding_down_lem}
use accrue.Keeper.Subject.{GuardSubject, RouteRequest, Instruction, GuardAssembly}
use accrue.Keeper.Guard.{in_the_guard, with_route_accounts, usdc_to_borrow_for_grow}

-- The amount, the slippage, the number of accounts and the signer that a route is asked for.
pub record Swaps (requested : RouteRequest) (assembly : GuardAssembly) (subject : GuardSubject)
    (amount : ℕ) : Type 0 where
  pub amount_in : requested.amount_in ≡ amount
  pub slippage : requested.slippage_bps ≡ assembly.config.max_slippage_bps
  pub accounts : requested.max_accounts ≡ 28
  pub signer : requested.signing_authority ≡ subject.position_address

-- The sale that the amounts, the prices and the settings of a position call for.
abbrev pub sale_of : GuardAssembly → GuardSubject → ProtectSale
sale_of assembly subject = record {
  adjusted_debt_value_scaled = subject.obligation.adjusted_debt_value_scaled;
  deposited_value_scaled = subject.obligation.deposited_value_scaled;
  target_ltv_bps = subject.position.strategy.target_ltv_bps;
  borrow_factor_pct = subject.borrow_reserve.borrow_factor_pct;
  keeper_bounty_bps = assembly.config.keeper_bounty_bps;
  keeper_bounty_cap_usdc = assembly.config.keeper_bounty_cap_usdc;
  max_slippage_bps = assembly.config.max_slippage_bps;
  usdc_decimals = subject.borrow_reserve.liquidity_mint_decimals;
  usdc_price_scaled = subject.usdc_price_scaled;
  destination_decimals = subject.destination_decimals;
  destination_price_scaled = subject.destination_price_scaled;
  destination_balance = subject.destination_balance;
}

worth_something : (amount price : ℕ) → 0 < amount → 0 < price → 0 < amount * price
worth_something amount price something priced = grind arith

-- An amount above zero leaves room under the target.
pub room_to_borrow :
    (subject : GuardSubject) (amount : ℕ)
    → usdc_to_borrow_for_grow subject ≡ ok amount
    → 0 < amount
    → (value : ℕ) × IsGreatest
        (λ x.
          subject.obligation.adjusted_debt_value_scaled * 100
            + x * subject.borrow_reserve.borrow_factor_pct
          ≤ subject.obligation.deposited_value_scaled * subject.position.strategy.target_ltv_bps
            / 10_000 * 100)
        value
      × IsGreatest
          (λ x.
            x * subject.usdc_price_scaled
            ≤ value * 10 ^ subject.borrow_reserve.liquidity_mint_decimals)
          amount
unfolding usdc_to_borrow_for_grow value_allowed_at_target
room_to_borrow subject amount h something =
    let debt : ℕ = subject.obligation.adjusted_debt_value_scaled in
    let deposited : ℕ = subject.obligation.deposited_value_scaled in
    let target : ℕ = subject.position.strategy.target_ltv_bps in
    let factor : ℕ = subject.borrow_reserve.borrow_factor_pct in
    let decimals : ℕ = subject.borrow_reserve.liquidity_mint_decimals in
    let (value, value_ok, rest) =
      first_returned _ (borrow_to_reach_target debt deposited target factor) h in
    let (_, room, over) =
      (borrow_to_reach_target_lem debt deposited target factor value).0 value_ok in
    let (priced, _, greatest) =
      (raw_amount_worth_rounding_down_lem value decimals subject.usdc_price_scaled amount).0 rest in
    let worth = (greatest amount).0 (omega arith) in
    elim (Bool-cases (leb debt (value_allowed_at_target deposited target))) [
      | inl fits ↦ (value, room (ground arith), greatest)
      | inr none_left ↦
          let nothing = over (ground arith) in
          absurd (
            omega (
              arith,
              worth_something amount subject.usdc_price_scaled something priced,
              rw nothing at worth,
            ))
    ]

module _ {Meta Rest : Type 0} where
  -- The accounts of an instruction, or none.
  abbrev pub accounts_of : Instruction Meta Rest → List Meta
  accounts_of instruction = elim instruction.accounts [ some accounts ↦ accounts | none ↦ [] ]

  -- An instruction is another one with accounts put after its own.
  pub record Extends (instruction base : Instruction Meta Rest) (others : List Meta) : Type 0 where
    pub same_rest : instruction.rest ≡ base.rest
    pub own_then_others : accounts_of instruction ≡ accounts_of base ++ others

  pub with_route_accounts-Extends :
      (base instruction : Instruction Meta Rest) (others : List Meta)
      → with_route_accounts base others ≡ instruction
      → Extends instruction base others
  unfolding with_route_accounts
  with_route_accounts-Extends base instruction [] same = record {
    same_rest = ap (λ (i : Instruction Meta Rest). i.rest) (sym same);
    own_then_others = ap accounts_of (sym same) ∙ sym (append-nil (accounts_of base));
  }
  with_route_accounts-Extends base instruction (first ∷ others) same = record {
    same_rest = ap (λ (i : Instruction Meta Rest). i.rest) (sym same);
    own_then_others = ap accounts_of (sym same);
  }

pub in_the_guard-ok :
    {A : Type 0} (outcome : Outcome Failure A) (a : A)
    → in_the_guard outcome ≡ ok a
    → outcome ≡ ok a
unfolding in_the_guard
in_the_guard-ok (ok b) a h = cc
in_the_guard-ok (throw failure) a h = cc
