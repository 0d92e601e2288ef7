-- ===== src/Kamino/Obligation.antt =====
-- packages/solana/src/kamino/layout.ts: the snapshot of an obligation, which is the loan of one
-- position.
pub mod Entries
pub mod Decoded
use accrue.Base.{ℕ, zero, suc, ◌+◌, ◌*◌, ◌/◌, ◌==◌, Bool, not, List, [], ◌∷◌, length, if◌then◌else◌}
use accrue.Base.Outcome.{Outcome, ok, throw}
use accrue.Base.Text.{Text, same_text}
use accrue.Kamino.Bytes.{byte_at, unsigned_at, is_the_default_address, address_at}
use accrue.Kamino.Reserve.{LayoutFailure, not_the_length_of_an_obligation}

abbrev pub obligation_account_length : ℕ
obligation_account_length = 3_344

abbrev pub obligation_deposits : ℕ
obligation_deposits = 96

abbrev pub obligation_deposited_value : ℕ
obligation_deposited_value = 1_192

abbrev pub obligation_borrows : ℕ
obligation_borrows = 1_208

abbrev pub obligation_borrowed_assets_market_value : ℕ
obligation_borrowed_assets_market_value = 2_224

abbrev pub obligation_adjusted_debt_value : ℕ
obligation_adjusted_debt_value = 2_208

abbrev pub obligation_autodeleverage_margin_call_started : ℕ
obligation_autodeleverage_margin_call_started = 2_336

abbrev pub obligation_has_debt : ℕ
obligation_has_debt = 2_287

abbrev pub deposit_entry_length : ℕ
deposit_entry_length = 136

abbrev pub deposit_deposited_amount : ℕ
deposit_deposited_amount = 32

abbrev pub borrow_entry_length : ℕ
borrow_entry_length = 200

abbrev pub borrow_borrowed_amount : ℕ
borrow_borrowed_amount = 88

abbrev pub max_obligation_deposits : ℕ
max_obligation_deposits = 8

abbrev pub max_obligation_borrows : ℕ
max_obligation_borrows = 5

pub record ObligationSnapshot : Type 0 where
  pub deposited_value_scaled : ℕ
  pub borrowed_value_scaled : ℕ
  pub adjusted_debt_value_scaled : ℕ
  pub has_debt : Bool
  pub autodeleverage_margin_call_started_timestamp : ℕ
  pub loan_to_value_bps : ℕ
  pub deposit_reserves : List Text
  pub borrow_reserves : List Text
  pub deposited_amount_for : Text → ℕ
  pub borrowed_amount_scaled_for : Text → ℕ

-- `Number((debt * 10_000n) / deposited)`, and nothing for an empty obligation.
unfoldable pub obligation_loan_to_value_bps : ℕ → ℕ → ℕ
obligation_loan_to_value_bps adjusted_debt deposited =
    if deposited == 0 then 0 else adjusted_debt * 10_000 / deposited

module _ (base58 : List ℕ → Text) where
  -- The reserves that the entries from `index` on name, of which `left` are still to read.
  unfoldable pub reserves_from : List ℕ → ℕ → ℕ → ℕ → ℕ → List Text
  unfolding address_at is_the_default_address
  reserves_from bytes first entry_length zero index = []
  reserves_from bytes first entry_length (suc left) index =
      let reserve = address_at base58 bytes (first + index * entry_length) in
      let rest = reserves_from bytes first entry_length left (index + 1) in
      if is_the_default_address reserve then rest else reserve ∷ rest

  -- The amount in the first entry from `index` on that names the reserve. It stands `inside` bytes
  -- into the entry and takes `width` of them.
  unfoldable pub amount_from : List ℕ → ℕ → ℕ → ℕ → ℕ → Text → ℕ → ℕ → ℕ
  unfolding address_at unsigned_at same_text
  amount_from bytes first entry_length inside width reserve zero index = 0
  amount_from bytes first entry_length inside width reserve (suc left) index =
      let base = first + index * entry_length in
      let rest = amount_from bytes first entry_length inside width reserve left (index + 1) in
      if same_text (address_at base58 bytes base) reserve
      then unsigned_at bytes (base + inside) width
      else rest

  unfoldable pub deposited_amount_for : List ℕ → Text → ℕ
  unfolding amount_from
  deposited_amount_for bytes reserve =
      amount_from bytes obligation_deposits deposit_entry_length deposit_deposited_amount 8 reserve
        max_obligation_deposits 0

  unfoldable pub borrowed_amount_scaled_for : List ℕ → Text → ℕ
  unfolding amount_from
  borrowed_amount_scaled_for bytes reserve =
      amount_from bytes obligation_borrows borrow_entry_length borrow_borrowed_amount 16 reserve
        max_obligation_borrows 0

  -- What is read of an account that has the length of an obligation.
  unfoldable pub obligation_snapshot : List ℕ → ObligationSnapshot
  unfolding byte_at unsigned_at obligation_loan_to_value_bps reserves_from deposited_amount_for
      borrowed_amount_scaled_for
  obligation_snapshot bytes =
      let deposited = unsigned_at bytes obligation_deposited_value 16 in
      let adjusted_debt = unsigned_at bytes obligation_adjusted_debt_value 16 in
      record {
        deposited_value_scaled = deposited;
        borrowed_value_scaled = unsigned_at bytes obligation_borrowed_assets_market_value 16;
        adjusted_debt_value_scaled = adjusted_debt;
        deposit_reserves =
            reserves_from bytes obligation_deposits deposit_entry_length max_obligation_deposits 0;
        borrow_reserves =
            reserves_from bytes obligation_borrows borrow_entry_length max_obligation_borrows 0;
        has_debt = not (byte_at bytes obligation_has_debt == 0);
        autodeleverage_margin_call_started_timestamp =
            unsigned_at bytes obligation_autodeleverage_margin_call_started 8;
        loan_to_value_bps = obligation_loan_to_value_bps adjusted_debt deposited;
        deposited_amount_for = deposited_amount_for bytes;
        borrowed_amount_scaled_for = borrowed_amount_scaled_for bytes;
      }

  unfoldable pub decode_obligation : List ℕ → Outcome LayoutFailure ObligationSnapshot
  unfolding obligation_snapshot
  decode_obligation bytes =
      if length bytes == obligation_account_length
      then ok (obligation_snapshot bytes)
      else throw not_the_length_of_an_obligation
