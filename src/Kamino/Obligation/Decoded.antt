-- ===== src/Kamino/Obligation/Decoded.antt =====
-- Decoding an obligation, for accounts of every length.
use accrue.Base.{
  ℕ, zero, suc, ◌+◌, ◌*◌, ◌≤◌, ◌≡◌, ◌≢◌, refl, ◌⊎◌, inl, inr, arith, ◌==◌, false, Bool-cases, List,
  All, length,
}
use accrue.Base.Outcome.{ok, throw}
use accrue.Base.Text.{Text}
use accrue.Core.Guard.{loan_to_value_bps}
use accrue.Kamino.Bytes.{address_at, is_the_default_address}
use accrue.Kamino.Reserve.{not_the_length_of_an_obligation}
use accrue.Kamino.Obligation.{
  obligation_deposits, deposit_entry_length, obligation_borrows, borrow_entry_length,
  ObligationSnapshot, obligation_loan_to_value_bps, reserves_from, obligation_snapshot,
  decode_obligation, obligation_account_length,
}

-- A list of at most `most` reserves, none of them the address of no account.
pub record AreReserves (most : ℕ) (reserves : List Text) : Type 0 where
  pub at_most : length reserves ≤ most
  pub are_accounts : All (λ reserve. is_the_default_address reserve ≡ false) reserves

pub record IsSoundObligation (snapshot : ObligationSnapshot) : Type 0 where
  pub loan_to_value :
      snapshot.loan_to_value_bps
      ≡ loan_to_value_bps snapshot.adjusted_debt_value_scaled snapshot.deposited_value_scaled
  pub deposits : AreReserves 8 snapshot.deposit_reserves
  pub borrows : AreReserves 5 snapshot.borrow_reserves

module _ (base58 : List ℕ → Text) where
  reserves_from-AreReserves :
      (bytes : List ℕ) (first entry_length left index : ℕ)
      → AreReserves left (reserves_from base58 bytes first entry_length left index)
  unfolding reserves_from
  reserves_from-AreReserves bytes first entry_length zero index = record {
    at_most = omega arith;
    are_accounts = tt;
  }
  reserves_from-AreReserves bytes first entry_length (suc left) index =
      let rest = reserves_from-AreReserves bytes first entry_length left (index + 1) in
      elim (Bool-cases
        (is_the_default_address (address_at base58 bytes (first + index * entry_length)))) [
          | inl e ↦
              rw e
                (record { at_most = omega (arith, rest.at_most); are_accounts = rest.are_accounts })
          | inr e ↦ rw e (record {
            at_most = omega (arith, rest.at_most);
            are_accounts = (e, rest.are_accounts);
          })
        ]

  -- An account that has not the length of an obligation is refused. One that has it is decoded:
  -- its loan to value is the one that the guard's arithmetic gives its debt and its deposits, and it
  -- lists at most eight reserves deposited and five borrowed, none of them the default address.
  pub decode_obligation_lem :
      (bytes : List ℕ)
      → ((length bytes ≢ obligation_account_length)
          × (decode_obligation base58 bytes ≡ throw not_the_length_of_an_obligation))
        ⊎ ((length bytes ≡ obligation_account_length)
            × (snapshot : ObligationSnapshot) × (decode_obligation base58 bytes ≡ ok snapshot)
            × IsSoundObligation snapshot)
  unfolding decode_obligation obligation_snapshot obligation_loan_to_value_bps loan_to_value_bps
  decode_obligation_lem bytes = elim (Bool-cases (length bytes == obligation_account_length)) [
    | inl e ↦
        let same : length bytes ≡ obligation_account_length = ground arith in
        inr (
          same,
          obligation_snapshot base58 bytes,
          rw e refl,
          record {
            loan_to_value = refl;
            deposits = reserves_from-AreReserves bytes obligation_deposits deposit_entry_length 8 0;
            borrows = reserves_from-AreReserves bytes obligation_borrows borrow_entry_length 5 0;
          },
        )
    | inr e ↦
        let other : length bytes ≢ obligation_account_length = λ same. ground arith in
        inl (other, rw e refl)
  ]
