-- ===== src/Kamino/Reserve/Decoded.antt =====
-- Decoding a reserve, for accounts of every length.
use accrue.Base.{
  ℕ, zero, suc, ◌+◌, ◌^◌, ◌≤◌, ◌<◌, ◌≡◌, ◌≢◌, refl, ap, ◌⊎◌, inl, inr, arith, ◌==◌, true,
  Bool-cases, List, length,
}
use accrue.Base.Outcome.{ok, throw}
use accrue.Base.Text.{Text}
use accrue.Kamino.Bytes.Bounds.{AreBytes, byte_at_lt, unsigned_at_lt}
use accrue.Kamino.Reserve.{
  ReserveSnapshot, borrow_curve_points_from, borrow_rate_curve_at, reserve_snapshot, decode_reserve,
  not_the_length_of_a_reserve,
}
use accrue.Kamino.Reserve.Offsets.{
  reserve_liquidity_available_amount, reserve_liquidity_market_price,
  reserve_liquidity_borrowed_scaled, reserve_config_scope_price_chain,
  reserve_config_borrow_rate_curve, reserve_config_loan_to_value_pct,
  reserve_config_liquidation_threshold_pct, reserve_account_length,
}

-- What a snapshot keeps within, whatever the account says.
pub record IsSoundReserve (snapshot : ReserveSnapshot) : Type 0 where
  pub max_loan_to_value : snapshot.max_loan_to_value_bps ≤ 25_500
  pub liquidation_threshold : snapshot.liquidation_threshold_bps ≤ 25_500
  pub available : snapshot.liquidity_available_amount < 2 ^ 64
  pub price : snapshot.liquidity_market_price_scaled < 2 ^ 128
  pub borrowed : snapshot.liquidity_borrowed_scaled < 2 ^ 128
  pub feed : snapshot.scope_feed_index < 2 ^ 16
  pub curve : length snapshot.borrow_rate_curve ≡ 11
  pub one_status : ¬ ((snapshot.is_active ≡ true) × (snapshot.is_obsolete ≡ true))

module _ (base58 : List ℕ → Text) where
  length-borrow_curve_points_from :
      (bytes : List ℕ) (offset left index : ℕ)
      → length (borrow_curve_points_from bytes offset left index) ≡ left
  unfolding borrow_curve_points_from
  length-borrow_curve_points_from bytes offset zero index = refl
  length-borrow_curve_points_from bytes offset (suc left) index =
      ap suc (length-borrow_curve_points_from bytes offset left (index + 1))

  reserve_snapshot-IsSoundReserve :
      (bytes : List ℕ) → AreBytes bytes → IsSoundReserve (reserve_snapshot base58 bytes)
  unfolding reserve_snapshot borrow_rate_curve_at
  reserve_snapshot-IsSoundReserve bytes are = record {
    max_loan_to_value = omega (arith, byte_at_lt bytes reserve_config_loan_to_value_pct are);
    liquidation_threshold =
        omega (arith, byte_at_lt bytes reserve_config_liquidation_threshold_pct are);
    available = unsigned_at_lt bytes reserve_liquidity_available_amount 8 are;
    price = unsigned_at_lt bytes reserve_liquidity_market_price 16 are;
    borrowed = unsigned_at_lt bytes reserve_liquidity_borrowed_scaled 16 are;
    feed = unsigned_at_lt bytes reserve_config_scope_price_chain 2 are;
    curve = length-borrow_curve_points_from bytes reserve_config_borrow_rate_curve 11 0;
    one_status = λ both. ground arith;
  }

  -- An account that has not the length of a reserve is refused. One that has it is decoded: its
  -- limits of the loan to value are at most 255 percent, its amounts and prices fit their widths,
  -- its borrow curve has eleven points, and it is not at once active and obsolete.
  pub decode_reserve_lem :
      (bytes : List ℕ)
      → AreBytes bytes
      → ((length bytes ≢ reserve_account_length)
          × (decode_reserve base58 bytes ≡ throw not_the_length_of_a_reserve))
        ⊎ ((length bytes ≡ reserve_account_length)
            × (snapshot : ReserveSnapshot) × (decode_reserve base58 bytes ≡ ok snapshot)
            × IsSoundReserve snapshot)
  unfolding decode_reserve
  decode_reserve_lem bytes are = elim (Bool-cases (length bytes == reserve_account_length)) [
    | inl e ↦
        let same : length bytes ≡ reserve_account_length = ground arith in
        inr (
          same,
          reserve_snapshot base58 bytes,
          rw e refl,
          reserve_snapshot-IsSoundReserve bytes are,
        )
    | inr e ↦
        let other : length bytes ≢ reserve_account_length = λ same. ground arith in
        inl (other, rw e refl)
  ]
