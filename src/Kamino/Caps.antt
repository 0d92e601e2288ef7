-- ===== src/Kamino/Caps.antt =====
-- packages/solana/src/kamino/caps.ts: what is left of the caps that the market puts on outflows.
pub mod Window
use accrue.Base.{ℕ, ◌+◌, ◌==◌, leb, Bool, true, false, ◌||◌, if◌then◌else◌}
use accrue.Base.Int.{ℤ, pos, negsuc, ◌-ℤ◌, ltb_ℤ, leb_ℤ}
use accrue.Kamino.Reserve.{WithdrawalCapSnapshot, ReserveSnapshot}

pub record CapacityLeft : Type 0 where
  pub is_capped : Bool
  pub capacity : ℤ
  pub remaining : ℤ
  pub window_resets_at : ℕ

abbrev pub no_cap : ℤ
no_cap = negsuc 0

abbrev pub uncapped : CapacityLeft
uncapped = record { is_capped = false; capacity = pos 0; remaining = pos 0; window_resets_at = 0 }

unfoldable pub remaining_of : ℤ → ℤ → ℤ
remaining_of capacity used = if ltb_ℤ used capacity then capacity -ℤ used else pos 0

unfoldable pub capacity_left : WithdrawalCapSnapshot → ℕ → CapacityLeft
unfolding remaining_of
capacity_left cap now =
    if leb_ℤ cap.capacity no_cap || (cap.window_length_seconds == 0)
    then uncapped
    else let window_ends_at = cap.window_started_at + cap.window_length_seconds in
      let window_has_passed = leb window_ends_at now in
      record {
        is_capped = true;
        capacity = cap.capacity;
        remaining =
            remaining_of cap.capacity
              (if window_has_passed then pos 0 else cap.used_in_this_window);
        window_resets_at =
            if window_has_passed then now + cap.window_length_seconds else window_ends_at;
      }

pub record ReserveCaps : Type 0 where
  pub withdrawals : CapacityLeft
  pub borrows : CapacityLeft

unfoldable pub reserve_caps : ReserveSnapshot → ℕ → ReserveCaps
unfolding capacity_left
reserve_caps reserve now = record {
  withdrawals = capacity_left reserve.deposit_withdrawal_cap now;
  borrows = capacity_left reserve.debt_withdrawal_cap now;
}
