-- ===== src/Kamino/Examples.antt =====
-- Accounts written byte by byte, and the witnesses of the theorems on reading them.
use accrue.Kamino.Caps.{capacity_left, remaining_of}
use accrue.Kamino.Reserve.{WithdrawalCapSnapshot}
use accrue.Base.Int.{◌-ℤ◌, pos}
use accrue.Base.{ℕ, zero, suc, ◌+◌, ◌≡◌, refl, arith, List, [], ◌∷◌, ◌++◌}
use accrue.Base.Text.{Text}
use accrue.Kamino.Bytes.{unsigned_at}
use accrue.Kamino.Bytes.RoundTrip.{little_endian, unsigned_at-little_endian}
use accrue.Kamino.Bytes.Bounds.{AreBytes}
use accrue.Kamino.Obligation.{
  deposited_amount_for, borrowed_amount_scaled_for, max_obligation_deposits, max_obligation_borrows,
}
use accrue.Kamino.Obligation.Entries.{IsAmountOf, deposits, borrows, amounts-IsAmountOf}

a_thousand_is_read : unsigned_at (7 ∷ 0xE8 ∷ 3 ∷ 0 ∷ 9 ∷ []) 1 3 ≡ 1_000
unfolding unsigned_at
a_thousand_is_read = refl

unsigned_at-little_endian_example :
    unsigned_at ((7 ∷ []) ++ (little_endian 3 1_000 ++ (9 ∷ []))) 1 3 ≡ 1_000
unsigned_at-little_endian_example =
    unsigned_at-little_endian (7 ∷ []) (9 ∷ []) 3 1_000 (omega arith)

-- A decoder of base 58 that writes one character for every byte, the first one for a zero.
abbrev one_character_a_byte : List ℕ → Text
one_character_a_byte [] = []
one_character_a_byte (byte ∷ bytes) = (b'1' + byte) ∷ one_character_a_byte bytes

abbrev zeros : ℕ → List ℕ
zeros zero = []
zeros (suc n) = 0 ∷ zeros n

zeros-AreBytes : (n : ℕ) → AreBytes (zeros n)
zeros-AreBytes zero = tt
zeros-AreBytes (suc n) = (omega arith, zeros-AreBytes n)

amounts-IsAmountOf_example :
    IsAmountOf one_character_a_byte
      (deposits (zeros 200))
      []
      0
      max_obligation_deposits
      (deposited_amount_for one_character_a_byte (zeros 200) [])
    × IsAmountOf one_character_a_byte
        (borrows (zeros 200))
        []
        0
        max_obligation_borrows
        (borrowed_amount_scaled_for one_character_a_byte (zeros 200) [])
amounts-IsAmountOf_example = amounts-IsAmountOf one_character_a_byte (zeros 200) []

-- A thousand an hour, of which three hundred are used.
abbrev hourly : WithdrawalCapSnapshot
hourly = record {
  capacity = pos 1_000;
  used_in_this_window = pos 300;
  window_started_at = 10_000;
  window_length_seconds = 3_600;
}

seven_hundred_left : (capacity_left hourly 12_000).remaining ≡ pos 700
unfolding capacity_left remaining_of ◌-ℤ◌
seven_hundred_left = refl
