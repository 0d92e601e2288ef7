-- ===== src/Token/Examples.antt =====
-- A mint whose extension ends before its new multiplier, and the witnesses of the theorems on it.
use accrue.Base.{ℕ, zero, suc, ◌≤◌, ◌≡◌, refl, arith, some, List, [], ◌∷◌, ◌++◌}
use accrue.Base.Outcome.{Outcome, throw}
use accrue.Kamino.Bytes.{unsigned_at, byte_at}
use accrue.Token.{
  TokenFailure, out_of_range, two_bytes_at, scaled_ui_amount_extension,
  decode_scaled_ui_amount_multiplier,
}
use accrue.Token.Extensions.{decode_scaled_ui_amount_multiplier-ends, a_cut_multiplier_throws}

abbrev zeros : ℕ → List ℕ
zeros zero = []
zeros (suc n) = 0 ∷ zeros n

abbrev cut_mint : List ℕ
cut_mint = zeros 166 ++ (43 ∷ 0 ∷ 56 ∷ 0 ∷ zeros 40)

-- The bytes of a multiplier stand for themselves.
abbrev as_it_is : List ℕ → List ℕ
as_it_is bytes = bytes

decode_scaled_ui_amount_multiplier-ends_example :
    (result : Outcome TokenFailure (List ℕ)) × (decode_scaled_ui_amount_multiplier as_it_is
        (1 ∷ [])
        1_000
        cut_mint
      ≡ some result)
decode_scaled_ui_amount_multiplier-ends_example =
    decode_scaled_ui_amount_multiplier-ends as_it_is (1 ∷ []) 1_000 cut_mint

is_scaled : two_bytes_at cut_mint 166 ≡ scaled_ui_amount_extension
unfolding byte_at
is_scaled = refl

is_due : unsigned_at cut_mint 202 8 ≤ 1_000
unfolding unsigned_at
is_due = omega arith

a_cut_multiplier_throws_example :
    decode_scaled_ui_amount_multiplier as_it_is (1 ∷ []) 1_000 cut_mint ≡ some (throw out_of_range)
a_cut_multiplier_throws_example =
    a_cut_multiplier_throws as_it_is (1 ∷ []) 1_000 cut_mint is_scaled (omega arith) (omega arith)
      is_due
