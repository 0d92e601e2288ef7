-- ===== src/Token.antt =====
-- packages/solana/src/token.ts: token accounts, and the multiplier that a mint shows its amounts with. A
-- number of eight bytes in floating point is what a function of the platform makes of the bytes.

pub mod Extensions
mod Examples
use accrue.Base.{
  ℕ, zero, suc, ◌+◌, ◌*◌, ltb, leb, ◌==◌, Bool, ◌&&◌, Option, none, some, List, [], ◌∷◌, length,
  take, drop, if◌then◌else◌,
}
use accrue.Base.Outcome.{Outcome, ok, throw}
use accrue.Kamino.Bytes.{byte_at, unsigned_at}

pub data TokenFailure : Type 0 where
  too_short_for_a_token_account : TokenFailure
  -- The `RangeError` of a view past the end of its buffer
  out_of_range : TokenFailure

abbrev pub token_account_amount : ℕ
token_account_amount = 64

abbrev pub token_account_base_length : ℕ
token_account_base_length = 165

unfoldable pub decode_token_account_amount : List ℕ → Outcome TokenFailure ℕ
unfolding unsigned_at
decode_token_account_amount bytes =
    if ltb (length bytes) token_account_base_length
    then throw too_short_for_a_token_account
    else ok (unsigned_at bytes token_account_amount 8)

abbrev pub mint_extensions_start : ℕ
mint_extensions_start = 165

abbrev pub extension_header_length : ℕ
extension_header_length = 4

abbrev pub scaled_ui_amount_extension : ℕ
scaled_ui_amount_extension = 43

-- `low | (high << 8)`, of two bytes
abbrev pub two_bytes_at : List ℕ → ℕ → ℕ
two_bytes_at bytes offset = byte_at bytes offset + byte_at bytes (offset + 1) * 256

module _ {Double : Type 0} (float64 : List ℕ → Double) (one : Double) (now_in_seconds : ℕ) where
  unfoldable pub double_at : List ℕ → ℕ → Outcome TokenFailure Double
  double_at bytes offset =
      if ltb (length bytes) (offset + 8)
      then throw out_of_range
      else ok (float64 (take 8 (drop offset bytes)))

  -- The multiplier of an extension, the new one from its instant on.
  unfoldable pub multiplier_at : List ℕ → ℕ → Outcome TokenFailure Double
  unfolding double_at unsigned_at
  multiplier_at bytes body =
      if leb (unsigned_at bytes (body + 32) 8) now_in_seconds
      then double_at bytes (body + 40)
      else double_at bytes (body + 24)

  -- The loop over the extensions, from one of them on; nothing when the fuel runs out.
  unfoldable pub walk : List ℕ → ℕ → ℕ → Option (Outcome TokenFailure Double)
  unfolding multiplier_at byte_at
  walk bytes zero at = none
  walk bytes (suc fuel) at =
      let extension_length = two_bytes_at bytes (at + 2) in
      let body = at + extension_header_length in
      let next = walk bytes fuel (body + extension_length) in
      if ltb (length bytes) (at + extension_header_length)
      then some (ok one)
      else if two_bytes_at bytes at == scaled_ui_amount_extension && leb (body + 40) (length bytes)
      then some (multiplier_at bytes body)
      else if extension_length == 0
      then some (ok one)
      else next

  unfoldable pub decode_scaled_ui_amount_multiplier : List ℕ → Option (Outcome TokenFailure Double)
  unfolding walk
  decode_scaled_ui_amount_multiplier bytes =
      walk bytes (suc (length bytes)) (mint_extensions_start + 1)
