-- ===== src/Kamino/Bytes.antt =====
-- packages/solana/src/kamino/layout.ts: reading numbers and addresses out of an account.
-- An account is the list of its bytes, each below 256, so that `(value << 8n) | byte` is
-- `value * 256 + byte`. The decoder of base 58 belongs to another package and is a parameter.
pub mod RoundTrip
pub mod Bounds
use accrue.Base.{
  ℕ, zero, suc, ◌+◌, ◌*◌, ◌^◌, leb, ◌==◌, Bool, true, false, ◌&&◌, List, [], ◌∷◌, take, drop,
  if◌then◌else◌,
}
use accrue.Base.Int.{ℤ, pos, sub_ℕ}
use accrue.Base.Text.{Text, text, same_text}

-- `data[index] ?? 0`
unfoldable pub byte_at : List ℕ → ℕ → ℕ
byte_at [] index = 0
byte_at (byte ∷ bytes) zero = byte
byte_at (byte ∷ bytes) (suc index) = byte_at bytes index

-- The loop, with `left` indices still to read and the highest of them next.
unfoldable pub read_down : List ℕ → ℕ → ℕ → ℕ → ℕ
unfolding byte_at
read_down bytes offset zero value = value
read_down bytes offset (suc left) value =
    read_down bytes offset left (value * 256 + byte_at bytes (offset + left))

unfoldable pub unsigned_at : List ℕ → ℕ → ℕ → ℕ
unfolding read_down
unsigned_at bytes offset byte_length = read_down bytes offset byte_length 0

unfoldable pub signed_at : List ℕ → ℕ → ℤ
unfolding unsigned_at
signed_at bytes offset =
    let raw = unsigned_at bytes offset 8 in if leb (2 ^ 63) raw then sub_ℕ raw (2 ^ 64) else pos raw

unfoldable pub is_the_default_address : Text → Bool
unfolding same_text
is_the_default_address candidate = same_text candidate (text "11111111111111111111111111111111")

module _ (base58 : List ℕ → Text) where
  unfoldable pub address_at : List ℕ → ℕ → Text
  address_at bytes offset = base58 (take 32 (drop offset bytes))
