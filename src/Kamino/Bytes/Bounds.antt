-- ===== src/Kamino/Bytes/Bounds.antt =====
-- The numbers that are read out of an account fit their widths.
use native.Mathlib.Nat.{pow-suc, mul-le-mul_right}
use accrue.Base.{ℕ, zero, suc, ◌+◌, ◌*◌, ◌^◌, ◌<◌, ◌≤◌, ◌≡◌, arith, List, [], ◌∷◌, All}
use accrue.Kamino.Bytes.{byte_at, unsigned_at}
use accrue.Kamino.Bytes.RoundTrip.{weighed, unsigned_at-weighed}

abbrev pub AreBytes : List ℕ → Type 0
AreBytes = All (λ byte. byte < 256)

pub byte_at_lt : (bytes : List ℕ) (index : ℕ) → AreBytes bytes → byte_at bytes index < 256
unfolding byte_at
byte_at_lt [] index h = omega arith
byte_at_lt (byte ∷ bytes) zero h = h.0
byte_at_lt (byte ∷ bytes) (suc index) h = byte_at_lt bytes index h.1

one_more_lt :
    (rest byte weight next : ℕ)
    → rest < weight
    → byte < 256
    → next ≡ weight * 256
    → rest + byte * weight < next
one_more_lt rest byte weight next h k e =
    let most : byte * weight ≤ 255 * weight = mul-le-mul_right weight (omega arith) in
    rw e (omega arith)

weighed_lt :
    (bytes : List ℕ) (offset width : ℕ) → AreBytes bytes → weighed bytes offset width < 256 ^ width
weighed_lt bytes offset zero h = omega arith
weighed_lt bytes offset (suc width) h =
    one_more_lt _ _ _ _ (weighed_lt bytes offset width h) (byte_at_lt bytes (offset + width) h)
      (pow-suc 256 width)

-- An unsigned number of so many bytes is below the power of 256 of its width, wherever it is read.
pub unsigned_at_lt :
    (bytes : List ℕ) (offset width : ℕ)
    → AreBytes bytes
    → unsigned_at bytes offset width < 256 ^ width
unsigned_at_lt bytes offset width h =
    rw (unsigned_at-weighed bytes offset width) (weighed_lt bytes offset width h)
