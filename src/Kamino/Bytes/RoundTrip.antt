-- ===== src/Kamino/Bytes/RoundTrip.antt =====
-- Reading a number out of an account gives the number that was written there, little end first.
use native.Mathlib.Nat.{pow-suc}
use accrue.Base.{
  ℕ, zero, suc, ◌+◌, ◌-◌, ◌*◌, ◌/◌, ◌%◌, ◌^◌, ◌<◌, ◌≡◌, refl, sym, ap, ◌∙◌, arith, List, [], ◌∷◌,
  ◌++◌, length,
}
use accrue.Base.Int.{ℤ, pos, negsuc}
use accrue.Kamino.Bytes.{byte_at, read_down, unsigned_at, signed_at}

-- The number as so many bytes, the lowest first.
abbrev pub little_endian : ℕ → ℕ → List ℕ
little_endian zero value = []
little_endian (suc width) value = value % 256 ∷ little_endian width (value / 256)

-- The sum of the bytes at their weights.
abbrev pub weighed : List ℕ → ℕ → ℕ → ℕ
weighed bytes offset zero = 0
weighed bytes offset (suc width) =
    weighed bytes offset width + byte_at bytes (offset + width) * 256 ^ width

one_more :
    (value byte weight next rest : ℕ)
    → next ≡ weight * 256
    → (value * 256 + byte) * weight + rest ≡ value * next + (rest + byte * weight)
one_more value byte weight next rest e = rw e (omega arith)

read_down-weighed :
    (bytes : List ℕ) (offset width value : ℕ)
    → read_down bytes offset width value ≡ value * 256 ^ width + weighed bytes offset width
unfolding read_down
read_down-weighed bytes offset zero value = omega arith
read_down-weighed bytes offset (suc width) value =
    read_down-weighed bytes offset width (value * 256 + byte_at bytes (offset + width))
    ∙ one_more value (byte_at bytes (offset + width)) (256 ^ width) _ _ (pow-suc 256 width)

pub unsigned_at-weighed :
    (bytes : List ℕ) (offset width : ℕ)
    → unsigned_at bytes offset width ≡ weighed bytes offset width
unfolding unsigned_at
unsigned_at-weighed bytes offset width = omega (arith, read_down-weighed bytes offset width 0)

byte_at-zero_add : (bytes : List ℕ) (index : ℕ) → byte_at bytes (0 + index) ≡ byte_at bytes index
byte_at-zero_add bytes index = ap (byte_at bytes) (omega arith)

byte_at-suc :
    (byte : ℕ) (bytes : List ℕ) (index : ℕ)
    → byte_at (byte ∷ bytes) (0 + suc index) ≡ byte_at bytes (0 + index)
unfolding byte_at
byte_at-suc byte bytes index =
    byte_at-zero_add (byte ∷ bytes) (suc index) ∙ sym (byte_at-zero_add bytes index)

byte_at-append :
    (before after : List ℕ) (index : ℕ)
    → byte_at (before ++ after) (length before + index) ≡ byte_at after (0 + index)
unfolding byte_at
byte_at-append [] after index = refl
byte_at-append (byte ∷ before) after index =
    let step : suc (length before) + index ≡ suc (length before + index) = omega arith in
    ap (byte_at (byte ∷ (before ++ after))) step ∙ byte_at-append before after index

weighed-append :
    (before after : List ℕ) (width : ℕ)
    → weighed (before ++ after) (length before) width ≡ weighed after 0 width
weighed-append before after zero = refl
weighed-append before after (suc width) =
    rw (weighed-append before after width, byte_at-append before after width) refl

weighed-cons :
    (byte : ℕ) (bytes : List ℕ) (width : ℕ)
    → weighed (byte ∷ bytes) 0 (suc width) ≡ byte + 256 * weighed bytes 0 width
unfolding byte_at
weighed-cons byte bytes zero = omega arith
weighed-cons byte bytes (suc width) =
    rw (weighed-cons byte bytes width, byte_at-suc byte bytes width, pow-suc 256 width)
      (omega arith)

weighed-little_endian :
    (after : List ℕ) (width value : ℕ)
    → value < 256 ^ width
    → weighed (little_endian width value ++ after) 0 width ≡ value
weighed-little_endian after zero value h = omega arith
weighed-little_endian after (suc width) value h =
    let smaller : value / 256 < 256 ^ width = omega (arith, pow-suc 256 width) in
    weighed-cons (value % 256) (little_endian width (value / 256) ++ after) width
    ∙ omega (arith, weighed-little_endian after width (value / 256) smaller)

-- A number that fits its width is read back from where its bytes were written, whatever stands
-- before and after them.
pub unsigned_at-little_endian :
    (before after : List ℕ) (width value : ℕ)
    → value < 256 ^ width
    → unsigned_at (before ++ (little_endian width value ++ after)) (length before) width ≡ value
unsigned_at-little_endian before after width value h =
    unsigned_at-weighed (before ++ (little_endian width value ++ after)) (length before) width
    ∙ weighed-append before (little_endian width value ++ after) width
    ∙ weighed-little_endian after width value h

-- Eight bytes hold the integers from `-2 ^ 63` up to `2 ^ 63 - 1`.
abbrev pub FitsEightBytes : ℤ → Type 0
FitsEightBytes (pos n) = n < 2 ^ 63
FitsEightBytes (negsuc n) = n < 2 ^ 63

abbrev pub twos_complement : ℤ → ℕ
twos_complement (pos n) = n
twos_complement (negsuc n) = 2 ^ 64 - 1 - n

-- A signed number of eight bytes is read back from where its two's complement was written.
pub signed_at-twos_complement :
    (before after : List ℕ) (value : ℤ)
    → FitsEightBytes value
    → signed_at (before ++ (little_endian 8 (twos_complement value) ++ after)) (length before)
      ≡ value
unfolding signed_at
signed_at-twos_complement before after (pos n) h =
    rw (unsigned_at-little_endian before after 8 n (omega arith)) (ground arith)
signed_at-twos_complement before after (negsuc n) h =
    rw (unsigned_at-little_endian before after 8 (2 ^ 64 - 1 - n) (omega arith)) (ground arith)
