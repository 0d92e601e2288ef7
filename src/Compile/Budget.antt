-- ===== src/Compile/Budget.antt =====
-- The instructions of the compute budget carry the settings that they are made of.
use native.Mathlib.Nat.{div-div-eq-div-mul, pow-suc}
use accrue.Base.{ℕ, zero, suc, ◌+◌, ◌*◌, ◌/◌, ◌^◌, ◌<◌, ◌≡◌, refl, ap, ◌∙◌, arith, [], ◌∷◌, ◌++◌}
use accrue.Compile.Sizes.{bytes_from, width_of, compute_budget_instruction}
use accrue.Kamino.Bytes.{unsigned_at}
use accrue.Kamino.Bytes.RoundTrip.{little_endian, unsigned_at-little_endian}

doubled : (m k : ℕ) → k ≡ suc m → 2 ^ k ≡ 2 ^ m * 2
doubled m k next = ap (λ n. 2 ^ n) next ∙ pow-suc 2 m

eight_bits : (n : ℕ) → 2 ^ (n + 8) ≡ 2 ^ n * 256
eight_bits n = omega (
  arith,
  doubled n (n + 1) (omega arith),
  doubled (n + 1) (n + 2) (omega arith),
  doubled (n + 2) (n + 3) (omega arith),
  doubled (n + 3) (n + 4) (omega arith),
  doubled (n + 4) (n + 5) (omega arith),
  doubled (n + 5) (n + 6) (omega arith),
  doubled (n + 6) (n + 7) (omega arith),
  doubled (n + 7) (n + 8) (omega arith),
)

next_byte : (value index : ℕ) → value / 2 ^ (suc index * 8) ≡ value / 2 ^ (index * 8) / 256
next_byte value index =
    let wider : 2 ^ (suc index * 8) ≡ 2 ^ (index * 8) * 256 =
      let eight : suc index * 8 ≡ index * 8 + 8 = omega arith in
      ap (λ n. 2 ^ n) eight ∙ eight_bits (index * 8) in
    rw (wider, div-div-eq-div-mul value (2 ^ (index * 8)) 256)

bytes_from-little_endian :
    (value index left : ℕ)
    → bytes_from value index left ≡ little_endian left (value / 2 ^ (index * 8)) ++ []
unfolding bytes_from
bytes_from-little_endian value index zero = refl
bytes_from-little_endian value index (suc left) =
    rw (bytes_from-little_endian value (suc index) left, next_byte value index)

-- A value that fits the width of its setting is what the program reads back after the discriminator.
pub compute_budget_instruction-carries :
    (discriminator value : ℕ)
    → value < 256 ^ width_of discriminator
    → unsigned_at (compute_budget_instruction discriminator value).bytes 1 (width_of discriminator)
      ≡ value
unfolding compute_budget_instruction
compute_budget_instruction-carries discriminator value h =
    let whole : value / 2 ^ (0 * 8) ≡ value = omega arith in
    rw (bytes_from-little_endian value 0 (width_of discriminator), whole)
      (unsigned_at-little_endian (discriminator ∷ []) [] (width_of discriminator) value h)
