-- ===== src/Token/Extensions.antt =====
-- The loop over the extensions of a mint ends, and what it does with an extension that is cut short.
use accrue.Base.{
  ℕ, zero, suc, ◌+◌, ◌≤◌, ◌<◌, ◌≡◌, arith, lt→ltb, le→leb, le→ltb_false, ==_iff, ltb, leb, ◌==◌,
  ◌&&◌, Bool-cases, inl, inr, true, false, some, List, length,
}
use accrue.Base.Outcome.{Outcome, ok, throw}
use accrue.Kamino.Bytes.{unsigned_at}
use accrue.Token.{
  TokenFailure, out_of_range, two_bytes_at, extension_header_length, scaled_ui_amount_extension,
  mint_extensions_start, double_at, multiplier_at, walk, decode_scaled_ui_amount_multiplier,
}

module _ {Double : Type 0} (float64 : List ℕ → Double) (one : Double) (now_in_seconds : ℕ) where
  -- With the fuel that reaches from an offset to the end, the loop ends.
  walk-ends :
      (bytes : List ℕ) (fuel at : ℕ)
      → length bytes ≤ at + fuel
      → (result : Outcome TokenFailure Double) × (walk float64 one now_in_seconds bytes
            (suc fuel)
            at
          ≡ some result)
  unfolding walk
  walk-ends bytes zero at h =
      (ok one, rw (lt→ltb (length bytes) (at + extension_header_length) (omega arith)))
  walk-ends bytes (suc fuel) at h =
      let extension_length = two_bytes_at bytes (at + 2) in
      let body = at + extension_header_length in
      let (rest, ends) = walk-ends bytes fuel (body + extension_length) (omega arith) in
      elim (Bool-cases (ltb (length bytes) (at + extension_header_length))) [
        | inl over ↦ (ok one, rw over)
        | inr within ↦
            elim (Bool-cases (
              two_bytes_at bytes at == scaled_ui_amount_extension
              && leb (body + 40) (length bytes))) [
                | inl scaled ↦
                    (multiplier_at float64 one now_in_seconds bytes body, rw (within, scaled))
                | inr other ↦ elim (Bool-cases (extension_length == 0)) [
                  | inl empty ↦ (ok one, rw (within, other, empty))
                  | inr more ↦ (rest, rw (within, other, more) ends)
                ]
              ]
      ]

  -- The loop over the extensions of a mint always ends, with a multiplier or with a failure.
  pub decode_scaled_ui_amount_multiplier-ends :
      (bytes : List ℕ)
      → (result : Outcome TokenFailure Double) × (decode_scaled_ui_amount_multiplier float64 one
            now_in_seconds bytes
          ≡ some result)
  unfolding decode_scaled_ui_amount_multiplier
  decode_scaled_ui_amount_multiplier-ends bytes =
      walk-ends bytes (length bytes) (mint_extensions_start + 1) (omega arith)

  -- An extension whose instant has come and whose new multiplier is cut short passes the test of its
  -- length, and the read of the multiplier throws.
  pub a_cut_multiplier_throws :
      (bytes : List ℕ)
      → two_bytes_at bytes 166 ≡ scaled_ui_amount_extension
      → 210 ≤ length bytes
      → length bytes < 218
      → unsigned_at bytes 202 8 ≤ now_in_seconds
      → decode_scaled_ui_amount_multiplier float64 one now_in_seconds bytes
        ≡ some (throw out_of_range)
  unfolding decode_scaled_ui_amount_multiplier walk multiplier_at double_at
  a_cut_multiplier_throws bytes is_scaled long short due =
      let has_a_header : ltb (length bytes) 170 ≡ false =
        le→ltb_false (length bytes) 170 (omega (arith, long)) in
      let is_of_the_kind : (two_bytes_at bytes 166 == scaled_ui_amount_extension) ≡ true =
        (==_iff (two_bytes_at bytes 166) scaled_ui_amount_extension).1 is_scaled in
      let passes : leb 210 (length bytes) ≡ true = le→leb 210 (length bytes) long in
      let has_come : leb (unsigned_at bytes 202 8) now_in_seconds ≡ true =
        le→leb (unsigned_at bytes 202 8) now_in_seconds due in
      let is_cut : ltb (length bytes) 218 ≡ true = lt→ltb (length bytes) 218 short in
      rw (has_a_header, is_of_the_kind, passes, multiplier_at, has_come, double_at, is_cut)
