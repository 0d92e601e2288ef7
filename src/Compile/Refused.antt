-- ===== src/Compile/Refused.antt =====
-- When the compiler gives up, no format that it may use fits.
use accrue.Base.{
  ℕ, ◌<◌, ◌≡◌, ◌⊎◌, sym, ◌∙◌, arith, Bool, true, false, ◌&&◌, Bool-cases, inl, inr, Option, none,
  some, List, [], ◌∷◌,
}
use accrue.Base.Outcome.{Outcome, ok, throw}
use accrue.Base.Text.{Text}
use accrue.Compile.First.{
  with_tables, over_tables, compile_version_one, compile_version_zero, if_it_fits, choose,
  compile_with, compile_the_first_that_fits, endpoint_accepts_version_one,
}
use accrue.Compile.Sizes.{
  Library, Lifetime, NetworkFailure, CompileOptions, CompiledTransaction, CompileFailure,
  nothing_fits, Endpoint, fits_legacy, fits_version_one, refuses_version_one,
  max_legacy_transaction_size_bytes,
}

module _ {Instruction Message LookupTables Network : Type 0}
    (library : Library Instruction Message LookupTables Network) where
  open library use {get_latest_blockhash}

  -- A network that failed is not taken for a size.
  over_tables-gives_up :
      (message : Message) (lifetime : Lifetime) (w after : Network) (tables : List Text) (size : ℕ)
      → over_tables library message lifetime w tables ≡ (throw (nothing_fits size), after)
      → ⊥
  over_tables-gives_up message lifetime w after [] size h = cc
  over_tables-gives_up message lifetime w after (table ∷ tables) size h =
      with_tables-gives_up (library.fetch_tables (table ∷ tables) w) h
    where
      with_tables-gives_up :
          (result : Outcome NetworkFailure LookupTables × Network)
          → with_tables library message lifetime result ≡ (throw (nothing_fits size), after)
          → ⊥
      with_tables-gives_up (ok fetched, w') h' = cc
      with_tables-gives_up (throw failure, w') h' = cc

  -- The version 0 transaction is too large.
  IsTooLarge : CompileOptions → List Instruction → Lifetime → Type 0
  IsTooLarge options instructions lifetime =
      (before : Network) × (after : Network) × (zero : CompiledTransaction) × (compile_version_zero
          library options instructions lifetime before
        ≡ (ok zero, after))
      × (max_legacy_transaction_size_bytes < zero.bytes)

  if_it_fits-gives_up :
      (size : Option ℕ) (known : Option Bool)
      (result : Outcome CompileFailure CompiledTransaction × Network) (named : ℕ)
      (after : Endpoint Network)
      → ((w : Network) → result ≡ (throw (nothing_fits named), w) → ⊥)
      → if_it_fits library size known result ≡ (throw (nothing_fits named), after)
      → (zero : CompiledTransaction) × (result ≡ (ok zero, after.network))
        × (max_legacy_transaction_size_bytes < zero.bytes)
  unfolding if_it_fits fits_legacy
  if_it_fits-gives_up size known (throw failure, w) named after not_thrown h =
      absurd (not_thrown w (ground (arith, h)))
  if_it_fits-gives_up size known (ok zero, w) named after not_thrown h =
      (zero, ground (arith, h), ground (arith, h))

  if_it_fits-IsTooLarge :
      (options : CompileOptions) (instructions : List Instruction) (lifetime : Lifetime)
      (w : Network) (size : Option ℕ) (known : Option Bool) (named : ℕ) (after : Endpoint Network)
      → if_it_fits library size known (compile_version_zero library options instructions lifetime w)
        ≡ (throw (nothing_fits named), after)
      → IsTooLarge options instructions lifetime
  unfolding IsTooLarge compile_version_zero
  if_it_fits-IsTooLarge options instructions lifetime w size known named after h =
      let (zero, made, large) =
        if_it_fits-gives_up size known _ named after
          (λ w'. over_tables-gives_up _ lifetime w w' _ named) h in
      (w, after.network, zero, made, large)

  choose-gives_up :
      (options : CompileOptions) (instructions : List Instruction) (lifetime : Lifetime)
      (first : CompiledTransaction) (result : Bool × Endpoint Network) (named : ℕ)
      (after : Endpoint Network)
      → choose library options instructions lifetime first result
        ≡ (throw (nothing_fits named), after)
      → IsTooLarge options instructions lifetime
        × (max_legacy_transaction_size_bytes < first.bytes)
        × ((result.0 && fits_version_one first) ≡ false)
  unfolding choose fits_legacy
  choose-gives_up options instructions lifetime first (roomy, endpoint) named after h =
      elim (Bool-cases (roomy && fits_version_one first)) [
        | inl fits ↦
            let chosen : choose library options instructions lifetime first (roomy, endpoint)
                ≡ (ok first, endpoint) =
              rw (choose, fits) in
            let same = sym chosen ∙ h in cc
        | inr not_roomy ↦ elim (Bool-cases (fits_legacy first)) [
          | inl small ↦
              let chosen : choose library options instructions lifetime first (roomy, endpoint)
                  ≡ (ok first, endpoint) =
                rw (choose, not_roomy, small) in
              let same = sym chosen ∙ h in cc
          | inr large ↦
              let chosen : choose library options instructions lifetime first (roomy, endpoint)
                  ≡ if_it_fits library (some first.bytes) endpoint.takes_four_kilobytes (
                      compile_version_zero library options instructions lifetime endpoint.network) =
                rw (choose, not_roomy, large) in
              (
                if_it_fits-IsTooLarge options instructions lifetime endpoint.network
                    (some first.bytes) endpoint.takes_four_kilobytes named after (sym chosen ∙ h),
                ground (arith, large),
                not_roomy,
              )
        ]
      ]

  -- The formats that may be used are all too large: version zero, and for a wallet that reads it also
  -- version one, which the endpoint does not take or which is over its own bounds.
  unfoldable pub NothingFits : CompileOptions → List Instruction → Option Bool → Type 0
  unfolding IsTooLarge
  NothingFits options instructions known =
      (lifetime : Lifetime) × (w : Network) × IsTooLarge options instructions lifetime
      × ((refuses_version_one options ≡ true)
          ⊎ ((max_legacy_transaction_size_bytes
                < (compile_version_one library options instructions lifetime).bytes)
              × (((endpoint_accepts_version_one library
                      (record { takes_four_kilobytes = known; network = w })).0
                    && fits_version_one (compile_version_one library options instructions lifetime))
                  ≡ false)))

  compile_with-NothingFits :
      (options : CompileOptions) (instructions : List Instruction) (known : Option Bool)
      (result : Outcome NetworkFailure Lifetime × Network) (named : ℕ) (after : Endpoint Network)
      → compile_with library options instructions known result ≡ (throw (nothing_fits named), after)
      → NothingFits options instructions known
  unfolding compile_with NothingFits
  compile_with-NothingFits options instructions known (throw failure, w) named after h = cc
  compile_with-NothingFits options instructions known (ok lifetime, w) named after h =
      elim (Bool-cases (refuses_version_one options)) [
        | inl refuses ↦
            let chosen : compile_with library options instructions known (ok lifetime, w)
                ≡ if_it_fits library none known
                    (compile_version_zero library options instructions lifetime w) =
              rw (compile_with, refuses) in
            (
              lifetime,
              w,
              if_it_fits-IsTooLarge options instructions lifetime w none known named after
                  (sym chosen ∙ h),
              inl refuses,
            )
        | inr takes ↦
            let asked : Endpoint Network = record { takes_four_kilobytes = known; network = w } in
            let chosen : compile_with library options instructions known (ok lifetime, w)
                ≡ choose library options instructions lifetime
                    (compile_version_one library options instructions lifetime)
                    (endpoint_accepts_version_one library asked) =
              rw (compile_with, takes) in
            let (zero_too, one_too, refused) =
              choose-gives_up options instructions lifetime
                (compile_version_one library options instructions lifetime)
                (endpoint_accepts_version_one library asked) named after (sym chosen ∙ h) in
            (lifetime, w, zero_too, inr (one_too, refused))
      ]

  -- A size is thrown only when no format that may be used fits.
  pub compile_the_first_that_fits-NothingFits :
      (options : CompileOptions) (instructions : List Instruction)
      (endpoint after : Endpoint Network) (named : ℕ)
      → compile_the_first_that_fits library options instructions endpoint
        ≡ (throw (nothing_fits named), after)
      → NothingFits options instructions endpoint.takes_four_kilobytes
  unfolding compile_the_first_that_fits
  compile_the_first_that_fits-NothingFits options instructions endpoint after named h =
      compile_with-NothingFits options instructions endpoint.takes_four_kilobytes
        (get_latest_blockhash endpoint.network) named after h
