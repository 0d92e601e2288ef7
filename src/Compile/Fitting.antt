-- ===== src/Compile/Fitting.antt =====
-- What is compiled fits what it is for, and nothing is given up that would have fitted.
use accrue.Base.{
  ℕ, ◌≤◌, ◌≡◌, ◌⊎◌, refl, sym, ◌∙◌, arith, Bool, true, false, ◌&&◌, Bool-cases, Option-cases, inl,
  inr, Option, none, some, List, [], ◌∷◌,
}
use accrue.Base.Outcome.{Outcome, ok, throw}
use accrue.Base.Text.{Text}
use accrue.Compile.First.{
  measured, with_tables, over_tables, compile_version_one, compile_version_zero, if_it_fits, choose,
  compile_with, compile_the_first_that_fits, endpoint_accepts_version_one, probed,
}
use accrue.Compile.Sizes.{
  Library, Lifetime, NetworkFailure, CompileOptions, CompiledTransaction, CompileFailure, Endpoint,
  version_one, version_zero, fits_legacy, fits_version_one, refuses_version_one,
  max_legacy_transaction_size_bytes, max_transaction_size_bytes,
  max_unique_addresses_per_transaction,
}

module _ {Instruction Message LookupTables Network : Type 0}
    (library : Library Instruction Message LookupTables Network) where
  open library use {get_latest_blockhash}

  -- A transaction is small enough for any endpoint, or it is of version one, within its own bounds,
  -- and the endpoint is known to take it.
  unfoldable pub Fits : CompileOptions → CompiledTransaction → Endpoint Network → Type 0
  Fits options compiled after =
      ((compiled.bytes ≤ max_legacy_transaction_size_bytes)
        ⊎ ((compiled.version ≡ version_one)
            × (compiled.bytes ≤ max_transaction_size_bytes)
            × (compiled.unique_addresses ≤ max_unique_addresses_per_transaction)
            × (after.takes_four_kilobytes ≡ some true)))
      × ((refuses_version_one options ≡ false) ⊎ (compiled.version ≡ version_zero))

  probed-known :
      (result : Outcome NetworkFailure (Unit {0}) × Network)
      → (probed library result).1.takes_four_kilobytes ≡ some (probed library result).0
  probed-known (ok _, w) = refl
  probed-known (throw failure, w) = refl

  endpoint_accepts_version_one-known :
      (endpoint : Endpoint Network)
      → (endpoint_accepts_version_one library endpoint).1.takes_four_kilobytes
        ≡ some (endpoint_accepts_version_one library endpoint).0
  unfolding endpoint_accepts_version_one
  endpoint_accepts_version_one-known endpoint = elim (Option-cases endpoint.takes_four_kilobytes) [
    | inl unknown ↦ rw (endpoint_accepts_version_one, unknown) (probed-known _)
    | inr (known, is_known) ↦ rw (endpoint_accepts_version_one, is_known) is_known
  ]

  over_tables-version :
      (message : Message) (lifetime : Lifetime) (w after : Network) (tables : List Text)
      (compiled : CompiledTransaction)
      → over_tables library message lifetime w tables ≡ (ok compiled, after)
      → compiled.version ≡ version_zero
  unfolding measured
  over_tables-version message lifetime w after [] compiled h = ground (arith, h)
  over_tables-version message lifetime w after (table ∷ tables) compiled h =
      with_tables-version (library.fetch_tables (table ∷ tables) w) h
    where
      with_tables-version :
          (result : Outcome NetworkFailure LookupTables × Network)
          → with_tables library message lifetime result ≡ (ok compiled, after)
          → compiled.version ≡ version_zero
      with_tables-version (ok fetched, w') h' = ground (arith, h')
      with_tables-version (throw failure, w') h' = cc

  if_it_fits-ok :
      (size : Option ℕ) (known : Option Bool)
      (result : Outcome CompileFailure CompiledTransaction × Network)
      (compiled : CompiledTransaction) (after : Endpoint Network)
      → if_it_fits library size known result ≡ (ok compiled, after)
      → (result ≡ (ok compiled, after.network))
        × (compiled.bytes ≤ max_legacy_transaction_size_bytes)
  unfolding if_it_fits fits_legacy
  if_it_fits-ok size known (throw failure, w) compiled after h = cc
  if_it_fits-ok size known (ok first, w) compiled after h = (ground (arith, h), ground (arith, h))

  compile_version_zero-version :
      (options : CompileOptions) (instructions : List Instruction) (lifetime : Lifetime)
      (w after : Network) (compiled : CompiledTransaction)
      → compile_version_zero library options instructions lifetime w ≡ (ok compiled, after)
      → compiled.version ≡ version_zero
  unfolding compile_version_zero
  compile_version_zero-version options instructions lifetime w after compiled h =
      over_tables-version _ lifetime w after _ compiled h

  -- A version 0 transaction that fits is small enough, and any wallet reads it.
  if_it_fits-Fits :
      (options : CompileOptions) (instructions : List Instruction) (lifetime : Lifetime)
      (w : Network) (size : Option ℕ) (known : Option Bool) (compiled : CompiledTransaction)
      (after : Endpoint Network)
      → if_it_fits library size known (compile_version_zero library options instructions lifetime w)
        ≡ (ok compiled, after)
      → Fits options compiled after
  unfolding Fits
  if_it_fits-Fits options instructions lifetime w size known compiled after h =
      let (made, small) = if_it_fits-ok size known _ compiled after h in
      (
        inl small,
        inr (
            compile_version_zero-version options instructions lifetime w after.network compiled
              made),
      )

  is_version_one :
      (options : CompileOptions) (instructions : List Instruction) (lifetime : Lifetime)
      → (compile_version_one library options instructions lifetime).version ≡ version_one
  unfolding compile_version_one measured
  is_version_one options instructions lifetime = refl

  choose-Fits :
      (options : CompileOptions) (instructions : List Instruction) (lifetime : Lifetime)
      (first : CompiledTransaction) (result : Bool × Endpoint Network)
      (compiled : CompiledTransaction) (after : Endpoint Network)
      → refuses_version_one options ≡ false
      → first.version ≡ version_one
      → result.1.takes_four_kilobytes ≡ some result.0
      → choose library options instructions lifetime first result ≡ (ok compiled, after)
      → Fits options compiled after
  unfolding choose Fits fits_legacy fits_version_one
  choose-Fits options instructions lifetime first (roomy, endpoint) compiled after takes is_one
        known h =
      elim (Bool-cases (roomy && fits_version_one first)) [
        | inl fits ↦
            let chosen : choose library options instructions lifetime first (roomy, endpoint)
                ≡ (ok first, endpoint) =
              rw (choose, fits) in
            let same = sym chosen ∙ h in
            (
              inr (
                ground (arith, same, is_one),
                ground (arith, same, fits),
                ground (arith, same, fits),
                ground (arith, same, fits, known),
              ),
              inl takes,
            )
        | inr not_roomy ↦ elim (Bool-cases (fits_legacy first)) [
          | inl small ↦
              let chosen : choose library options instructions lifetime first (roomy, endpoint)
                  ≡ (ok first, endpoint) =
                rw (choose, not_roomy, small) in
              let same = sym chosen ∙ h in (inl (ground (arith, same, small)), inl takes)
          | inr large ↦
              let chosen : choose library options instructions lifetime first (roomy, endpoint)
                  ≡ if_it_fits library (some first.bytes) endpoint.takes_four_kilobytes (
                      compile_version_zero library options instructions lifetime endpoint.network) =
                rw (choose, not_roomy, large) in
              if_it_fits-Fits options instructions lifetime endpoint.network (some first.bytes)
                endpoint.takes_four_kilobytes compiled after (sym chosen ∙ h)
        ]
      ]

  compile_with-Fits :
      (options : CompileOptions) (instructions : List Instruction) (known : Option Bool)
      (result : Outcome NetworkFailure Lifetime × Network) (compiled : CompiledTransaction)
      (after : Endpoint Network)
      → compile_with library options instructions known result ≡ (ok compiled, after)
      → Fits options compiled after
  unfolding compile_with
  compile_with-Fits options instructions known (throw failure, w) compiled after h = cc
  compile_with-Fits options instructions known (ok lifetime, w) compiled after h =
      elim (Bool-cases (refuses_version_one options)) [
        | inl refuses ↦
            let chosen : compile_with library options instructions known (ok lifetime, w)
                ≡ if_it_fits library none known
                    (compile_version_zero library options instructions lifetime w) =
              rw (compile_with, refuses) in
            if_it_fits-Fits options instructions lifetime w none known compiled after
              (sym chosen ∙ h)
        | inr takes ↦
            let asked : Endpoint Network = record { takes_four_kilobytes = known; network = w } in
            let chosen : compile_with library options instructions known (ok lifetime, w)
                ≡ choose library options instructions lifetime
                    (compile_version_one library options instructions lifetime)
                    (endpoint_accepts_version_one library asked) =
              rw (compile_with, takes) in
            choose-Fits options instructions lifetime
              (compile_version_one library options instructions lifetime)
              (endpoint_accepts_version_one library asked) compiled after takes
              (is_version_one options instructions lifetime)
              (endpoint_accepts_version_one-known asked) (sym chosen ∙ h)
      ]

  -- A transaction that is returned is at most 1,232 bytes, or is of version one, at most 4,096 bytes
  -- with at most 64 addresses for an endpoint that is known to take it. A wallet that does not read
  -- version one gets version zero.
  pub compile_the_first_that_fits-Fits :
      (options : CompileOptions) (instructions : List Instruction)
      (endpoint after : Endpoint Network) (compiled : CompiledTransaction)
      → compile_the_first_that_fits library options instructions endpoint ≡ (ok compiled, after)
      → Fits options compiled after
  unfolding compile_the_first_that_fits
  compile_the_first_that_fits-Fits options instructions endpoint after compiled h =
      compile_with-Fits options instructions endpoint.takes_four_kilobytes
        (get_latest_blockhash endpoint.network) compiled after h

  known_once :
      (endpoint : Endpoint Network) (known : Bool)
      → endpoint.takes_four_kilobytes ≡ some known
      → endpoint_accepts_version_one library endpoint ≡ (known, endpoint)
  unfolding endpoint_accepts_version_one
  known_once endpoint known h = ground (arith, h)

  -- An endpoint is asked once: what it answered is what it answers from then on, and the network is
  -- left alone.
  pub endpoint_accepts_version_one-once :
      (endpoint : Endpoint Network)
      → endpoint_accepts_version_one library (endpoint_accepts_version_one library endpoint).1
        ≡ endpoint_accepts_version_one library endpoint
  endpoint_accepts_version_one-once endpoint =
      known_once (endpoint_accepts_version_one library endpoint).1
        (endpoint_accepts_version_one library endpoint).0
        (endpoint_accepts_version_one-known endpoint)
