-- ===== src/Compile/First.antt =====
-- packages/solana/src/transactions/compile.ts: the formats in their order. The messages of the client
-- library, its wire and its tables are types and functions of that library; the calls of the network
-- act on a state that is only passed on.
use accrue.Base.{
  ℕ, Bool, true, false, ◌&&◌, Option, none, some, List, [], ◌∷◌, ◌++◌, map, if◌then◌else◌,
}
use accrue.Base.Outcome.{Outcome, ok, throw}
use accrue.Base.Text.{Text}
use accrue.Compile.Sizes.{
  loaded_accounts_data_size_limit, a_probe_transaction_size, NetworkFailure, Lifetime, Library,
  CompileOptions, Version, CompiledTransaction, CompileFailure, Endpoint, bytes_of_base64,
  the_budget_as_instructions, tables_of, refuses_version_one, fits_legacy, fits_version_one,
  does_not_refuse_the_size, nothing_fits, the_network_failed, version_zero, version_one, zeroes,
}

module _ {Instruction Message LookupTables Network : Type 0}
    (library : Library Instruction Message LookupTables Network) where
  open library use {
    an_instruction, message_of, compress, wire_of, static_accounts_of, btoa, get_latest_blockhash,
    fetch_tables, simulate,
  }

  -- What a probe that ended says.
  abbrev pub probed : Outcome NetworkFailure (Unit {0}) × Network → Bool × Endpoint Network
  probed (ok _, network) = (true, record { takes_four_kilobytes = some true; network = network })
  probed (throw failure, network) = (
    does_not_refuse_the_size failure,
    record { takes_four_kilobytes = some (does_not_refuse_the_size failure); network = network },
  )

  unfoldable pub endpoint_accepts_version_one : Endpoint Network → Bool × Endpoint Network
  unfolding does_not_refuse_the_size
  endpoint_accepts_version_one endpoint = elim endpoint.takes_four_kilobytes [
    | some known ↦ (known, endpoint)
    | none ↦ probed (simulate (btoa (zeroes a_probe_transaction_size)) endpoint.network)
  ]

  unfoldable pub measured : Message → Version → Lifetime → Bool → CompiledTransaction
  unfolding bytes_of_base64
  measured message version lifetime used_lookup_tables = record {
    wire = wire_of message;
    version = version;
    bytes = bytes_of_base64 (wire_of message);
    unique_addresses = static_accounts_of message;
    blockhash_expires_at_height = lifetime.last_valid_block_height;
    used_lookup_tables = used_lookup_tables;
  }

  unfoldable pub compile_version_one :
      CompileOptions → List Instruction → Lifetime → CompiledTransaction
  unfolding measured
  compile_version_one options instructions lifetime =
      measured
        (message_of (record {
          version = 1;
          fee_payer = options.fee_payer;
          lifetime = lifetime;
          budget = some (
            options.compute_unit_limit, options.priority_fee_lamports,
            loaded_accounts_data_size_limit,
          );
          instructions = instructions;
        }))
        version_one lifetime false

  unfoldable pub plain : CompileOptions → List Instruction → Lifetime → Message
  unfolding the_budget_as_instructions
  plain options instructions lifetime = message_of (record {
    version = 0;
    fee_payer = options.fee_payer;
    lifetime = lifetime;
    budget = none;
    instructions = map an_instruction (the_budget_as_instructions options) ++ instructions;
  })

  -- The message with the tables that were fetched.
  abbrev pub with_tables :
      Message
      → Lifetime
      → Outcome NetworkFailure LookupTables × Network
      → Outcome CompileFailure CompiledTransaction × Network
  with_tables message lifetime (throw failure, w) = (throw (the_network_failed failure), w)
  with_tables message lifetime (ok tables, w) =
      (ok (measured (compress message tables) version_zero lifetime true), w)

  -- A small transaction needs no table, and a cluster may have none to offer.
  abbrev pub over_tables :
      Message
      → Lifetime
      → Network
      → List Text
      → Outcome CompileFailure CompiledTransaction × Network
  over_tables message lifetime w [] = (ok (measured message version_zero lifetime true), w)
  over_tables message lifetime w (table ∷ tables) =
      with_tables message lifetime (fetch_tables (table ∷ tables) w)

  unfoldable pub compile_version_zero :
      CompileOptions
      → List Instruction
      → Lifetime
      → Network
      → Outcome CompileFailure CompiledTransaction × Network
  unfolding measured plain
  compile_version_zero options instructions lifetime w =
      over_tables (plain options instructions lifetime) lifetime w (tables_of options)

  abbrev pub Compiled : Type 0
  Compiled = Outcome CompileFailure CompiledTransaction × Endpoint Network

  -- The version 0 transaction where it fits, and otherwise a failure that names a size.
  unfoldable pub if_it_fits :
      Option ℕ → Option Bool → Outcome CompileFailure CompiledTransaction × Network → Compiled
  unfolding fits_legacy
  if_it_fits size known (throw failure, w) =
      (throw failure, record { takes_four_kilobytes = known; network = w })
  if_it_fits size known (ok compiled, w) =
      let named = elim size as (λ _. ℕ) [ some bytes ↦ bytes | none ↦ compiled.bytes ] in
      (
        if fits_legacy compiled then ok compiled else throw (nothing_fits named),
        record { takes_four_kilobytes = known; network = w },
      )

  unfoldable pub choose :
      CompileOptions
      → List Instruction
      → Lifetime
      → CompiledTransaction
      → Bool × Endpoint Network
      → Compiled
  unfolding fits_version_one fits_legacy compile_version_zero if_it_fits
  choose options instructions lifetime first (roomy, endpoint) =
      if roomy && fits_version_one first
      then (ok first, endpoint)
      else if fits_legacy first
      then (ok first, endpoint)
      else if_it_fits (some first.bytes) endpoint.takes_four_kilobytes
          (compile_version_zero options instructions lifetime endpoint.network)

  -- What follows the latest blockhash.
  unfoldable pub compile_with :
      CompileOptions
      → List Instruction
      → Option Bool
      → Outcome NetworkFailure Lifetime × Network
      → Compiled
  unfolding compile_version_one compile_version_zero if_it_fits choose endpoint_accepts_version_one
  compile_with options instructions known (throw failure, w) =
      (throw (the_network_failed failure), record { takes_four_kilobytes = known; network = w })
  compile_with options instructions known (ok lifetime, w) =
      if refuses_version_one options
      then if_it_fits none known (compile_version_zero options instructions lifetime w)
      else choose options instructions lifetime (compile_version_one options instructions lifetime)
          (endpoint_accepts_version_one (record { takes_four_kilobytes = known; network = w }))

  unfoldable pub compile_the_first_that_fits :
      CompileOptions → List Instruction → Endpoint Network → Compiled
  unfolding compile_with
  compile_the_first_that_fits options instructions endpoint =
      compile_with options instructions endpoint.takes_four_kilobytes
        (get_latest_blockhash endpoint.network)
